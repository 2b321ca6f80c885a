-- ===== src/Msi/Counted.antt =====
-- examples/26_msi_interrupt/main.c with tools/qemu/hw/ldd/pcie.c: a set bit is never forgotten.
use linux_device_driver.Prelude.{
  ℕ, ◌+◌, ◌^◌, ◌<◌, ◌≡◌, ◌≢◌, ◌⊎◌, refl, sym, ◌∙◌, ap, ap₂, Bool, true, false, not, ◌&&◌, ◌||◌, ltb,
  ◌==◌, arith, if_cases, Bool-cases, ==→eq, inl, inr,
}
use linux_device_driver.Pcie.State.{Bus}
use linux_device_driver.Pcie.Machine.{Event, write, clock, step}
use linux_device_driver.Pcie.Signals.{messages, one_if}
use linux_device_driver.Pcie.Edges.{step-Signals}
use linux_device_driver.Prelude.Bits.{test_bit}
use linux_device_driver.Msi.Device.{
  Machine, acked, is_idle, is_entered, is_acked, Act, tick, raise, enter, ack, account, assign,
  bit_of, refused, access, act, reg_int_status, reg_int_raise,
}
use linux_device_driver.Msi.Bits.{
  bit_set, IsOpen, pending_bit, cleared_bit, status-IsOpen, raise-IsOpen, clock-IsOpen, and_true,
  test_bit-pow, test_bit-pow_other,
}

-- If the bit of event `n` is set, a message waits or the handler is about to clear the bit.
abbrev pub told : {Ram : Type 0} → ℕ → Machine Ram → Bool
told n m = not (bit_set n m.ps) || m.waiting n || is_entered (m.stage n)

told_step :
    (p p' w en : Bool) (x x' : ℕ)
    → x' ≡ x + one_if (p' && not p)
    → (not p || w || en) ≡ true
    → (not p' || (w || ltb x x') || en) ≡ true
told_step p p' w en x x' e t = ground arith

pub and_false : (b : Bool) → (b && false) ≡ false
and_false true = refl
and_false false = refl

pub ==→ne : (a b : ℕ) → (a == b) ≡ false → b ≢ a
==→ne a b h e = ground arith

module _ (n : ℕ) (h : n < 3) {Ram : Type 0} (bus : Bus Ram) where
  pub access-told :
      (e : Event) (m : Machine Ram)
      → IsOpen m.ps
      → IsOpen (step bus m.ps m.ram e).0
      → told n m ≡ true
      → told n (access bus e m) ≡ true
  unfolding access
  access-told e m o o' t =
      let ps' = (step bus m.ps m.ram e).0 in
      told_step (bit_set n m.ps) (bit_set n ps') (m.waiting n) (is_entered (m.stage n))
        (messages n m.ps.effects) (messages n ps'.effects)
        (step-Signals n h bus m.ps m.ram e o.msix o.valid
          ∙ ap₂ (λ (p p' : Bool). messages n m.ps.effects + one_if (p' && not p))
              (pending_bit n h m.ps o.unmasked) (pending_bit n h ps' o'.unmasked))
        t

  -- The handler's write clears the bit of its own vector only.
  pub cleared_own :
      (i now : ℕ) (m : Machine Ram)
      → (n == i) ≡ true
      → bit_set n (access bus (write reg_int_status (bit_of i) now) m).ps ≡ false
  unfolding access
  cleared_own i now m e =
      cleared_bit n h bus (bit_of i) now m.ps m.ram
      ∙ ap (λ (b : Bool). bit_set n m.ps && not b)
          (ap (λ (j : ℕ). test_bit (2 ^ j) n) (sym (==→eq n i e)) ∙ test_bit-pow n)
      ∙ and_false (bit_set n m.ps)

  pub cleared_other :
      (i now : ℕ) (m : Machine Ram)
      → (n == i) ≡ false
      → bit_set n (access bus (write reg_int_status (bit_of i) now) m).ps ≡ bit_set n m.ps
  unfolding access
  cleared_other i now m e =
      cleared_bit n h bus (bit_of i) now m.ps m.ram
      ∙ ap (λ (b : Bool). bit_set n m.ps && not b) (test_bit-pow_other i n (==→ne n i e))
      ∙ and_true (bit_set n m.ps)

  enter-told : (i : ℕ) (m : Machine Ram) → told n m ≡ true → told n (act bus (enter i) m) ≡ true
  unfolding act
  enter-told i m t = ground arith

  ack-told :
      (i now : ℕ) (m : Machine Ram)
      → IsOpen m.ps
      → told n m ≡ true
      → told n (act bus (ack i now) m) ≡ true
  unfolding act
  ack-told i now m o t =
      if_cases (λ (k : Machine Ram). told n k ≡ true) (is_entered (m.stage i))
        (λ _. split (Bool-cases (n == i))) λ _. t
    where
      m' : Machine Ram
      m' = access bus (write reg_int_status (bit_of i) now) m

      split :
          ((n == i) ≡ true) ⊎ ((n == i) ≡ false)
          → told n (record m' { stage = assign i acked m.stage }) ≡ true
      split (inl e) = ground (arith, cleared_own i now m e)
      split (inr e) = ground (
        arith,
        access-told (write reg_int_status (bit_of i) now) m o
            (status-IsOpen bus (bit_of i) now m.ps m.ram o) t,
      )

  account-told : (i : ℕ) (m : Machine Ram) → told n m ≡ true → told n (act bus (account i) m) ≡ true
  unfolding act
  account-told i m t = ground arith

  raise-told :
      (val now : ℕ) (m : Machine Ram)
      → IsOpen m.ps
      → told n m ≡ true
      → told n (act bus (raise val now) m) ≡ true
  unfolding act
  raise-told val now m o t =
      if_cases (λ (k : Machine Ram). told n k ≡ true) (refused val) (λ _. t)
        λ _. access-told (write reg_int_raise val now) m o (raise-IsOpen bus val now m.ps m.ram o) t

  pub act-told :
      (a : Act) (m : Machine Ram) → IsOpen m.ps → told n m ≡ true → told n (act bus a m) ≡ true
  act-told (tick now) m o t =
      unfold act in access-told (clock now) m o (clock-IsOpen bus now m.ps m.ram o) t
  act-told (raise val now) m o t = raise-told val now m o t
  act-told (enter i) m o t = enter-told i m t
  act-told (ack i now) m o t = ack-told i now m o t
  act-told (account i) m o t = account-told i m t

pub act-IsOpen :
    {Ram : Type 0} (bus : Bus Ram) (a : Act) (m : Machine Ram)
    → IsOpen m.ps
    → IsOpen (act bus a m).ps
unfolding act access
act-IsOpen bus (tick now) m o = clock-IsOpen bus now m.ps m.ram o
act-IsOpen bus (raise val now) m o =
    if_cases (λ (k : Machine _). IsOpen k.ps) (refused val) (λ _. o)
      λ _. raise-IsOpen bus val now m.ps m.ram o
act-IsOpen bus (enter i) m o =
    if_cases (λ (k : Machine _). IsOpen k.ps) (m.waiting i && is_idle (m.stage i)) (λ _. o) λ _. o
act-IsOpen bus (ack i now) m o =
    if_cases (λ (k : Machine _). IsOpen k.ps) (is_entered (m.stage i))
      (λ _. status-IsOpen bus (bit_of i) now m.ps m.ram o) λ _. o
act-IsOpen bus (account i) m o =
    if_cases (λ (k : Machine _). IsOpen k.ps) (is_acked (m.stage i)) (λ _. o) λ _. o
