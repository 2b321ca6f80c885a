-- ===== src/Msi/Beyond.antt =====
-- examples/26_msi_interrupt/main.c with tools/qemu/hw/ldd/pcie.c: an event stays on its way to the count.
use linux_device_driver.Prelude.{
  ℕ, ◌+◌, ◌^◌, ◌<◌, ◌≡◌, ◌⊎◌, refl, sym, ◌∙◌, ap, Bool, true, false, ◌&&◌, ◌||◌, List, [], ◌∷◌, ltb,
  leb, ◌==◌, arith, Bool-cases, ==→eq, inl, inr,
}
use linux_device_driver.Prelude.Bits.{test_bit}
use linux_device_driver.Pcie.State.{Bus}
use linux_device_driver.Pcie.Machine.{write}
use linux_device_driver.Pcie.Signals.{one_if}
use linux_device_driver.Msi.Device.{
  Machine, Stage, idle, entered, acked, is_idle, is_acked, Act, tick, raise, enter, ack, account,
  bit_of, access, act, run, reg_int_status,
}
use linux_device_driver.Msi.Bits.{
  bit_set, raised_bit, clock_bit, counted_lem, test_bit-pow, test_bit-pow_other,
}
use linux_device_driver.Msi.Counted.{cleared_own, cleared_other, ==→ne}

-- Event `n` was counted more than `k` times, or `k` times with its bit set or its handler about to count.
abbrev pub beyond : {Ram : Type 0} → ℕ → ℕ → Machine Ram → Bool
beyond k n m =
    ltb k (m.msi.count n) || leb k (m.msi.count n) && (bit_set n m.ps || is_acked (m.stage n))

pub not_both : (s : Stage) → (is_idle s && is_acked s) ≡ false
not_both idle = refl
not_both entered = refl
not_both acked = refl

module _ (k n : ℕ) (h : n < 3) {Ram : Type 0} (bus : Bus Ram) where
  raise-beyond :
      (val now : ℕ) (m : Machine Ram)
      → beyond k n m ≡ true
      → beyond k n (act bus (raise val now) m) ≡ true
  unfolding act access
  raise-beyond val now m b = ground (arith, raised_bit n h bus val now m.ps m.ram)

  tick-beyond :
      (now : ℕ) (m : Machine Ram) → beyond k n m ≡ true → beyond k n (act bus (tick now) m) ≡ true
  unfolding act access
  tick-beyond now m b = split (Bool-cases (bit_set n m.ps))
    where
      split :
          (bit_set n m.ps ≡ true) ⊎ (bit_set n m.ps ≡ false)
          → beyond k n (act bus (tick now) m) ≡ true
      split (inl e) = ground (arith, clock_bit n h bus now m.ps m.ram e)
      split (inr e) = ground arith

  enter-beyond :
      (i : ℕ) (m : Machine Ram) → beyond k n m ≡ true → beyond k n (act bus (enter i) m) ≡ true
  unfolding act
  enter-beyond i m b = split (Bool-cases (n == i))
    where
      split : ((n == i) ≡ true) ⊎ ((n == i) ≡ false) → beyond k n (act bus (enter i) m) ≡ true
      split (inl e) =
          let same = ap m.stage (==→eq n i e) in
          ground (arith, ap is_idle same, ap is_acked same, not_both (m.stage i))
      split (inr e) = ground arith

  ack-beyond :
      (i now : ℕ) (m : Machine Ram)
      → beyond k n m ≡ true
      → beyond k n (act bus (ack i now) m) ≡ true
  unfolding act
  ack-beyond i now m b = split (Bool-cases (n == i))
    where
      split : ((n == i) ≡ true) ⊎ ((n == i) ≡ false) → beyond k n (act bus (ack i now) m) ≡ true
      split (inl e) =
          let same = ap m.stage (==→eq n i e) in
          let gone : bit_set n (access bus (write reg_int_status (bit_of i) now) m).ps ≡ false =
            cleared_own n h bus i now m e in
          ground arith
      split (inr e) = let gone = cleared_other n h bus i now m e in ground arith

  account-beyond :
      (i : ℕ) (m : Machine Ram) → beyond k n m ≡ true → beyond k n (act bus (account i) m) ≡ true
  unfolding act
  account-beyond i m b = split (Bool-cases (n == i))
    where
      split : ((n == i) ≡ true) ⊎ ((n == i) ≡ false) → beyond k n (act bus (account i) m) ≡ true
      split (inl e) =
          let bit = ap (λ (j : ℕ). test_bit (2 ^ j) n) (sym (==→eq n i e)) ∙ test_bit-pow n in
          let same = ap m.stage (==→eq n i e) in
          let up =
            counted_lem n (bit_of i) m.msi h ∙ ap (λ (b : Bool). m.msi.count n + one_if b) bit in
          ground (arith, ap is_acked same)
      split (inr e) =
          let bit = test_bit-pow_other i n (==→ne n i e) in
          let up =
            counted_lem n (bit_of i) m.msi h ∙ ap (λ (b : Bool). m.msi.count n + one_if b) bit in
          ground arith

  act-beyond : (a : Act) (m : Machine Ram) → beyond k n m ≡ true → beyond k n (act bus a m) ≡ true
  act-beyond (tick now) m b = tick-beyond now m b
  act-beyond (raise val now) m b = raise-beyond val now m b
  act-beyond (enter i) m b = enter-beyond i m b
  act-beyond (ack i now) m b = ack-beyond i now m b
  act-beyond (account i) m b = account-beyond i m b

  pub run-beyond :
      (acts : List Act) (m : Machine Ram) → beyond k n m ≡ true → beyond k n (run bus acts m) ≡ true
  unfolding run
  run-beyond [] m b = b
  run-beyond (a ∷ acts) m b = run-beyond acts (act bus a m) (act-beyond a m b)
