-- ===== src/Msi/Events.antt =====
-- examples/26_msi_interrupt/main.c with tools/qemu/hw/ldd/pcie.c: every event is counted after it happened.
use linux_device_driver.Prelude.{
  ℕ, ◌<◌, ◌≡◌, refl, ◌∙◌, ap, ap₂, Bool, true, false, not, ◌&&◌, List, [], ◌∷◌, ◌==◌, if◌then◌else◌,
  arith, ltb→lt,
}
use linux_device_driver.Prelude.Bits.{test_bit}
use linux_device_driver.Pcie.State.{Pcie, Bus, reg_at}
use linux_device_driver.Pcie.Irq.{update_irq, pending}
use linux_device_driver.Pcie.Bar0.{bar0_write, write_reg}
use linux_device_driver.Pcie.Machine.{write, step}
use linux_device_driver.Pcie.Invariant.{IsValid, step-IsValid}
use linux_device_driver.Pcie.Signals.{messages}
use linux_device_driver.Pcie.Edges.{step-Signals}
use linux_device_driver.Msi.Device.{
  Machine, Stage, idle, entered, acked, is_idle, is_entered, is_acked, Act, raise, enter, ack,
  account, bit_of, refused, access, act, run, probe, reg_int_status, reg_int_mask,
}
use linux_device_driver.Msi.Bits.{
  bit_set, IsOpen, status-IsOpen, pending_bit, cleared_bit, test_bit-seven, raised_bit,
}
use linux_device_driver.Msi.Counted.{told, act-told, act-IsOpen, cleared_own, and_false}
use linux_device_driver.Msi.Beyond.{beyond, run-beyond, not_both}

not_entered : (s : Stage) → (is_idle s && is_entered s) ≡ false
not_entered idle = refl
not_entered entered = refl
not_entered acked = refl

abbrev after_ack : Stage → Stage
after_ack s = if is_entered s then acked else s

abbrev after_account : Stage → Stage
after_account s = if is_acked s then idle else s

ended : (s : Stage) → after_account (after_ack s) ≡ idle
ended idle = refl
ended entered = refl
ended acked = refl

equal : (n : ℕ) → (n == n) ≡ true
equal n = ground arith

mask_keeps :
    {Ram : Type 0} (bus : Bus Ram) (val now : ℕ) (ps : Pcie) (ram : Ram) (n : ℕ)
    → bit_set n (step bus ps ram (write reg_int_mask val now)).0 ≡ bit_set n ps
unfolding step bar0_write write_reg reg_at update_irq
mask_keeps bus val now ps ram n = refl

-- Nothing of vector `n` waits or runs.
abbrev pub quiet : {Ram : Type 0} → ℕ → Machine Ram → Bool
quiet n m = not (m.waiting n) && is_idle (m.stage n)

-- The handler of vector `n` goes on to its end, and a message that waits is handled.
abbrev pub serve : ℕ → ℕ → List Act
serve n now = ack n now ∷ account n ∷ enter n ∷ ack n now ∷ account n ∷ []

module _ (n : ℕ) (h : n < 3) {Ram : Type 0} (bus : Bus Ram) where
  run-told :
      (acts : List Act) (m : Machine Ram)
      → IsOpen m.ps
      → told n m ≡ true
      → IsOpen (run bus acts m).ps × (told n (run bus acts m) ≡ true)
  unfolding run
  run-told [] m o t = (o, t)
  run-told (a ∷ acts) m o t =
      run-told acts (act bus a m) (act-IsOpen bus a m o) (act-told n h bus a m o t)

  -- After the probe nothing is pending.
  probe-IsOpen :
      (now : ℕ) (ps : Pcie) (ram : Ram)
      → IsValid ps
      → ps.msix_enabled ≡ true
      → IsOpen (probe bus now ps ram).ps
  unfolding probe step bar0_write write_reg reg_at update_irq
  probe-IsOpen now ps ram v m =
      let e1 = write reg_int_mask 0 now in
      let e2 = write reg_int_status 7 now in
      let s1 = step bus ps ram e1 in
      let s2 = step bus s1.0 s1.1 e2 in
      record {
        valid =
            step-IsValid bus s2.0 s2.1 (write reg_int_mask 7 now)
              (step-IsValid bus s1.0 s1.1 e2 (step-IsValid bus ps ram e1 v));
        msix = m;
        unmasked = refl;
      }

  raise_sets :
      (val now : ℕ) (m : Machine Ram)
      → refused val ≡ false
      → test_bit val n ≡ true
      → beyond (m.msi.count n) n (act bus (raise val now) m) ≡ true
  unfolding act access
  raise_sets val now m ok bit = ground (arith, raised_bit n h bus val now m.ps m.ram)

  probe-told : (now : ℕ) (ps : Pcie) (ram : Ram) → told n (probe bus now ps ram) ≡ true
  unfolding probe
  probe-told now ps ram =
      let s1 = step bus ps ram (write reg_int_mask 0 now) in
      let s2 = step bus s1.0 s1.1 (write reg_int_status 7 now) in
      let clear : bit_set n (probe bus now ps ram).ps ≡ false =
        mask_keeps bus 7 now s2.0 s2.1 n
        ∙ cleared_bit n h bus 7 now s1.0 s1.1
        ∙ ap (λ (b : Bool). bit_set n s1.0 && not b) (test_bit-seven n h)
        ∙ and_false (bit_set n s1.0) in
      ground arith

  last_count :
      (k : ℕ) (m : Machine Ram)
      → told n m ≡ true
      → beyond k n m ≡ true
      → quiet n m ≡ true
      → k < m.msi.count n
  last_count k m t b q =
      ltb→lt k (m.msi.count n) (ground (arith, not_both (m.stage n), not_entered (m.stage n)))

  own_access :
      (now : ℕ) (m : Machine Ram)
      → IsOpen m.ps
      → (access bus (write reg_int_status (bit_of n) now) m).waiting n ≡ m.waiting n
  unfolding access
  own_access now m o =
      let e = write reg_int_status (bit_of n) now in
      let ps' = (step bus m.ps m.ram e).0 in
      let o' = status-IsOpen bus (bit_of n) now m.ps m.ram o in
      let gone : test_bit (pending ps') n ≡ false =
        pending_bit n h ps' o'.unmasked ∙ cleared_own n h bus n now m (equal n) in
      let sent : messages n ps'.effects ≡ messages n m.ps.effects =
        step-Signals n h bus m.ps m.ram e o.msix o.valid ∙ ground arith in
      ground arith

  ack_own :
      (now : ℕ) (m : Machine Ram)
      → IsOpen m.ps
      → (let m' = act bus (ack n now) m in
          (m'.stage n ≡ after_ack (m.stage n)) × (m'.waiting n ≡ m.waiting n))
  unfolding act
  ack_own now m o = ground (arith, equal n, own_access now m o)

  account_own :
      (m : Machine Ram)
      → (let m' = act bus (account n) m in
          (m'.stage n ≡ after_account (m.stage n)) × (m'.waiting n ≡ m.waiting n))
  unfolding act
  account_own m = ground (arith, equal n)

  -- The handler of vector `n` goes on to its end.
  finish_lem :
      (now : ℕ) (m : Machine Ram)
      → IsOpen m.ps
      → (let m' = act bus (account n) (act bus (ack n now) m) in
          (m'.stage n ≡ idle) × (m'.waiting n ≡ m.waiting n))
  finish_lem now m o =
      let f = ack_own now m o in
      let g = account_own (act bus (ack n now) m) in
      (g.0 ∙ ap after_account f.0 ∙ ended (m.stage n), g.1 ∙ f.1)

  enter_lem : (m : Machine Ram) → m.stage n ≡ idle → (act bus (enter n) m).waiting n ≡ false
  unfolding act
  enter_lem m i = ground (arith, equal n)

  serve_quiet : (now : ℕ) (m : Machine Ram) → IsOpen m.ps → quiet n (run bus (serve n now) m) ≡ true
  unfolding run
  serve_quiet now m o =
      let m1 = act bus (ack n now) m in
      let m2 = act bus (account n) m1 in
      let m3 = act bus (enter n) m2 in
      let o2 = act-IsOpen bus (account n) m1 (act-IsOpen bus (ack n now) m o) in
      let o3 = act-IsOpen bus (enter n) m2 o2 in
      let f = finish_lem now m o in
      let g = finish_lem now m3 o3 in
      ap₂ (λ (w : Bool) (s : Stage). not w && is_idle s) (g.1 ∙ enter_lem m2 f.0) g.0

  -- From the probe on, in whatever order the clock goes on, numbers are written to `raise` and handlers run,
  -- with a number written in between that the driver accepts and that has the bit of event `n`: once no
  -- message of vector `n` waits and its handler does not run, event `n` was counted more often than when
  -- the number was written. And wherever the machine is, that comes about when the handler of the
  -- vector goes on to its end and is then run for a message that waits. The device has MSI-X on.
  pub run-raise_counted :
      (before after : List Act) (val now start : ℕ) (ps : Pcie) (ram : Ram)
      → IsValid ps
      → ps.msix_enabled ≡ true
      → refused val ≡ false
      → test_bit val n ≡ true
      → (let m = run bus before (probe bus start ps ram) in
          let m' = run bus after (act bus (raise val now) m) in
          (quiet n m' ≡ true → m.msi.count n < m'.msi.count n)
          × ((later : ℕ) → quiet n (run bus (serve n later) m') ≡ true))
  run-raise_counted before after val now start ps ram v msix ok bit =
      let m = run bus before (probe bus start ps ram) in
      let m0 = act bus (raise val now) m in
      let (o, t) =
        run-told before (probe bus start ps ram) (probe-IsOpen start ps ram v msix)
          (probe-told start ps ram) in
      let (o', t') =
        run-told after m0 (act-IsOpen bus (raise val now) m o)
          (act-told n h bus (raise val now) m o t) in
      let b = run-beyond (m.msi.count n) n h bus after m0 (raise_sets val now m ok bit) in
      (
        λ q. last_count (m.msi.count n) (run bus after m0) t' b q,
        λ later. serve_quiet later (run bus after m0) o',
      )
