-- ===== src/Msi/Bits.antt =====
-- tools/qemu/hw/ldd/pcie.c as the driver of examples/26_msi_interrupt uses it: the bits of INT_STATUS.
use linux_device_driver.Prelude.{
  ℕ, zero, suc, ◌+◌, ◌^◌, ◌/◌, ◌%◌, ◌<◌, ◌≡◌, ◌≢◌, refl, ◌∙◌, ap, Bool, true, false, not, ◌&&◌,
  ◌||◌, Option, none, some, leb, ◌==◌, bit_and, arith, if_cases,
}
use native.Mathlib.Nat.{pow-suc}
use linux_device_driver.Prelude.Bits.{
  test_bit, bit_not, test_bit-bit_and, test_bit-bit_or, test_bit-bit_not, test_bit-zero,
}
use linux_device_driver.Pcie.State.{Pcie, Bus, reg_at}
use linux_device_driver.Pcie.Irq.{pending, update_irq}
use linux_device_driver.Pcie.Transfer.{run_timer, expire, complete}
use linux_device_driver.Pcie.Bar0.{bar0_write, write_reg}
use linux_device_driver.Pcie.Machine.{write, clock, step}
use linux_device_driver.Pcie.Invariant.{IsValid, step-IsValid}
use linux_device_driver.Pcie.Signals.{one_if}
use linux_device_driver.Msi.Device.{Msi, count_from, count_events, reg_int_status, reg_int_raise}

half_pow : (n : ℕ) → 2 ^ suc n / 2 ≡ 2 ^ n
half_pow n = omega (arith, pow-suc 2 n)

-- The bits of BIT(m).
pub test_bit-pow : (n : ℕ) → test_bit (2 ^ n) n ≡ true
unfolding test_bit
test_bit-pow zero = refl
test_bit-pow (suc n) = ap (λ v. test_bit v n) (half_pow n) ∙ test_bit-pow n

pub test_bit-pow_other : (m n : ℕ) → m ≢ n → test_bit (2 ^ m) n ≡ false
unfolding test_bit
test_bit-pow_other zero zero h = absurd (h refl)
test_bit-pow_other zero (suc n) h = test_bit-zero n
test_bit-pow_other (suc m) zero h =
    let even : 2 ^ suc m % 2 ≡ 0 = omega (arith, pow-suc 2 m) in ap (λ k. k == 1) even
test_bit-pow_other (suc m) (suc n) h =
    ap (λ v. test_bit v n) (half_pow m) ∙ test_bit-pow_other m n (λ e. h (ap suc e))

pub test_bit-seven : (n : ℕ) → n < 3 → test_bit 7 n ≡ true
unfolding test_bit
test_bit-seven zero h = refl
test_bit-seven (suc zero) h = refl
test_bit-seven (suc (suc zero)) h = refl
test_bit-seven (suc (suc (suc n))) h = absurd (omega arith)

-- The count of event `n` goes up when its bit is in the status, and else stays.
pub counted_lem :
    (n status : ℕ) (msi : Msi)
    → n < 3
    → (count_events status msi).count n ≡ msi.count n + one_if (test_bit status n)
unfolding count_events count_from
counted_lem zero status msi h = ground arith
counted_lem (suc zero) status msi h = ground arith
counted_lem (suc (suc zero)) status msi h = ground arith
counted_lem (suc (suc (suc n))) status msi h = absurd (omega arith)

-- The bit of event `n` in INT_STATUS.
abbrev pub bit_set : ℕ → Pcie → Bool
bit_set n ps = test_bit ps.regs.int_status n

-- The device as the driver uses it.
pub record IsOpen (ps : Pcie) : Type 0 where
  pub valid : IsValid ps
  pub msix : ps.msix_enabled ≡ true
  pub unmasked : ps.regs.int_mask ≡ 7

pub and_true : (b : Bool) → (b && true) ≡ b
and_true true = refl
and_true false = refl

module _ (n : ℕ) (h : n < 3) where
  pub pending_bit : (ps : Pcie) → ps.regs.int_mask ≡ 7 → test_bit (pending ps) n ≡ bit_set n ps
  unfolding pending
  pending_bit ps mask =
      test_bit-bit_and n ps.regs.int_status ps.regs.int_mask
      ∙ ap (λ v. bit_set n ps && test_bit v n) mask
      ∙ ap (λ b. bit_set n ps && b) (test_bit-seven n h)
      ∙ and_true (bit_set n ps)

  module _ {Ram : Type 0} (bus : Bus Ram) where
    pub raised_bit :
        (val now : ℕ) (ps : Pcie) (ram : Ram)
        → bit_set n (step bus ps ram (write reg_int_raise val now)).0
          ≡ (bit_set n ps || test_bit val n)
    unfolding step bar0_write write_reg reg_at update_irq
    raised_bit val now ps ram =
        test_bit-bit_or n ps.regs.int_status (bit_and val 7)
        ∙ ap (λ b. bit_set n ps || b)
            (test_bit-bit_and n val 7
              ∙ ap (λ b. test_bit val n && b) (test_bit-seven n h)
              ∙ and_true (test_bit val n))

    pub cleared_bit :
        (val now : ℕ) (ps : Pcie) (ram : Ram)
        → bit_set n (step bus ps ram (write reg_int_status val now)).0
          ≡ (bit_set n ps && not (test_bit val n))
    unfolding step bar0_write write_reg reg_at update_irq
    cleared_bit val now ps ram =
        test_bit-bit_and n ps.regs.int_status (bit_not 64 val)
        ∙ ap (λ b. bit_set n ps && b) (test_bit-bit_not 64 n val (omega arith))

    complete_bit : (ps : Pcie) → bit_set n ps ≡ true → bit_set n (complete ps) ≡ true
    unfolding complete update_irq
    complete_bit ps set =
        if_cases (λ (b : Pcie). bit_set n b ≡ true) (ps.regs.result == 0)
          (λ _. test_bit-bit_or n ps.regs.int_status 1 ∙ ap (λ b. b || test_bit 1 n) set)
          λ _. test_bit-bit_or n ps.regs.int_status 2 ∙ ap (λ b. b || test_bit 2 n) set

    expire_bit :
        (t : Option ℕ) (now : ℕ) (ps : Pcie)
        → bit_set n ps ≡ true
        → bit_set n (expire t now ps) ≡ true
    unfolding expire
    expire_bit none now ps set = set
    expire_bit (some d) now ps set =
        if_cases (λ (b : Pcie). bit_set n b ≡ true) (leb d now)
          (λ _. complete_bit (record ps { timer = none }) set) λ _. set

    pub clock_bit :
        (now : ℕ) (ps : Pcie) (ram : Ram)
        → bit_set n ps ≡ true
        → bit_set n (step bus ps ram (clock now)).0 ≡ true
    unfolding step run_timer
    clock_bit now ps ram set = expire_bit ps.timer now ps set

module _ {Ram : Type 0} (bus : Bus Ram) where
  pub status-IsOpen :
      (val now : ℕ) (ps : Pcie) (ram : Ram)
      → IsOpen ps
      → IsOpen (step bus ps ram (write reg_int_status val now)).0
  unfolding step bar0_write write_reg reg_at update_irq
  status-IsOpen val now ps ram o = record {
    valid = unfold step in step-IsValid bus ps ram (write reg_int_status val now) o.valid;
    msix = o.msix;
    unmasked = o.unmasked;
  }

  pub raise-IsOpen :
      (val now : ℕ) (ps : Pcie) (ram : Ram)
      → IsOpen ps
      → IsOpen (step bus ps ram (write reg_int_raise val now)).0
  unfolding step bar0_write write_reg reg_at update_irq
  raise-IsOpen val now ps ram o = record {
    valid = step-IsValid bus ps ram (write reg_int_raise val now) o.valid;
    msix = o.msix;
    unmasked = o.unmasked;
  }

  expire_same :
      (t : Option ℕ) (now : ℕ) (ps : Pcie)
      → ((expire t now ps).msix_enabled ≡ ps.msix_enabled)
        × ((expire t now ps).regs.int_mask ≡ ps.regs.int_mask)
  unfolding expire complete update_irq
  expire_same none now ps = (refl, refl)
  expire_same (some d) now ps = ground arith

  pub clock-IsOpen :
      (now : ℕ) (ps : Pcie) (ram : Ram) → IsOpen ps → IsOpen (step bus ps ram (clock now)).0
  unfolding step run_timer
  clock-IsOpen now ps ram o =
      let s = expire_same ps.timer now ps in
      record {
        valid = step-IsValid bus ps ram (clock now) o.valid;
        msix = s.0 ∙ o.msix;
        unmasked = s.1 ∙ o.unmasked;
      }
