-- ===== src/Pcie/Limits.antt =====
-- tools/qemu/hw/ldd/pcie.c: the limits that `ldd_pcie_realize` checks, and the life of a device.
use linux_device_driver.Prelude.{
  ℕ, ◌≤◌, ◌≡◌, refl, ◌∙◌, subst, Bool, Option, none, some, List, [], ◌∷◌, arith, ◌==◌, if_cases,
  bit_and, Option-cases, inl, inr,
}
use linux_device_driver.Pcie.State.{Pcie, Bus, Reg, reg_dma_ctrl, reg_at}
use linux_device_driver.Pcie.Irq.{update_irq, reset}
use linux_device_driver.Pcie.Transfer.{start, complete, expire, run_timer}
use linux_device_driver.Pcie.Frame.{transfer-Frame}
use linux_device_driver.Pcie.Bar0.{busy, write_reg, bar0_write}
use linux_device_driver.Pcie.Machine.{
  Event, write, clock, qdev_reset, write_config, step, run, realized, realize,
}
use linux_device_driver.Pcie.Invariant.{IsValid, run-IsValid, realized-IsValid}
use linux_device_driver.Pcie.Checks.{IsRealizable}

realize_cases :
    (setup wide : Bool) (seg descs latency : ℕ) {ps : Pcie}
    → realize setup wide seg descs latency ≡ some ps
    → (512 ≤ seg)
      × (seg ≤ 0x10_0000)
      × (1 ≤ descs)
      × (descs ≤ 4096)
      × (realized wide seg descs latency ≡ ps)
unfolding realize
realize_cases setup wide seg descs latency e = ground arith

realize_lem :
    (setup wide : Bool) (seg descs latency : ℕ) {ps : Pcie}
    → realize setup wide seg descs latency ≡ some ps
    → IsRealizable ps × IsValid ps
unfolding realized
realize_lem setup wide seg descs latency e =
    let (sl, sh, dl, dh, same) = realize_cases setup wide seg descs latency e in
    subst (λ p. IsRealizable p × IsValid p) same
      (
        record { seg_low = sl; seg_high = sh; desc_low = dl; desc_high = dh },
        realized-IsValid wide seg descs latency,
      )

-- The limits come from the command line and stay.
record SameLimits (a b : Pcie) : Type 0 where
  seg_same : b.max_seg ≡ a.max_seg
  desc_same : b.max_desc ≡ a.max_desc

SameLimits-refl : (a : Pcie) → SameLimits a a
SameLimits-refl a = record { seg_same = refl; desc_same = refl }

expire-SameLimits : (o : Option ℕ) (t : ℕ) (ps : Pcie) → SameLimits ps (expire o t ps)
unfolding expire complete update_irq
expire-SameLimits none t ps = SameLimits-refl ps
expire-SameLimits (some d) t ps = ground arith

module _ {Ram : Type 0} (bus : Bus Ram) where
  start-SameLimits : (now : ℕ) (ps : Pcie) (ram : Ram) → SameLimits ps (start bus now ps ram).0
  unfolding start
  start-SameLimits now ps ram =
      let r = ps.regs in
      let f =
        transfer-Frame bus
          (record ps { regs = record r { status = 1; xfer_bytes = 0; err_desc = 0 } }) ram in
      record { seg_same = f.max_seg_same; desc_same = f.max_desc_same }

  write_reg-SameLimits :
      (r : Reg) (val now : ℕ) (ps : Pcie) (ram : Ram)
      → SameLimits ps (write_reg bus r val now ps ram).0
  unfolding write_reg update_irq reset
  write_reg-SameLimits reg_dma_ctrl val now ps ram =
      let r = ps.regs in
      let ps' = record ps { regs = record r { dma_ctrl = bit_and val 1 } } in
      let f = start-SameLimits now ps' ram in
      if_cases (λ (t : Pcie × Ram). SameLimits ps t.0) (busy ps) (λ _. SameLimits-refl ps)
        λ _.
          if_cases (λ (t : Pcie × Ram). SameLimits ps t.0) (bit_and val 2 == 0)
            (λ _. record { seg_same = refl; desc_same = refl })
            λ _. record { seg_same = f.seg_same; desc_same = f.desc_same }
  write_reg-SameLimits _ val now ps ram = ground arith

  step-SameLimits : (ps : Pcie) (ram : Ram) (e : Event) → SameLimits ps (step bus ps ram e).0
  unfolding step bar0_write reset
  step-SameLimits ps ram (write a val now) = elim (Option-cases (reg_at a)) [
    | inl e ↦ rw (e, bar0_write) (SameLimits-refl ps)
    | inr (r, e) ↦ rw (e, bar0_write) (write_reg-SameLimits r val now ps ram)
  ]
  step-SameLimits ps ram (clock now) = unfold run_timer in expire-SameLimits ps.timer now ps
  step-SameLimits ps ram qdev_reset = record { seg_same = refl; desc_same = refl }
  step-SameLimits ps ram (write_config msix msi bus_master flr) = ground arith

  run-SameLimits : (ps : Pcie) (ram : Ram) (es : List Event) → SameLimits ps (run bus ps ram es).0
  unfolding run
  run-SameLimits ps ram [] = SameLimits-refl ps
  run-SameLimits ps ram (e ∷ es) =
      let (ps', ram') = step bus ps ram e in
      let a = step-SameLimits ps ram e in
      let b = run-SameLimits ps' ram' es in
      record { seg_same = b.seg_same ∙ a.seg_same; desc_same = b.desc_same ∙ a.desc_same }

  -- Once realized, the device stays within its limits and valid through any accesses, clock ticks,
  -- resets and configuration writes, in any order and on any bus.
  pub run-realize :
      (setup wide : Bool) (seg descs latency : ℕ) (ram : Ram) (es : List Event) {ps : Pcie}
      → realize setup wide seg descs latency ≡ some ps
      → let ps' = (run bus ps ram es).0 in IsRealizable ps' × IsValid ps'
  run-realize setup wide seg descs latency ram es {ps} e =
      let (limits, ok) = realize_lem setup wide seg descs latency e in
      let same = run-SameLimits ps ram es in
      (
        record {
          seg_low = rw same.seg_same limits.seg_low;
          seg_high = rw same.seg_same limits.seg_high;
          desc_low = rw same.desc_same limits.desc_low;
          desc_high = rw same.desc_same limits.desc_high;
        },
        run-IsValid bus ps ram es ok,
      )
