-- ===== src/Dma/Timeout.antt =====
-- examples/27_dma/main.c: a transfer whose completion does not come in time.
use linux_device_driver.Prelude.{
  ℕ, ◌%◌, ◌^◌, ◌<◌, ◌≡◌, refl, sym, ◌∙◌, ap, true, false, Option, none, some, length, arith, subst,
}
use linux_device_driver.Pcie.State.{Pcie, reg_at, ldd_mem_size, zero_regs}
use linux_device_driver.Pcie.Irq.{update_irq, reset}
use linux_device_driver.Pcie.Transfer.{start}
use linux_device_driver.Pcie.Bar0.{bar0_write, write_reg}
use linux_device_driver.Pcie.Invariant.{start-IsValid}
use linux_device_driver.Pcie.Checks.{IsRealizable}
use linux_device_driver.Dma.Device.{
  Host, Machine, Luck, Ret, etimedout, Dir, to_device, from_device, launch, encode_desc, map_single,
  unmapped, wait, settle, dma_xfer, dma_xfer_at, iowrites,
}
use linux_device_driver.Dma.Setup.{set_up, ready_to_start, launch_writes}
use linux_device_driver.Dma.Transfers.{
  at_start-IsValid, at_start-SameDevice, same-IsRealizable, SameDevice-trans,
}
use linux_device_driver.Dma.Finished.{IsReady, SameDevice, started_lem}

-- The device after the reset and with the interrupts unmasked again.
abbrev restarted : Pcie → Pcie
restarted ps = update_irq (record (reset ps) { regs = record zero_regs { int_mask = 3 } })

restarted-IsReady :
    (ps : Pcie)
    → length ps.mem ≡ ldd_mem_size
    → IsRealizable ps
    → ps.master ≡ true
    → IsReady (restarted ps)
unfolding update_irq reset
restarted-IsReady ps size z m = ground arith

module _ {Ram : Type 0} (host : Host Ram) where
  settle_late :
      (now : ℕ) (m : Machine Ram)
      → m.dma.completed ≡ false
      → settle host now m ≡ (etimedout, record m { ps = restarted m.ps })
  unfolding settle iowrites bar0_write write_reg reg_at reset
  settle_late now m late = ground arith

  launch_incomplete :
      (now pos len : ℕ) (dir : Dir) (addr : ℕ) (m : Machine Ram)
      → (launch host now pos len dir addr m).dma.completed ≡ false
  unfolding launch
  launch_incomplete now pos len dir addr m = refl

  launched_lem :
      (now pos len : ℕ) (dir : Dir) (addr : ℕ) (m : Machine Ram)
      → IsReady m.ps
      → m.dma.desc_bus < 2 ^ 64
      → m.dma.desc_bus % 16 ≡ 0
      → pos < 2 ^ 32
      → (let s = (launch host now pos len dir addr m).ps in
          (length s.mem ≡ ldd_mem_size) × SameDevice m.ps s)
  unfolding launch
  launched_lem now pos len dir addr m r a b c =
      let ps = ready_to_start dir m.dma.xor (set_up m.dma.desc_bus pos m.ps) in
      let ram = host.store m.ram m.dma.desc_bus (encode_desc addr len) in
      let v = at_start-IsValid dir m.dma.xor m.dma.desc_bus pos m.ps r.valid a b in
      subst (λ (s : Pcie × Ram). (length s.0.mem ≡ ldd_mem_size) × SameDevice m.ps s.0)
        (sym (launch_writes host now m.dma.desc_bus pos dir m.dma.xor m.ps ram r.idle a b c))
        (
          (start-IsValid host.bus now ps ram v).size,
          SameDevice-trans m.ps ps (start host.bus now ps ram).0
              (at_start-SameDevice dir m.dma.xor m.dma.desc_bus pos m.ps)
              (started_lem host.bus now ps ram).0,
        )

  restarted-SameDevice : (ps : Pcie) → SameDevice ps (restarted ps)
  unfolding update_irq reset
  restarted-SameDevice ps = ground arith

  timer_off : (ps : Pcie) → (restarted ps).timer ≡ none
  unfolding update_irq reset
  timer_off ps = refl

  abbrev Late : Machine Ram → Ret × Machine Ram → Type 0
  Late m r = (r.0 ≡ etimedout) × IsReady r.1.ps × (r.1.ps.timer ≡ none) × SameDevice m.ps r.1.ps

  unmapped-Late :
      (dir : Dir) (addr len : ℕ) (m m2 : Machine Ram)
      → IsReady m2.ps
      → SameDevice m.ps m2.ps
      → m2.ps.timer ≡ none
      → Late m (unmapped host dir addr len (etimedout, m2))
  unfolding unmapped
  unmapped-Late to_device addr len m m2 r s t = (refl, r, t, s)
  unmapped-Late from_device addr len m m2 r s t = (refl, r, t, s)

  dma_xfer-Late :
      (dir : Dir) (m : Machine Ram) (luck : Luck) (pos len addr : ℕ)
      → luck.mapped ≡ some addr
      → luck.reached ≡ none
      → (let s = (launch host luck.now pos len dir addr (map_single host dir addr len m)).ps in
          (length s.mem ≡ ldd_mem_size) × SameDevice m.ps s)
      → IsReady m.ps
      → Late m (dma_xfer host luck pos len dir m)
  unfolding dma_xfer dma_xfer_at wait
  dma_xfer-Late dir m luck pos len addr mapped reached (size, same) ready =
      let m0 = map_single host dir addr len m in
      let m1 = launch host luck.now pos len dir addr m0 in
      let m2 : Machine Ram = record m1 { ps = restarted m1.ps } in
      let e =
        ap (λ (o : Option ℕ). settle host luck.now (wait host o m1)) reached
        ∙ settle_late luck.now m1 (launch_incomplete luck.now pos len dir addr m0) in
      let ready' =
        restarted-IsReady m1.ps size (same-IsRealizable m.ps m1.ps same ready.realizable)
          (same.master_same ∙ ready.bus_master) in
      let same' = SameDevice-trans m.ps m1.ps m2.ps same (restarted-SameDevice m1.ps) in
      subst (Late m)
        (sym (
          ap (λ (o : Option ℕ). dma_xfer_at host o luck pos len dir m) mapped
          ∙ ap (unmapped host dir addr len) e))
        (unmapped-Late dir addr len m m2 ready' same' (timer_off m1.ps))

  -- A device that is ready when the transfer begins, and never done in the time of the wait, because its
  -- clock does not go on: the call returns ETIMEDOUT, and after the reset the device is ready for the next
  -- transfer, with no transfer pending, no interrupt pending and the interrupts unmasked.
  pub dma_xfer_late :
      (m : Machine Ram) (luck : Luck) (pos len addr : ℕ) (dir : Dir)
      → IsReady m.ps
      → m.dma.desc_bus < 2 ^ 64
      → m.dma.desc_bus % 16 ≡ 0
      → pos < 2 ^ 32
      → luck.mapped ≡ some addr
      → luck.reached ≡ none
      → (let r = dma_xfer host luck pos len dir m in
          (r.0 ≡ etimedout) × IsReady r.1.ps × (r.1.ps.timer ≡ none) × SameDevice m.ps r.1.ps)
  dma_xfer_late m luck pos len addr to_device ready word aligned p mapped reached =
      dma_xfer-Late to_device m luck pos len addr mapped reached
        (launched_lem luck.now pos len to_device addr (map_single host to_device addr len m) ready
          word aligned p)
        ready
  dma_xfer_late m luck pos len addr from_device ready word aligned p mapped reached =
      dma_xfer-Late from_device m luck pos len addr mapped reached
        (launched_lem luck.now pos len from_device addr m ready word aligned p) ready
