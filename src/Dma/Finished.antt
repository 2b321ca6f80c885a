-- ===== src/Dma/Finished.antt =====
-- examples/27_dma/main.c with tools/qemu/hw/ldd/pcie.c: the device between two transfers, and the end of
-- one: timer, interrupt, handler and completion.
use linux_device_driver.Prelude.{
  ℕ, ◌+◌, ◌≤◌, ◌≡◌, refl, ◌∙◌, ap, true, false, none, some, ◌==◌, if◌then◌else◌, bit_and, arith,
}
use linux_device_driver.Pcie.State.{Pcie, Bus, reg_at}
use linux_device_driver.Pcie.Irq.{update_irq, pending}
use linux_device_driver.Pcie.Transfer.{start, complete, expire, run_timer}
use linux_device_driver.Pcie.Bar0.{busy, bar0_read, read_reg, bar0_write, write_reg}
use linux_device_driver.Pcie.Frame.{transfer-Frame}
use linux_device_driver.Pcie.Invariant.{IsValid}
use linux_device_driver.Pcie.Checks.{IsRealizable}
use linux_device_driver.Pcie.Engine.{launched, expire_late}
use linux_device_driver.Dma.Device.{Host, Machine, dma_handler, wait}
use linux_device_driver.Prelude.Bits.{bit_not}

-- The device as the driver leaves it between two transfers.
pub record IsReady (ps : Pcie) : Type 0 where
  pub valid : IsValid ps
  pub realizable : IsRealizable ps
  pub bus_master : ps.master ≡ true
  pub idle : busy ps ≡ false
  pub quiet : ps.regs.int_status ≡ 0
  pub unmasked : ps.regs.int_mask ≡ 3

-- What a transfer never changes.
pub record SameDevice (a b : Pcie) : Type 0 where
  pub dma64_same : b.dma64 ≡ a.dma64
  pub max_seg_same : b.max_seg ≡ a.max_seg
  pub max_desc_same : b.max_desc ≡ a.max_desc
  pub latency_same : b.latency_us ≡ a.latency_us
  pub master_same : b.master ≡ a.master

-- The device after its completion has raised the interrupt, and after the handler has cleared it.
abbrev pub raised : Pcie → Pcie
raised ps =
    update_irq (record ps { timer = none; regs = record ps.regs { status = 2; int_status = 1 } })

abbrev pub settled : Pcie → Pcie
settled ps = update_irq (record (raised ps) { regs = record (raised ps).regs { int_status = 0 } })

module _ {Ram : Type 0} (bus : Bus Ram) (now : ℕ) (ps : Pcie) (ram : Ram) where
  -- A started device, which has reported no error.
  pub started_lem :
      (let s = (start bus now ps ram).0 in
        SameDevice ps s
        × (s.timer ≡ some (now + ps.latency_us))
        × (s.regs.int_status ≡ ps.regs.int_status)
        × (s.regs.int_mask ≡ ps.regs.int_mask))
  unfolding start
  started_lem = ground (arith, transfer-Frame bus (launched ps) ram)

run_timer_fires :
    (d t : ℕ) (ps : Pcie)
    → ps.timer ≡ some d
    → d ≤ t
    → ps.regs.result ≡ 0
    → ps.regs.int_status ≡ 0
    → run_timer t ps ≡ raised ps
unfolding run_timer complete
run_timer_fires d t ps armed due ok clear =
    ap (λ o. expire o t ps) armed ∙ expire_late d t ps due ∙ ground arith

pending-raised : (ps : Pcie) → ps.regs.int_mask ≡ 3 → pending (raised ps) ≡ 1
unfolding pending update_irq
pending-raised ps mask = ap (bit_and 1) mask

module _ {Ram : Type 0} (host : Host Ram) where
  handler_lem :
      (m : Machine Ram)
      → dma_handler host (record m { ps = raised m.ps }) ≡ record {
        dma = record m.dma { int_status = 1; completed = true };
        ps = settled m.ps;
        ram = m.ram;
      }
  unfolding dma_handler bar0_read read_reg bar0_write write_reg reg_at update_irq bit_not
  handler_lem m = refl

  -- The wait of a transfer whose completion reports no error: the handler has run.
  pub wait_lem :
      (d t : ℕ) (m : Machine Ram)
      → m.ps.timer ≡ some d
      → d ≤ t
      → m.ps.regs.result ≡ 0
      → m.ps.regs.int_status ≡ 0
      → m.ps.regs.int_mask ≡ 3
      → wait host (some t) m ≡ record {
        dma = record m.dma { int_status = 1; completed = true };
        ps = settled m.ps;
        ram = m.ram;
      }
  unfolding wait
  wait_lem d t m armed due ok clear mask =
      ap
        (λ (p : Pcie).
          if pending p == 0 then record m { ps = p } else dma_handler host (record m { ps = p }))
        (run_timer_fires d t m.ps armed due ok clear)
      ∙ ap
          (λ (k : ℕ).
            if k == 0
            then record m { ps = raised m.ps }
            else dma_handler host (record m { ps = raised m.ps }))
          (pending-raised m.ps mask)
      ∙ handler_lem m

pub settled-IsReady :
    (ps : Pcie)
    → IsValid ps
    → IsRealizable ps
    → ps.master ≡ true
    → ps.regs.int_mask ≡ 3
    → IsReady (settled ps)
unfolding update_irq pending
settled-IsReady ps v z m mask = ground arith
