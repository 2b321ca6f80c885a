-- ===== src/Pcie/Tests.antt =====
-- tools/qemu/hw/ldd/pcie.c: the theorems at concrete devices, and runs that can be followed.
use linux_device_driver.Prelude.{
  ℕ, ◌+◌, ◌^◌, ◌%◌, ◌≤◌, ◌≡◌, ◌⊎◌, ◌↔◌, inr, refl, true, false, none, some, List, [], ◌∷◌, arith,
  ltb, if◌then◌else◌, get_or,
}
use linux_device_driver.Pcie.State.{Pcie, reg_desc_addr_lo, zero_regs, set_irq}
use linux_device_driver.Pcie.Irq.{reset}
use linux_device_driver.Pcie.Transfer.{
  decode_desc, le_to_cpu, start, transfer, fetch_table, check_descs, copy_descs, move_segment,
  count_bytes, finish, payload, dma_ok, run_timer,
}
use linux_device_driver.Pcie.Bar0.{bar0_write, bar0_read}
use linux_device_driver.Pcie.Machine.{
  write, clock, qdev_reset, run, step, realize, realized, length-blank,
}
use linux_device_driver.Pcie.Invariant.{IsValid}
use linux_device_driver.Pcie.Verdict.{sum_len}
use linux_device_driver.Pcie.Checks.{IsRealizable, descs_of}
use linux_device_driver.Pcie.Copy.{gather}
use linux_device_driver.Pcie.Signals.{messages, one_if}
use linux_device_driver.Pcie.Edges.{step-Signals, rises}
use linux_device_driver.Pcie.Engine.{start_to_device, start-to_guest, start_completes, Completed}
use linux_device_driver.Pcie.Registers.{read_reg-write_reg, bar0_write-busy, Untouched, dma_ok_iff}
use linux_device_driver.Pcie.Limits.{run-realize}
use linux_device_driver.Pcie.TotalRam.{Memory, total_bus, total_laws}

-- A realized device that the driver has set up for the two descriptors at 0x1000.
abbrev ready : Pcie
ready = record (realized true 65536 256 100) {
  master = true;
  msix_enabled = true;
  regs = record zero_regs {
    int_mask = 7;
    desc_addr = 0x1000;
    desc_count = 2;
    dev_offset = 0x40;
    xor = 0x20;
  };
}

-- The same, for the direction to the guest.
abbrev ready_out : Pcie
ready_out = record ready {
  regs = record zero_regs { desc_addr = 0x1000; desc_count = 2; dma_ctrl = 1 };
}

-- 4 bytes at 0x2000 and 2 bytes at 0x3000
abbrev table : List ℕ
table =
    0 ∷ 0x20 ∷ 0 ∷ 0 ∷ 0 ∷ 0 ∷ 0 ∷ 0 ∷ 4 ∷ 0 ∷ 0 ∷ 0 ∷ 0 ∷ 0 ∷ 0 ∷ 0 ∷ 0 ∷ 0x30 ∷ 0 ∷ 0 ∷ 0 ∷ 0 ∷ 0
    ∷ 0 ∷ 2 ∷ 0 ∷ 0 ∷ 0 ∷ 0 ∷ 0 ∷ 0 ∷ 0 ∷ []

abbrev guest : Memory
guest q = if ltb q 0x1000 then 0 else get_or table (q % 0x1000) 7

two_descs :
    descs_of total_bus ready guest
    ≡ record { addr = 0x2000; len = 4; flags = 0 }
      ∷ record { addr = 0x3000; len = 2; flags = 0 }
      ∷ []
unfolding fetch_table decode_desc le_to_cpu total_bus realized
two_descs = refl

ready-IsValid : IsValid ready
unfolding realized
ready-IsValid = record {
  int_status_bits = omega arith;
  int_mask_bits = omega arith;
  sent = refl;
  aligned = refl;
  word = omega arith;
  direction = omega arith;
  byte = omega arith;
  code = omega arith;
  armed = refl;
  size = length-blank _;
}

ready_out-IsValid : IsValid ready_out
unfolding realized
ready_out-IsValid = record {
  int_status_bits = omega arith;
  int_mask_bits = omega arith;
  sent = refl;
  aligned = refl;
  word = omega arith;
  direction = omega arith;
  byte = omega arith;
  code = omega arith;
  armed = refl;
  size = length-blank _;
}

ready-IsRealizable : IsRealizable ready
unfolding realized
ready-IsRealizable = omega arith

ready_out-IsRealizable : IsRealizable ready_out
unfolding realized
ready_out-IsRealizable = omega arith

start_to_device_example :
    (start total_bus 5 ready guest).0.regs.xfer_bytes ≡ sum_len (descs_of total_bus ready guest)
unfolding start transfer fetch_table decode_desc le_to_cpu check_descs copy_descs move_segment
    count_bytes finish total_bus realized
start_to_device_example =
    (start_to_device total_bus total_laws 5 ready guest ready-IsValid ready-IsRealizable refl
      refl).3

start-to_guest_example :
    gather total_bus total_laws
      (start total_bus 5 ready_out guest).1
      (descs_of total_bus ready_out guest)
    ≡ payload ready_out 0 (sum_len (descs_of total_bus ready_out guest))
unfolding start transfer fetch_table decode_desc le_to_cpu check_descs copy_descs move_segment
    count_bytes finish total_bus realized
start-to_guest_example =
    (start-to_guest total_bus total_laws 5 ready_out guest ready_out-IsValid ready_out-IsRealizable
      refl ((inr (omega arith), tt), (tt, tt)) refl).2

start_completes_example :
    Completed
      (start total_bus 5 ready guest).0.regs.result
      0
      (run_timer 200 (start total_bus 5 ready guest).0)
unfolding realized
start_completes_example = (start_completes total_bus total_laws 5 ready guest).3 200 (omega arith)

-- A raise of the soft interrupt sends the message of vector 2 once.
step-Signals_example :
    messages 2 (step total_bus ready guest (write 0x20 4 0)).0.effects
    ≡ messages 2 ready.effects
      + one_if (rises 2 ready (step total_bus ready guest (write 0x20 4 0)).0)
step-Signals_example =
    step-Signals 2 (omega arith) total_bus ready guest (write 0x20 4 0) refl ready-IsValid

run-realize_example :
    let ps' =
      (run total_bus
        (realized true 65536 256 100)
        guest
        (write 0x1c 7 0 ∷ write 0x50 2 5 ∷ clock 200 ∷ qdev_reset ∷ [])).0 in
    IsRealizable ps' × IsValid ps'
unfolding realize
run-realize_example =
    run-realize total_bus true true 65536 256 100 guest
      (write 0x1c 7 0 ∷ write 0x50 2 5 ∷ clock 200 ∷ qdev_reset ∷ []) refl

read_reg-write_reg_example :
    bar0_read 0x40 (bar0_write total_bus 0x40 0x12345678 0 ready guest).0 ≡ 0x12345670
read_reg-write_reg_example =
    read_reg-write_reg total_bus reg_desc_addr_lo 0x12345678 0 ready guest ready-IsValid refl
      (omega arith) refl

abbrev at_work : Pcie
at_work = record ready { regs = record zero_regs { status = 1 }; timer = some 105 }

bar0_write-busy_example :
    let (ps', ram') = bar0_write total_bus 0x48 9 0 at_work guest in
    (ram' ≡ guest)
    × ((ps' ≡ record ready { timer = none; regs = zero_regs; effects = set_irq false ∷ [] })
        ⊎ Untouched at_work ps')
unfolding realized reset
bar0_write-busy_example = bar0_write-busy total_bus 0x48 9 0 at_work guest refl

-- A range that ends at 4 GiB, and one that runs past the top of the addresses.
dma_ok_iff_example :
    let narrow = record ready { dma64 = false } in
    (dma_ok narrow 0xffff_f000 0x1000 ≡ true)
    ↔ ((0xffff_f000 + 0x1000 ≤ 2 ^ 32) ⊎ (2 ^ 64 ≤ 0xffff_f000 + 0x1000))
dma_ok_iff_example =
    dma_ok_iff (record ready { dma64 = false }) 0xffff_f000 0x1000 refl (omega arith) (omega arith)
      (omega arith)
