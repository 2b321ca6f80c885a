-- ===== src/Pcie/Invariant.antt =====
-- tools/qemu/hw/ldd/pcie.c: what holds of the device between two accesses.
use linux_device_driver.Prelude.{
  ℕ, zero, suc, ◌+◌, ◌*◌, ◌%◌, ◌^◌, ◌≤◌, ◌<◌, ◌≡◌, refl, Bool, true, false, not, Option, none, some,
  List, [], ◌∷◌, arith, bit_and, bit_or, ◌==◌, leb, if_cases, length, Option-cases, inl, inr,
}
use linux_device_driver.Prelude.Bits.{
  bit_and-one, bit_and_seven, bit_and_255, bit_or-lt, bit_and-le_left, bit_not,
}
use linux_device_driver.Pcie.State.{
  Pcie, Bus, Reg, reg_scratch, reg_ctrl, reg_int_status, reg_int_mask, reg_int_raise,
  reg_desc_addr_lo, reg_desc_addr_hi, reg_desc_count, reg_dev_offset, reg_dma_ctrl, reg_xor, reg_at,
  ldd_mem_size, status_error,
}
use linux_device_driver.Pcie.Irq.{update_irq, reset}
use linux_device_driver.Pcie.Transfer.{start, complete, expire, run_timer}
use linux_device_driver.Pcie.Frame.{transfer-Frame, transfer-code-le}
use linux_device_driver.Pcie.Bar0.{write_reg, bar0_write, busy}
use linux_device_driver.Pcie.Machine.{
  Event, write, clock, qdev_reset, write_config, step, run, realized, length-blank,
}

abbrev pub is_armed : Option ℕ → Bool
is_armed none = false
is_armed (some deadline) = true

-- The interrupt and address registers hold only their defined bits, what was signalled is what is
-- pending, the timer runs exactly while STATUS.BUSY is set, and the on-board memory keeps its size.
pub record IsValid (ps : Pcie) : Type 0 where
  pub int_status_bits : ps.regs.int_status < 8
  pub int_mask_bits : ps.regs.int_mask < 8
  pub sent : ps.regs.irq_sent ≡ bit_and ps.regs.int_status ps.regs.int_mask
  pub aligned : ps.regs.desc_addr % 16 ≡ 0
  pub word : ps.regs.desc_addr < 2 ^ 64
  pub direction : ps.regs.dma_ctrl < 2
  pub byte : ps.regs.xor < 256
  pub code : ps.regs.result ≤ 5
  pub armed : is_armed ps.timer ≡ busy ps
  pub size : length ps.mem ≡ ldd_mem_size

pub update_irq-IsValid :
    (ps : Pcie)
    → ps.regs.int_status < 8
    → ps.regs.int_mask < 8
    → ps.regs.desc_addr % 16 ≡ 0
    → ps.regs.desc_addr < 2 ^ 64
    → ps.regs.dma_ctrl < 2
    → ps.regs.xor < 256
    → ps.regs.result ≤ 5
    → is_armed ps.timer ≡ busy ps
    → length ps.mem ≡ ldd_mem_size
    → IsValid (update_irq ps)
unfolding update_irq
update_irq-IsValid ps h1 h2 h3 h4 h5 h6 h7 h8 h9 = record {
  int_status_bits = h1;
  int_mask_bits = h2;
  sent = refl;
  aligned = h3;
  word = h4;
  direction = h5;
  byte = h6;
  code = h7;
  armed = h8;
  size = h9;
}

pub reset-IsValid : (ps : Pcie) → length ps.mem ≡ ldd_mem_size → IsValid (reset ps)
unfolding reset
reset-IsValid ps h = record {
  int_status_bits = omega arith;
  int_mask_bits = omega arith;
  sent = refl;
  aligned = refl;
  word = omega arith;
  direction = omega arith;
  byte = omega arith;
  code = omega arith;
  armed = refl;
  size = h;
}

-- STATUS after a failed transfer, for each ERR_CODE
pub status_of_error :
    (c : ℕ) → c ≤ 5 → bit_or status_error (c * 2 ^ 8 % 2 ^ 32) ≡ status_error + c * 2 ^ 8
status_of_error zero h = refl
status_of_error (suc zero) h = refl
status_of_error (suc (suc zero)) h = refl
status_of_error (suc (suc (suc zero))) h = refl
status_of_error (suc (suc (suc (suc zero)))) h = refl
status_of_error (suc (suc (suc (suc (suc zero))))) h = refl
status_of_error (suc (suc (suc (suc (suc (suc c)))))) h = absurd (omega arith)

pub complete-IsValid : (ps : Pcie) → IsValid ps → IsValid (complete (record ps { timer = none }))
unfolding complete
complete-IsValid ps v =
    if_cases IsValid (ps.regs.result == 0)
      (λ _.
        update_irq-IsValid _ (bit_or-lt 3 _ 1 v.int_status_bits (omega arith)) v.int_mask_bits
          v.aligned v.word v.direction v.byte v.code refl v.size)
      λ _.
        update_irq-IsValid _ (bit_or-lt 3 _ 2 v.int_status_bits (omega arith)) v.int_mask_bits
          v.aligned v.word v.direction v.byte v.code not_busy v.size
  where
    not_busy : false ≡ not (bit_and (bit_or status_error (ps.regs.result * 2 ^ 8 % 2 ^ 32)) 1 == 0)
    not_busy = ground (
      arith,
      status_of_error ps.regs.result v.code,
      bit_and-one (status_error + ps.regs.result * 2 ^ 8),
    )

expire-IsValid : (t : Option ℕ) (now : ℕ) (ps : Pcie) → IsValid ps → IsValid (expire t now ps)
unfolding expire
expire-IsValid none now ps v = v
expire-IsValid (some d) now ps v =
    if_cases IsValid (leb d now) (λ _. complete-IsValid ps v) (λ _. v)

run_timer-IsValid : (now : ℕ) (ps : Pcie) → IsValid ps → IsValid (run_timer now ps)
unfolding run_timer
run_timer-IsValid now ps v = expire-IsValid ps.timer now ps v

module _ {Ram : Type 0} (bus : Bus Ram) where
  -- What STATUS held before does not matter: a start leaves it BUSY with the timer armed.
  pub start-IsValid :
      (now : ℕ) (ps : Pcie) (ram : Ram) → IsValid ps → IsValid (start bus now ps ram).0
  unfolding start
  start-IsValid now ps ram v =
      let r = ps.regs in
      let ps₁ = record ps { regs = record r { status = 1; xfer_bytes = 0; err_desc = 0 } } in
      ground (arith, transfer-Frame bus ps₁ ram, transfer-code-le bus ps₁ ram)

  write_reg-IsValid :
      (r : Reg) (val now : ℕ) (ps : Pcie) (ram : Ram)
      → IsValid ps
      → IsValid (write_reg bus r val now ps ram).0
  unfolding write_reg
  write_reg-IsValid reg_scratch val now ps ram v = ground arith
  write_reg-IsValid reg_ctrl val now ps ram v =
      if_cases IsValid (bit_and val 1 == 0) (λ _. v) (λ _. reset-IsValid ps v.size)
  write_reg-IsValid reg_int_status val now ps ram v =
      update_irq-IsValid _
        (omega (arith, v.int_status_bits, bit_and-le_left ps.regs.int_status (bit_not 64 val)))
        v.int_mask_bits v.aligned v.word v.direction v.byte v.code v.armed v.size
  write_reg-IsValid reg_int_mask val now ps ram v =
      update_irq-IsValid _ v.int_status_bits (omega (arith, bit_and_seven val)) v.aligned v.word
        v.direction v.byte v.code v.armed v.size
  write_reg-IsValid reg_int_raise val now ps ram v =
      update_irq-IsValid _ (bit_or-lt 3 _ _ v.int_status_bits (omega (arith, bit_and_seven val)))
        v.int_mask_bits v.aligned v.word v.direction v.byte v.code v.armed v.size
  write_reg-IsValid reg_desc_addr_lo val now ps ram v = ground arith
  write_reg-IsValid reg_desc_addr_hi val now ps ram v = ground arith
  write_reg-IsValid reg_desc_count val now ps ram v = ground arith
  write_reg-IsValid reg_dev_offset val now ps ram v = ground arith
  write_reg-IsValid reg_dma_ctrl val now ps ram v =
      let r = ps.regs in
      let ps' = record ps { regs = record r { dma_ctrl = bit_and val 1 } } in
      let v' : IsValid ps' = ground (arith, bit_and-one val) in
      if_cases (λ (t : Pcie × Ram). IsValid t.0) (busy ps) (λ _. v)
        λ _.
          if_cases (λ (t : Pcie × Ram). IsValid t.0) (bit_and val 2 == 0) (λ _. v')
            λ _. start-IsValid now ps' ram v'
  write_reg-IsValid reg_xor val now ps ram v = ground (arith, bit_and_255 val)
  write_reg-IsValid _ val now ps ram v = v

  -- A write of any value to any offset of BAR 0 keeps the device valid.
  pub bar0_write-IsValid :
      (a val now : ℕ) (ps : Pcie) (ram : Ram)
      → IsValid ps
      → IsValid (bar0_write bus a val now ps ram).0
  unfolding bar0_write
  bar0_write-IsValid a val now ps ram v = elim (Option-cases (reg_at a)) [
    | inl e ↦ rw (e, bar0_write) v
    | inr (r, e) ↦ rw (e, bar0_write) (write_reg-IsValid r val now ps ram v)
  ]

  pub step-IsValid :
      (ps : Pcie) (ram : Ram) (e : Event) → IsValid ps → IsValid (step bus ps ram e).0
  unfolding step
  step-IsValid ps ram (write a val now) v = bar0_write-IsValid a val now ps ram v
  step-IsValid ps ram (clock now) v = run_timer-IsValid now ps v
  step-IsValid ps ram qdev_reset v = reset-IsValid ps v.size
  step-IsValid ps ram (write_config msix msi bus_master true) v = reset-IsValid _ v.size
  step-IsValid ps ram (write_config msix msi bus_master false) v = ground arith

  pub run-IsValid :
      (ps : Pcie) (ram : Ram) (es : List Event) → IsValid ps → IsValid (run bus ps ram es).0
  unfolding run
  run-IsValid ps ram [] v = v
  run-IsValid ps ram (e ∷ es) v =
      let (ps', ram') = step bus ps ram e in run-IsValid ps' ram' es (step-IsValid ps ram e v)

pub realized-IsValid :
    (wide : Bool) (seg descs latency : ℕ) → IsValid (realized wide seg descs latency)
unfolding realized
realized-IsValid wide seg descs latency = record {
  int_status_bits = omega arith;
  int_mask_bits = omega arith;
  sent = refl;
  aligned = refl;
  word = omega arith;
  direction = omega arith;
  byte = omega arith;
  code = omega arith;
  armed = refl;
  size = length-blank ldd_mem_size;
}
