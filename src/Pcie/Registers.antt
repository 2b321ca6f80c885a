-- ===== src/Pcie/Registers.antt =====
-- tools/qemu/hw/ldd/pcie.c: what BAR 0 promises of its registers.
use linux_device_driver.Prelude.{
  ℕ, ◌+◌, ◌-◌, ◌^◌, ◌%◌, ◌≤◌, ◌<◌, ◌≡◌, ◌⊎◌, ◌↔◌, refl, true, false, Option, none, some, arith,
  ◌==◌, if_cases, inl, inr, bit_and, Option-cases, ap, ◌∙◌,
}
use linux_device_driver.Prelude.Bits.{bit_and-one, bit_and_seven, bit_and_255}
use linux_device_driver.Pcie.State.{
  Pcie, Bus, Reg, reg_id, reg_scratch, reg_ctrl, reg_int_mask, reg_desc_addr_lo, reg_desc_addr_hi,
  reg_desc_count, reg_dev_offset, reg_dma_ctrl, reg_xor, reg_at, offset,
}
use linux_device_driver.Pcie.Irq.{update_irq, reset}
use linux_device_driver.Pcie.Transfer.{dma_ok, start}
use linux_device_driver.Pcie.Frame.{transfer-Frame}
use linux_device_driver.Pcie.Engine.{launched}
use linux_device_driver.Pcie.Bar0.{busy, read_reg, bar0_read, write_reg, bar0_write}
use linux_device_driver.Pcie.Invariant.{IsValid}

-- The `switch` tells the offsets apart.
pub reg_at-offset : (r : Reg) → reg_at (offset r) ≡ some r
unfolding reg_at
reg_at-offset reg_id = refl
reg_at-offset _ = refl

-- What the engine works from and what it has to report are as they were.
pub record Untouched (a b : Pcie) : Type 0 where
  pub desc_addr_same : b.regs.desc_addr ≡ a.regs.desc_addr
  pub desc_count_same : b.regs.desc_count ≡ a.regs.desc_count
  pub dev_offset_same : b.regs.dev_offset ≡ a.regs.dev_offset
  pub dma_ctrl_same : b.regs.dma_ctrl ≡ a.regs.dma_ctrl
  pub status_same : b.regs.status ≡ a.regs.status
  pub xfer_bytes_same : b.regs.xfer_bytes ≡ a.regs.xfer_bytes
  pub err_desc_same : b.regs.err_desc ≡ a.regs.err_desc
  pub result_same : b.regs.result ≡ a.regs.result
  pub timer_same : b.timer ≡ a.timer
  pub mem_same : b.mem ≡ a.mem

Untouched-refl : (a : Pcie) → Untouched a a
Untouched-refl a = ground arith

-- The value that a register reads as, after `val` was written to it; `none` for CTRL, INT_STATUS and
-- INT_RAISE, to which a write is a command, and for the registers that are only read.
abbrev pub kept : Reg → ℕ → Option ℕ
kept reg_scratch val = some val
kept reg_int_mask val = some (val % 8)
kept reg_desc_addr_lo val = some (val - val % 16)
kept reg_desc_addr_hi val = some val
kept reg_desc_count val = some val
kept reg_dev_offset val = some val
kept reg_dma_ctrl val = some (val % 2)
kept reg_xor val = some (val % 256)
kept _ val = none

module _ {Ram : Type 0} (bus : Bus Ram) where
  write_reg-busy :
      (r : Reg) (val now : ℕ) (ps : Pcie) (ram : Ram)
      → busy ps ≡ true
      → let (ps', ram') = write_reg bus r val now ps ram in
        (ram' ≡ ram) × ((ps' ≡ reset ps) ⊎ Untouched ps ps')
  unfolding write_reg update_irq
  write_reg-busy reg_ctrl val now ps ram b = (
    refl,
    if_cases (λ p. (p ≡ reset ps) ⊎ Untouched ps p) (bit_and val 1 == 0)
        (λ _. inr (Untouched-refl ps)) (λ _. inl refl),
  )
  write_reg-busy reg_dma_ctrl val now ps ram b =
      if_cases (λ (t : Pcie × Ram). (t.1 ≡ ram) × ((t.0 ≡ reset ps) ⊎ Untouched ps t.0)) (busy ps)
        (λ _. (refl, inr (Untouched-refl ps))) (λ f. cc)
  write_reg-busy _ val now ps ram b = (refl, inr (ground arith))

  -- While a transfer is in flight no write to BAR 0 reaches it, whatever the offset and the value,
  -- unless it resets the device.
  pub bar0_write-busy :
      (a val now : ℕ) (ps : Pcie) (ram : Ram)
      → busy ps ≡ true
      → let (ps', ram') = bar0_write bus a val now ps ram in
        (ram' ≡ ram) × ((ps' ≡ reset ps) ⊎ Untouched ps ps')
  unfolding bar0_write
  bar0_write-busy a val now ps ram b = elim (Option-cases (reg_at a)) [
    | inl e ↦ rw (e, bar0_write) (refl, inr (Untouched-refl ps))
    | inr (r, e) ↦ rw (e, bar0_write) (write_reg-busy r val now ps ram b)
  ]

  -- A start leaves the direction.
  start-dma_ctrl :
      (now : ℕ) (ps : Pcie) (ram : Ram) → (start bus now ps ram).0.regs.dma_ctrl ≡ ps.regs.dma_ctrl
  unfolding start
  start-dma_ctrl now ps ram = (transfer-Frame bus (launched ps) ram).dma_ctrl_same

  direction :
      (val now : ℕ) (ps : Pcie) (ram : Ram)
      → busy ps ≡ false
      → bit_and (write_reg bus reg_dma_ctrl val now ps ram).0.regs.dma_ctrl 1 ≡ val % 2
  unfolding write_reg
  direction val now ps ram b =
      let ps' = record ps { regs = record r { dma_ctrl = bit_and val 1 } } in
      let bit : bit_and (bit_and val 1) 1 ≡ val % 2 =
        omega (arith, bit_and-one (bit_and val 1), bit_and-one val) in
      let P = λ (t : Pcie × Ram). bit_and t.0.regs.dma_ctrl 1 ≡ val % 2 in
      if_cases P (busy ps) (λ t. absurd (ground arith))
        λ _.
          if_cases P (bit_and val 2 == 0) (λ _. bit)
            λ _. ap (λ x. bit_and x 1) (start-dma_ctrl now ps' ram) ∙ bit
    where
      open ps use {regs as r}

  -- On a valid, idle device each register that can be written and is no command reads back the 32-bit
  -- value that was written,
  -- within its bits: SCRATCH, INT_MASK, the address and the count of the table, DEV_OFFSET, XOR, and
  -- the direction in DMA_CTRL, there also when the write starts a transfer.
  pub read_reg-write_reg :
      (r : Reg) (val now : ℕ) (ps : Pcie) (ram : Ram) {v : ℕ}
      → IsValid ps
      → busy ps ≡ false
      → val < 2 ^ 32
      → kept r val ≡ some v
      → bar0_read (offset r) (bar0_write bus (offset r) val now ps ram).0 ≡ v
  unfolding bar0_read bar0_write read_reg reg_at
  read_reg-write_reg reg_scratch val now ps ram ok b h e = unfold write_reg in ground arith
  read_reg-write_reg reg_int_mask val now ps ram ok b h e =
      unfold write_reg update_irq in ground (arith, bit_and_seven val)
  read_reg-write_reg reg_xor val now ps ram ok b h e =
      unfold write_reg in ground (arith, bit_and_255 val)
  read_reg-write_reg reg_dma_ctrl val now ps ram ok b h e =
      ground (arith, direction val now ps ram b)
  read_reg-write_reg _ val now ps ram ok b h e = unfold write_reg in ground arith

-- With 32 address bits, of a range of 1 to 2 ^ 32 - 1 bytes from a 64-bit address, the engine takes
-- for reachable what ends at or below 4 GiB, and also everything that runs past the top of the
-- 64-bit addresses: there the sum wraps.
pub dma_ok_iff :
    (ps : Pcie) (addr len : ℕ)
    → ps.dma64 ≡ false
    → addr < 2 ^ 64
    → 0 < len
    → len < 2 ^ 32
    → (dma_ok ps addr len ≡ true) ↔ ((addr + len ≤ 2 ^ 32) ⊎ (2 ^ 64 ≤ addr + len))
unfolding dma_ok
dma_ok_iff ps addr len d ha hl hh = (λ h. ground arith, λ h. ground arith)
