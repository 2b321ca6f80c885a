-- ===== src/Pcie/Bar0.antt =====
-- tools/qemu/hw/ldd/pcie.c: the accesses to BAR 0 and the resets. A 4-byte access is the only one
-- that the memory core passes on, so a written value is below 2 ^ 32.
use linux_device_driver.Prelude.{
  ℕ, ◌+◌, ◌*◌, ◌/◌, ◌^◌, ◌%◌, Bool, not, none, some, bit_and, bit_or, ◌==◌, if◌then◌else◌,
}
use linux_device_driver.Prelude.Bits.{bit_not}
use linux_device_driver.Pcie.State.{
  Pcie, Bus, Reg, reg_id, reg_version, reg_caps, reg_scratch, reg_ctrl, reg_status, reg_int_status,
  reg_int_mask, reg_int_raise, reg_max_seg, reg_max_desc, reg_desc_addr_lo, reg_desc_addr_hi,
  reg_desc_count, reg_dev_offset, reg_dma_ctrl, reg_xfer_bytes, reg_err_desc, reg_xor, reg_at,
  ldd_id, ldd_version, int_all,
}
use linux_device_driver.Pcie.Irq.{update_irq, reset}
use linux_device_driver.Pcie.Transfer.{start}

unfoldable pub read_reg : Reg → Pcie → ℕ
read_reg reg_id ps = ldd_id
read_reg reg_version ps = ldd_version
read_reg reg_caps ps = if ps.dma64 then 1 else 0
read_reg reg_scratch ps = ps.regs.scratch
read_reg reg_ctrl ps = 0
read_reg reg_int_raise ps = 0
read_reg reg_status ps = ps.regs.status
read_reg reg_int_status ps = ps.regs.int_status
read_reg reg_int_mask ps = ps.regs.int_mask
read_reg reg_max_seg ps = ps.max_seg
read_reg reg_max_desc ps = ps.max_desc
read_reg reg_desc_addr_lo ps = ps.regs.desc_addr % 2 ^ 32
read_reg reg_desc_addr_hi ps = ps.regs.desc_addr / 2 ^ 32 % 2 ^ 32
read_reg reg_desc_count ps = ps.regs.desc_count
read_reg reg_dev_offset ps = ps.regs.dev_offset
read_reg reg_dma_ctrl ps = bit_and ps.regs.dma_ctrl 1
read_reg reg_xfer_bytes ps = ps.regs.xfer_bytes
read_reg reg_err_desc ps = ps.regs.err_desc
read_reg reg_xor ps = ps.regs.xor

unfoldable pub bar0_read : ℕ → Pcie → ℕ
unfolding read_reg
bar0_read a ps = elim (reg_at a) [ none ↦ 0 | some r ↦ read_reg r ps ]

-- `status & LDD_STATUS_BUSY`
abbrev pub busy : Pcie → Bool
busy ps = not (bit_and ps.regs.status 1 == 0)

-- `deposit64(desc_addr, 0, 32, val & ~15)` and `deposit64(desc_addr, 32, 32, val)`.
abbrev pub deposit_lo : ℕ → ℕ → ℕ
deposit_lo old val = old / 2 ^ 32 * 2 ^ 32 + val / 16 * 16 % 2 ^ 32

abbrev pub deposit_hi : ℕ → ℕ → ℕ
deposit_hi old val = val % 2 ^ 32 * 2 ^ 32 + old % 2 ^ 32

module _ {Ram : Type 0} (bus : Bus Ram) where
  unfoldable pub write_reg : Reg → ℕ → ℕ → Pcie → Ram → Pcie × Ram
  unfolding update_irq reset start
  write_reg reg_scratch val now ps ram =
      let r = ps.regs in (record ps { regs = record r { scratch = val % 2 ^ 32 } }, ram)
  write_reg reg_ctrl val now ps ram = (if bit_and val 1 == 0 then ps else reset ps, ram)
  write_reg reg_int_status val now ps ram =
      let r = ps.regs in
      (
        update_irq
            (record ps { regs = record r { int_status = bit_and r.int_status (bit_not 64 val) } }),
        ram,
      )
  write_reg reg_int_mask val now ps ram =
      let r = ps.regs in
      (update_irq (record ps { regs = record r { int_mask = bit_and val int_all } }), ram)
  write_reg reg_int_raise val now ps ram =
      let r = ps.regs in
      (
        update_irq (record ps {
          regs = record r { int_status = bit_or r.int_status (bit_and val int_all) };
        }),
        ram,
      )
  write_reg reg_desc_addr_lo val now ps ram =
      let r = ps.regs in
      (
        if busy ps
            then ps
            else record ps { regs = record r { desc_addr = deposit_lo r.desc_addr val } },
        ram,
      )
  write_reg reg_desc_addr_hi val now ps ram =
      let r = ps.regs in
      (
        if busy ps
            then ps
            else record ps { regs = record r { desc_addr = deposit_hi r.desc_addr val } },
        ram,
      )
  write_reg reg_desc_count val now ps ram =
      let r = ps.regs in
      (if busy ps then ps else record ps { regs = record r { desc_count = val % 2 ^ 32 } }, ram)
  write_reg reg_dev_offset val now ps ram =
      let r = ps.regs in
      (if busy ps then ps else record ps { regs = record r { dev_offset = val % 2 ^ 32 } }, ram)
  write_reg reg_dma_ctrl val now ps ram =
      let r = ps.regs in
      let ps' = record ps { regs = record r { dma_ctrl = bit_and val 1 } } in
      if busy ps
      then (ps, ram)
      else if bit_and val 2 == 0
      then (ps', ram)
      else start bus now ps' ram
  write_reg reg_xor val now ps ram =
      let r = ps.regs in (record ps { regs = record r { xor = bit_and val 0xff } }, ram)
  write_reg reg_id val now ps ram = (ps, ram)
  write_reg reg_version val now ps ram = (ps, ram)
  write_reg reg_caps val now ps ram = (ps, ram)
  write_reg reg_status val now ps ram = (ps, ram)
  write_reg reg_max_seg val now ps ram = (ps, ram)
  write_reg reg_max_desc val now ps ram = (ps, ram)
  write_reg reg_xfer_bytes val now ps ram = (ps, ram)
  write_reg reg_err_desc val now ps ram = (ps, ram)

  unfoldable pub bar0_write : ℕ → ℕ → ℕ → Pcie → Ram → Pcie × Ram
  unfolding write_reg
  bar0_write a val now ps ram = elim (reg_at a) [
    | none ↦ (ps, ram)
    | some r ↦ write_reg r val now ps ram
  ]
