-- ===== src/Dma/Setup.antt =====
-- examples/27_dma/main.c: the descriptor and the registers as the device reads them.
use linux_device_driver.Prelude.{
  ℕ, zero, suc, ◌+◌, ◌/◌, ◌%◌, ◌^◌, ◌<◌, ◌≡◌, refl, ◌∙◌, ap, ap₂, false, List, [], ◌∷◌, ◌++◌,
  bit_and, arith,
}
use linux_device_driver.Pcie.State.{Pcie, Bus}
use linux_device_driver.Pcie.Transfer.{le_to_cpu, decode_desc, start}
use linux_device_driver.Pcie.State.{reg_at}
use linux_device_driver.Pcie.Bar0.{bar0_write, write_reg, busy, deposit_lo, deposit_hi}
use linux_device_driver.Dma.Device.{
  Host, Dir, to_device, from_device, le_bytes, encode_desc, iowrites, table_writes, address_writes,
  start_writes, lower_32_bits, upper_32_bits,
}

le_to_cpu-le_bytes : (n v : ℕ) → v < 256 ^ n → le_to_cpu (le_bytes n v) ≡ v
unfolding le_to_cpu le_bytes
le_to_cpu-le_bytes zero v h = omega arith
le_to_cpu-le_bytes (suc n) v h = omega (arith, le_to_cpu-le_bytes n (v / 256) (grind arith))

-- The descriptor that the driver stores is the one that the device reads.
pub decode_encode :
    (bus len : ℕ)
    → bus < 2 ^ 64
    → len < 2 ^ 32
    → decode_desc (encode_desc bus len) ≡ record { addr = bus; len = len; flags = 0 }
unfolding decode_desc encode_desc le_bytes le_to_cpu
decode_encode bus len a b =
    ap₂ (λ (x y : ℕ). record { addr = x; len = y; flags = 0 }) (le_to_cpu-le_bytes 8 bus a)
      (le_to_cpu-le_bytes 4 len b)

-- A device that is not busy, after the writes for a transfer at `pos`, but for the last one.
abbrev pub set_up_table : ℕ → ℕ → ℕ → Pcie → Pcie
set_up_table desc_bus count pos ps = record ps {
  regs = record ps.regs { desc_addr = desc_bus; desc_count = count; dev_offset = pos };
}

abbrev pub set_up : ℕ → ℕ → Pcie → Pcie
set_up desc_bus pos ps = set_up_table desc_bus 1 pos ps

-- The device as the last write starts it.
abbrev pub xor_for : Dir → ℕ → Pcie → ℕ
xor_for to_device xor ps = ps.regs.xor
xor_for from_device xor ps = bit_and (bit_and xor 0xff) 0xff

abbrev pub ctrl_for : Dir → ℕ
ctrl_for to_device = 0
ctrl_for from_device = 1

abbrev pub ready_to_start : Dir → ℕ → Pcie → Pcie
ready_to_start dir xor ps = record ps {
  regs = record ps.regs { dma_ctrl = ctrl_for dir; xor = xor_for dir xor ps };
}

module _ {Ram : Type 0} (bus : Bus Ram) (now : ℕ) (ps : Pcie) (ram : Ram)
    (idle : busy ps ≡ false) where
  write_lo :
      (val : ℕ)
      → bar0_write bus 0x40 val now ps ram ≡ (
        record ps { regs = record ps.regs { desc_addr = deposit_lo ps.regs.desc_addr val } },
        ram,
      )
  unfolding bar0_write write_reg reg_at
  write_lo val = ground arith

  write_hi :
      (val : ℕ)
      → bar0_write bus 0x44 val now ps ram ≡ (
        record ps { regs = record ps.regs { desc_addr = deposit_hi ps.regs.desc_addr val } },
        ram,
      )
  unfolding bar0_write write_reg reg_at
  write_hi val = ground arith

  write_count :
      (val : ℕ)
      → val < 2 ^ 32
      → bar0_write bus 0x48 val now ps ram
        ≡ (record ps { regs = record ps.regs { desc_count = val } }, ram)
  unfolding bar0_write write_reg reg_at
  write_count val h = ground arith

  write_offset :
      (val : ℕ)
      → val < 2 ^ 32
      → bar0_write bus 0x4c val now ps ram
        ≡ (record ps { regs = record ps.regs { dev_offset = val } }, ram)
  unfolding bar0_write write_reg reg_at
  write_offset val h = ground arith

  write_xor :
      (val : ℕ)
      → bar0_write bus 0x5c val now ps ram
        ≡ (record ps { regs = record ps.regs { xor = bit_and val 0xff } }, ram)
  unfolding bar0_write write_reg reg_at
  write_xor val = refl

  write_start :
      (dir : Dir)
      → bar0_write bus 0x50 (ctrl_for dir + 2) now ps ram
        ≡ start bus now (record ps { regs = record ps.regs { dma_ctrl = ctrl_for dir } }) ram
  unfolding bar0_write write_reg reg_at
  write_start to_device = ground arith
  write_start from_device = ground arith

deposits :
    (old a : ℕ)
    → a < 2 ^ 64
    → a % 16 ≡ 0
    → deposit_hi (deposit_lo old (lower_32_bits a)) (upper_32_bits a) ≡ a
deposits old a h q = omega arith

module _ {Ram : Type 0} (host : Host Ram) where
  next_write :
      (now a val : ℕ) (rest : List (ℕ × ℕ)) (ps ps' : Pcie) (ram ram' : Ram)
      → bar0_write host.bus a val now ps ram ≡ (ps', ram')
      → iowrites host now ((a, val) ∷ rest) ps ram ≡ iowrites host now rest ps' ram'
  unfolding iowrites
  next_write now a val rest ps ps' ram ram' e =
      ap (λ (r : Pcie × Ram). iowrites host now rest r.0 r.1) e

  last_writes :
      (now : ℕ) (dir : Dir) (xor : ℕ) (ps : Pcie) (ram : Ram)
      → busy ps ≡ false
      → iowrites host now (start_writes host dir xor) ps ram
        ≡ start host.bus now (ready_to_start dir xor ps) ram
  unfolding iowrites
  last_writes now to_device xor ps ram idle = write_start host.bus now ps ram idle to_device
  last_writes now from_device xor ps ram idle =
      let val = bit_and xor 0xff in
      let ps' = record ps { regs = record ps.regs { xor = bit_and val 0xff } } in
      next_write now 0x5c val ((0x50, 3) ∷ []) ps ps' ram ram
        (write_xor host.bus now ps ram idle val)
      ∙ write_start host.bus now ps' ram idle from_device

  -- All writes of a transfer, on a device that is not busy.
  pub iowrites-table_writes :
      (now desc_bus count pos : ℕ) (dir : Dir) (xor : ℕ) (ps : Pcie) (ram : Ram)
      → busy ps ≡ false
      → desc_bus < 2 ^ 64
      → desc_bus % 16 ≡ 0
      → count < 2 ^ 32
      → pos < 2 ^ 32
      → iowrites host now (table_writes host desc_bus count pos ++ start_writes host dir xor) ps ram
        ≡ start host.bus now (ready_to_start dir xor (set_up_table desc_bus count pos ps)) ram
  iowrites-table_writes now desc_bus count pos dir xor ps ram idle a b n c =
      let lo = lower_32_bits desc_bus in
      let hi = upper_32_bits desc_bus in
      let tail = start_writes host dir xor in
      let at = λ (d : ℕ). record ps { regs = record ps.regs { desc_addr = d } } in
      let d1 = deposit_lo ps.regs.desc_addr lo in
      let d2 = deposit_hi d1 hi in
      let ps3 = record ps { regs = record ps.regs { desc_addr = d2; desc_count = count } } in
      let small : pos % 2 ^ 32 ≡ pos = omega arith in
      next_write now 0x40 lo ((0x44, hi) ∷ (0x48, count) ∷ (0x4c, pos % 2 ^ 32) ∷ tail) ps (at d1)
        ram ram (write_lo host.bus now ps ram idle lo)
      ∙ next_write now 0x44 hi ((0x48, count) ∷ (0x4c, pos % 2 ^ 32) ∷ tail) (at d1) (at d2) ram ram
          (write_hi host.bus now (at d1) ram idle hi)
      ∙ next_write now 0x48 count ((0x4c, pos % 2 ^ 32) ∷ tail) (at d2) ps3 ram ram
          (write_count host.bus now (at d2) ram idle count n)
      ∙ ap (λ (k : ℕ). iowrites host now ((0x4c, k) ∷ tail) ps3 ram) small
      ∙ next_write now 0x4c pos tail ps3
          (record ps3 { regs = record ps3.regs { dev_offset = pos } }) ram ram
          (write_offset host.bus now ps3 ram idle pos c)
      ∙ ap (λ (d : ℕ). iowrites host now tail (set_up_table d count pos ps) ram)
          (deposits ps.regs.desc_addr desc_bus a b)
      ∙ last_writes now dir xor (set_up_table desc_bus count pos ps) ram idle

  pub launch_writes :
      (now desc_bus pos : ℕ) (dir : Dir) (xor : ℕ) (ps : Pcie) (ram : Ram)
      → busy ps ≡ false
      → desc_bus < 2 ^ 64
      → desc_bus % 16 ≡ 0
      → pos < 2 ^ 32
      → iowrites host now (address_writes host desc_bus pos ++ start_writes host dir xor) ps ram
        ≡ start host.bus now (ready_to_start dir xor (set_up desc_bus pos ps)) ram
  launch_writes now desc_bus pos dir xor ps ram idle a b c =
      iowrites-table_writes now desc_bus 1 pos dir xor ps ram idle a b (omega arith) c
