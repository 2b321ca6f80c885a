-- ===== src/Pcie/State.antt =====
-- tools/qemu/hw/ldd/pcie.c: the registers of BAR 0, the state of the device, and what it asks of
-- the bus it sits on.
use linux_device_driver.Prelude.{
  ℕ, ◌+◌, ◌≡◌, ◌≤◌, ◌⊎◌, Bool, true, Option, none, some, List, [], ◌∷◌, length, ◌==◌, if◌then◌else◌,
}

-- The named offsets of BAR 0.
pub data Reg : Type 0 where
  reg_id reg_version reg_caps reg_scratch reg_ctrl reg_status : Reg
  reg_int_status reg_int_mask reg_int_raise reg_max_seg reg_max_desc : Reg
  reg_desc_addr_lo reg_desc_addr_hi reg_desc_count reg_dev_offset : Reg
  reg_dma_ctrl reg_xfer_bytes reg_err_desc reg_xor : Reg

-- The `#define LDD_REG_...` lines.
abbrev pub offset : Reg → ℕ
offset reg_id = 0x00
offset reg_version = 0x04
offset reg_caps = 0x08
offset reg_scratch = 0x0c
offset reg_ctrl = 0x10
offset reg_status = 0x14
offset reg_int_status = 0x18
offset reg_int_mask = 0x1c
offset reg_int_raise = 0x20
offset reg_max_seg = 0x24
offset reg_max_desc = 0x28
offset reg_desc_addr_lo = 0x40
offset reg_desc_addr_hi = 0x44
offset reg_desc_count = 0x48
offset reg_dev_offset = 0x4c
offset reg_dma_ctrl = 0x50
offset reg_xfer_bytes = 0x54
offset reg_err_desc = 0x58
offset reg_xor = 0x5c

find_reg : ℕ → List Reg → Option Reg
find_reg a [] = none
find_reg a (r ∷ rs) = if a == offset r then some r else find_reg a rs

abbrev all_regs : List Reg
all_regs =
    reg_id ∷ reg_version ∷ reg_caps ∷ reg_scratch ∷ reg_ctrl ∷ reg_status ∷ reg_int_status
    ∷ reg_int_mask ∷ reg_int_raise ∷ reg_max_seg ∷ reg_max_desc ∷ reg_desc_addr_lo
    ∷ reg_desc_addr_hi ∷ reg_desc_count ∷ reg_dev_offset ∷ reg_dma_ctrl ∷ reg_xfer_bytes
    ∷ reg_err_desc ∷ reg_xor ∷ []

-- The label of the `switch` at which an address arrives; `none` is `default`.
unfoldable pub reg_at : ℕ → Option Reg
unfolding find_reg
reg_at a = find_reg a all_regs

abbrev pub ldd_id : ℕ
ldd_id = 0x4c444450

abbrev pub ldd_version : ℕ
ldd_version = 0x00010000

abbrev pub ldd_mem_size : ℕ
ldd_mem_size = 0x10_0000

abbrev pub desc_size : ℕ
desc_size = 16

-- STATUS.ERR_CODE
abbrev pub err_no_master : ℕ
err_no_master = 1

abbrev pub err_bad_count : ℕ
err_bad_count = 2

abbrev pub err_bad_desc : ℕ
err_bad_desc = 3

abbrev pub err_out_of_range : ℕ
err_out_of_range = 4

abbrev pub err_dma_fault : ℕ
err_dma_fault = 5

-- STATUS bits, as values
abbrev pub status_busy : ℕ
status_busy = 1

abbrev pub status_done : ℕ
status_done = 2

abbrev pub status_error : ℕ
status_error = 4

abbrev pub int_dma_done : ℕ
int_dma_done = 1

abbrev pub int_dma_error : ℕ
int_dma_error = 2

abbrev pub int_all : ℕ
int_all = 7

abbrev pub msix_vectors : ℕ
msix_vectors = 3

-- A call of the PCI or memory core, in the order of the calls.
pub data Effect : Type 0 where
  msix_notify : ℕ → Effect
  msi_notify : ℕ → Effect
  set_irq : Bool → Effect
  set_dirty : ℕ → ℕ → Effect

-- `regs` of `LDDPCIEState`: what a reset clears.
pub record Regs : Type 0 where
  pub scratch : ℕ
  pub status : ℕ
  pub int_status : ℕ
  pub int_mask : ℕ
  pub desc_addr : ℕ
  pub desc_count : ℕ
  pub dev_offset : ℕ
  pub dma_ctrl : ℕ
  pub xfer_bytes : ℕ
  pub err_desc : ℕ
  pub xor : ℕ
  pub irq_sent : ℕ
  pub result : ℕ

abbrev pub zero_regs : Regs
zero_regs = record {
  scratch = 0;
  status = 0;
  int_status = 0;
  int_mask = 0;
  desc_addr = 0;
  desc_count = 0;
  dev_offset = 0;
  dma_ctrl = 0;
  xfer_bytes = 0;
  err_desc = 0;
  xor = 0;
  irq_sent = 0;
  result = 0;
}

-- `LDDPCIEState` with what its code reads of `PCIDevice`: the interrupt mode and the bus master
-- bit. `timer` is the deadline of the armed timer, `mem` the RAM of BAR 2, `effects` the calls out.
pub record Pcie : Type 0 where
  pub dma64 : Bool
  pub max_seg : ℕ
  pub max_desc : ℕ
  pub latency_us : ℕ
  pub regs : Regs
  pub timer : Option ℕ
  pub mem : List ℕ
  pub msix_enabled : Bool
  pub msi_enabled : Bool
  pub master : Bool
  pub effects : List Effect

-- `pci_dma_read` into a buffer and `pci_dma_write` from one, on the guest's memory `Ram`. The
-- Boolean is `== MEMTX_OK`; a read that fails may have changed part of the buffer, and a write that
-- fails part of the memory.
pub record Bus (Ram : Type 0) : Type 0 where
  pub dma_read : Ram → ℕ → List ℕ → Bool × List ℕ
  pub dma_write : Ram → ℕ → List ℕ → Bool × Ram

-- What is documented of DMA: a read fills the buffer it is given and no more; a successful one fills
-- it with what the guest's memory holds there (`peek`), and a successful write changes the bytes it
-- names, to what it is given, and no others.
pub record BusLaws {Ram : Type 0} (bus : Bus Ram) : Type 0 where
  pub peek : Ram → ℕ → ℕ → List ℕ
  pub length-dma_read :
      (ram : Ram) (addr : ℕ) (buf : List ℕ) → length (bus.dma_read ram addr buf).1 ≡ length buf
  pub dma_read_lem :
      (ram : Ram) (addr : ℕ) (buf : List ℕ)
      → (bus.dma_read ram addr buf).0 ≡ true
      → (bus.dma_read ram addr buf).1 ≡ peek ram addr (length buf)
  pub dma_write_lem :
      (ram : Ram) (addr : ℕ) (bytes : List ℕ)
      → (bus.dma_write ram addr bytes).0 ≡ true
      → peek (bus.dma_write ram addr bytes).1 addr (length bytes) ≡ bytes
  pub dma_write_apart :
      (ram : Ram) (addr : ℕ) (bytes : List ℕ) (other n : ℕ)
      → (addr + length bytes ≤ other) ⊎ (other + n ≤ addr)
      → (bus.dma_write ram addr bytes).0 ≡ true
      → peek (bus.dma_write ram addr bytes).1 other n ≡ peek ram other n
