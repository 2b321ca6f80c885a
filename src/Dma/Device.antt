-- ===== src/Dma/Device.antt =====
-- examples/27_dma/main.c, main.h: the driver of ldd-pcie, against the model of the device.
use linux_device_driver.Prelude.{
  ℕ, zero, suc, ◌/◌, ◌%◌, ◌^◌, Bool, true, false, not, Option, none, some, List, [], ◌∷◌, ◌++◌,
  ◌==◌, if◌then◌else◌, take, blit, bit_and,
}
use linux_device_driver.Pcie.State.{Pcie, Bus}
use linux_device_driver.Pcie.Irq.{pending}
use linux_device_driver.Pcie.Transfer.{run_timer}
use linux_device_driver.Pcie.Bar0.{bar0_read, bar0_write}

-- DMA_TO_DEVICE and DMA_FROM_DEVICE
pub data Dir : Type 0 where
  to_device from_device : Dir

-- What a transfer or a call returns.
pub data Ret : Type 0 where
  done : ℕ → Ret
  enomem etimedout eio enospc enodev efault erestartsys : Ret

-- The registers that the driver uses, by their offset.
abbrev pub reg_ctrl : ℕ
reg_ctrl = 0x10

abbrev pub reg_int_status : ℕ
reg_int_status = 0x18

abbrev pub reg_int_mask : ℕ
reg_int_mask = 0x1c

abbrev pub reg_desc_addr_lo : ℕ
reg_desc_addr_lo = 0x40

abbrev pub reg_desc_addr_hi : ℕ
reg_desc_addr_hi = 0x44

abbrev pub reg_desc_count : ℕ
reg_desc_count = 0x48

abbrev pub reg_dev_offset : ℕ
reg_dev_offset = 0x4c

abbrev pub reg_dma_ctrl : ℕ
reg_dma_ctrl = 0x50

abbrev pub reg_xor : ℕ
reg_xor = 0x5c

-- LDD_INT_DMA_DONE | LDD_INT_DMA_ERROR
abbrev pub int_bits : ℕ
int_bits = 3

-- The machine between driver and device: the device's bus, and what the CPU stores to and loads from
-- memory at the address that the device has for it.
pub record Host (Ram : Type 0) : Type 0 where
  pub bus : Bus Ram
  pub store : Ram → ℕ → List ℕ → Ram
  pub load : Ram → ℕ → ℕ → List ℕ

-- `struct dma_dev`, with the module parameter `xor`. `completed` is the state of `dma_done`.
pub record Dma : Type 0 where
  pub desc_bus : ℕ
  pub chunk : ℕ
  pub xor : ℕ
  pub buf : List ℕ
  pub int_status : ℕ
  pub completed : Bool
  pub removed : Bool

-- The driver, the device and the memory.
pub record Machine (Ram : Type 0) : Type 0 where
  pub dma : Dma
  pub ps : Pcie
  pub ram : Ram

-- What befalls a transfer: the address that `dma_map_single` gives, if it does; the device's clock at the
-- start; and the time that this clock reaches before the wait times out, if it goes on at all.
pub record Luck : Type 0 where
  pub mapped : Option ℕ
  pub now : ℕ
  pub reached : Option ℕ

-- `cpu_to_le64` and `cpu_to_le32`, as bytes
unfoldable pub le_bytes : ℕ → ℕ → List ℕ
le_bytes zero v = []
le_bytes (suc n) v = v % 256 ∷ le_bytes n (v / 256)

-- `dma->desc[0]`
unfoldable pub encode_desc : ℕ → ℕ → List ℕ
unfolding le_bytes
encode_desc bus len = le_bytes 8 bus ++ (le_bytes 4 len ++ le_bytes 4 0)

abbrev pub lower_32_bits : ℕ → ℕ
lower_32_bits a = a % 2 ^ 32

abbrev pub upper_32_bits : ℕ → ℕ
upper_32_bits a = a / 2 ^ 32 % 2 ^ 32

module _ {Ram : Type 0} (host : Host Ram) where
  -- `iowrite32`, one after the other, at time `now`
  unfoldable pub iowrites : ℕ → List (ℕ × ℕ) → Pcie → Ram → Pcie × Ram
  iowrites now [] ps ram = (ps, ram)
  iowrites now ((a, val) ∷ rest) ps ram =
      let (ps', ram') = bar0_write host.bus a val now ps ram in iowrites now rest ps' ram'

  -- The registers for a transfer of `count` descriptors, in the order of the writes.
  abbrev pub table_writes : ℕ → ℕ → ℕ → List (ℕ × ℕ)
  table_writes desc_bus count pos =
      (reg_desc_addr_lo, lower_32_bits desc_bus)
      ∷ (reg_desc_addr_hi, upper_32_bits desc_bus)
      ∷ (reg_desc_count, count)
      ∷ (reg_dev_offset, pos % 2 ^ 32)
      ∷ []

  abbrev pub address_writes : ℕ → ℕ → List (ℕ × ℕ)
  address_writes desc_bus pos = table_writes desc_bus 1 pos

  abbrev pub start_writes : Dir → ℕ → List (ℕ × ℕ)
  start_writes to_device xor = (reg_dma_ctrl, 2) ∷ []
  start_writes from_device xor = (reg_xor, bit_and xor 0xff) ∷ (reg_dma_ctrl, 3) ∷ []

  -- `dma_handler`
  unfoldable pub dma_handler : Machine Ram → Machine Ram
  dma_handler m =
      let status = bit_and (bar0_read reg_int_status m.ps) int_bits in
      let (ps', ram') = bar0_write host.bus reg_int_status status 0 m.ps m.ram in
      if status == 0 then m else record {
        dma = record m.dma { int_status = status; completed = true };
        ps = ps';
        ram = ram';
      }

  -- The wait: when the clock reaches a time the device's timer may run, and a pending interrupt
  -- runs the handler.
  unfoldable pub wait : Option ℕ → Machine Ram → Machine Ram
  unfolding dma_handler
  wait none m = m
  wait (some t) m =
      let m' = record m { ps = run_timer t m.ps } in
      if pending m'.ps == 0 then m' else dma_handler m'

  -- What follows the wait: the reset after a timeout, or the result.
  unfoldable pub settle : ℕ → Machine Ram → Ret × Machine Ram
  unfolding iowrites
  settle now m =
      let (ps', ram') = iowrites now ((reg_ctrl, 1) ∷ (reg_int_mask, int_bits) ∷ []) m.ps m.ram in
      if not m.dma.completed
      then (etimedout, record m { ps = ps'; ram = ram' })
      else if not (bit_and m.dma.int_status 2 == 0)
      then (eio, m)
      else (done 0, m)

  -- `dma_map_single` and `dma_unmap_single`, which bring what the other side sees up to date.
  abbrev pub map_single : Dir → ℕ → ℕ → Machine Ram → Machine Ram
  map_single to_device bus len m = record m { ram = host.store m.ram bus (take len m.dma.buf) }
  map_single from_device bus len m = m

  abbrev pub unmap_single : Dir → ℕ → ℕ → Machine Ram → Machine Ram
  unmap_single to_device bus len m = m
  unmap_single from_device bus len m = record m {
    dma = record m.dma { buf = blit m.dma.buf 0 (host.load m.ram bus len) };
  }

  -- The descriptor and the writes to the registers.
  unfoldable pub launch : ℕ → ℕ → ℕ → Dir → ℕ → Machine Ram → Machine Ram
  unfolding iowrites encode_desc
  launch now pos len dir bus m =
      let ram' = host.store m.ram m.dma.desc_bus (encode_desc bus len) in
      let (ps', ram'') =
        iowrites now (address_writes m.dma.desc_bus pos ++ start_writes dir m.dma.xor) m.ps ram' in
      record { dma = record m.dma { completed = false }; ps = ps'; ram = ram'' }

  unfoldable pub unmapped : Dir → ℕ → ℕ → Ret × Machine Ram → Ret × Machine Ram
  unmapped dir bus len (r, m) = (r, unmap_single dir bus len m)

  unfoldable pub dma_xfer_at : Option ℕ → Luck → ℕ → ℕ → Dir → Machine Ram → Ret × Machine Ram
  unfolding launch wait settle unmapped
  dma_xfer_at none luck pos len dir m = (enomem, m)
  dma_xfer_at (some bus) luck pos len dir m =
      let m' = launch luck.now pos len dir bus (map_single dir bus len m) in
      unmapped dir bus len (settle luck.now (wait luck.reached m'))

  unfoldable pub dma_xfer : Luck → ℕ → ℕ → Dir → Machine Ram → Ret × Machine Ram
  unfolding dma_xfer_at
  dma_xfer luck pos len dir m = dma_xfer_at luck.mapped luck pos len dir m
