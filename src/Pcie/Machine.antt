-- ===== src/Pcie/Machine.antt =====
-- tools/qemu/hw/ldd/pcie.c: the device as a state machine over what the guest and the virtual clock
-- do to it, in the order in which they do it.
use linux_device_driver.Prelude.{
  ℕ, ◌-◌, ◌==◌, Bool, not, ◌&&◌, ◌||◌, ltb, bit_and, Option, some, none, List, [], ◌∷◌, ◌≡◌,
  if◌then◌else◌, replicate, length, length-replicate,
}
use linux_device_driver.Pcie.State.{Pcie, Bus, zero_regs, ldd_mem_size}
use linux_device_driver.Pcie.Irq.{reset}
use linux_device_driver.Pcie.Transfer.{run_timer}
use linux_device_driver.Pcie.Bar0.{bar0_write}

pub data Event : Type 0 where
  -- a write of `val` to offset `a` at time `now`
  write : ℕ → ℕ → ℕ → Event
  -- the clock of the timers reaches `now`
  clock : ℕ → Event
  -- the device model is reset
  qdev_reset : Event
  -- a write to the configuration space, with the interrupt mode (MSI-X, MSI) and the bus master bit
  -- that the PCI core then reads from it, and whether it initiates a function level reset
  write_config : Bool → Bool → Bool → Bool → Event

-- `ldd_pcie_write_config`
abbrev pub configure : Bool → Bool → Bool → Bool → Pcie → Pcie
configure msix msi bus_master flr ps =
    let ps' = record ps { msix_enabled = msix; msi_enabled = msi; master = bus_master } in
    if flr then reset ps' else ps'

module _ {Ram : Type 0} (bus : Bus Ram) where
  unfoldable pub step : Pcie → Ram → Event → Pcie × Ram
  step ps ram (write a val now) = bar0_write bus a val now ps ram
  step ps ram (clock now) = (run_timer now ps, ram)
  step ps ram qdev_reset = (reset ps, ram)
  step ps ram (write_config msix msi bus_master flr) = (configure msix msi bus_master flr ps, ram)

  unfoldable pub run : Pcie → Ram → List Event → Pcie × Ram
  run ps ram [] = (ps, ram)
  run ps ram (e ∷ es) = let (ps', ram') = step ps ram e in run ps' ram' es

-- `memory_region_init_ram`: zeroed memory of `n` bytes
pub blank : ℕ → List ℕ
blank n = replicate n 0

pub length-blank : (n : ℕ) → length (blank n) ≡ n
unfolding blank
length-blank n = length-replicate n 0

-- The device after `ldd_pcie_realize`, with the properties that it has accepted.
unfoldable pub realized : Bool → ℕ → ℕ → ℕ → Pcie
realized wide seg descs latency = record {
  dma64 = wide;
  max_seg = seg;
  max_desc = descs;
  latency_us = latency;
  regs = zero_regs;
  timer = none;
  mem = blank ldd_mem_size;
  msix_enabled = Bool.false;
  msi_enabled = Bool.false;
  master = Bool.false;
  effects = [];
}

-- `is_power_of_2` of the host utilities
abbrev is_power_of_2 : ℕ → Bool
is_power_of_2 n = not (n == 0) && bit_and n (n - 1) == 0

-- `ldd_pcie_realize`; `setup` says whether the calls of the PCI and memory core succeed, and `none`
-- is an error.
unfoldable pub realize : Bool → Bool → ℕ → ℕ → ℕ → Option Pcie
unfolding realized
realize setup wide seg descs latency =
    if ltb seg 512 || ltb 0x10_0000 seg || not (is_power_of_2 seg)
    then none
    else if ltb descs 1 || ltb 4096 descs
    then none
    else if setup
    then some (realized wide seg descs latency)
    else none
