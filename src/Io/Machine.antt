-- ===== src/Io/Machine.antt =====
-- tools/qemu/hw/ldd/io.c: the device as QEMU drives it, and what `ldd_io_realize` accepts.
use linux_device_driver.Prelude.{
  ℕ, ◌-◌, ◌%◌, ◌==◌, ltb, leb, Bool, not, ◌&&◌, List, [], ◌∷◌, if◌then◌else◌,
}
use linux_device_driver.Io.State.{Io}
use linux_device_driver.Io.Output.{panel_writable}
use linux_device_driver.Io.Device.{
  write, keyboard_receive, reset_enter, reset_exit, panel_opened, panel_closed,
}

-- What reaches the device: a write of the guest, a byte of the keyboard, the panel's watch, a viewer
-- that comes or goes, a reset, and the end of a migration.
pub data Event : Type 0 where
  store : (addr val size : ℕ) → Event
  key : ℕ → Event
  writable opened closed restart loaded : Event

unfoldable pub step : Event → Io → Io
unfolding write keyboard_receive panel_writable panel_opened panel_closed reset_enter reset_exit
step (store addr val size) s = write addr val size s
step (key byte) s = keyboard_receive byte s
step writable s = panel_writable s
step opened s = panel_opened s
step closed s = panel_closed s
step restart s = reset_exit (reset_enter s)
step loaded s = reset_exit s

unfoldable pub run : List Event → Io → Io
unfolding step
run [] s = s
run (e ∷ es) s = run es (step e s)

-- The value `ldd_io_realize` gives: which of its tests fails first, or success.
pub data Realize : Type 0 where
  bad_irq bad_iobase unaligned overlaps realized : Realize

-- `ISA_NUM_IRQS`, `LDD_IO_SIZE` and `LDD_IO_PORT_LIMIT`
abbrev pub isa_num_irqs : ℕ
isa_num_irqs = 16

abbrev pub io_size : ℕ
io_size = 16

abbrev pub port_limit : ℕ
port_limit = 0x10000

-- The tests of `ldd_io_realize`; `mapped` says whether `memory_region_find` finds a region in the 16
-- bytes from an address on.
unfoldable pub realize : (ℕ → Bool) → Io → Realize
realize mapped s =
    if leb isa_num_irqs s.isairq
    then bad_irq
    else if not s.mmio && ltb (port_limit - io_size) s.iobase
    then bad_iobase
    else if s.mmio && not (s.mmiobase % io_size == 0)
    then unaligned
    else if s.mmio && mapped s.mmiobase
    then overlaps
    else realized
