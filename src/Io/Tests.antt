-- ===== src/Io/Tests.antt =====
-- tools/qemu/hw/ldd/io.c: the theorems at concrete devices, and runs that can be followed.
use linux_device_driver.Prelude.{◌<◌, ◌≡◌, refl, true, false, [], ◌∷◌, arith}
use linux_device_driver.Prelude.Bits.{test_bit, bit_not}
use linux_device_driver.Io.State.{Io, took, again, gone}
use linux_device_driver.Io.Device.{read, write, can_receive}
use linux_device_driver.Io.Machine.{store, key, restart, step, run}
use linux_device_driver.Io.Frame.{count, is_pulse, is_accept}
use linux_device_driver.Io.Keyboard.{step-Pulses, step-Wakes, Pulses}
use linux_device_driver.Io.Matrix.{read-write_matrix}
use linux_device_driver.Io.Invariant.{IsValid, run-IsValid}

-- A device after reset, whose panel device will take 100 bytes, then none.
abbrev fresh : Io
fresh = record {
  iobase = 0x300;
  mmio = false;
  mmiobase = 0;
  isairq = 7;
  data_out = 0;
  data_in = 0;
  status = 0;
  ctrl = 0;
  matrix = 0 ∷ 0 ∷ 0 ∷ 0 ∷ 0 ∷ 0 ∷ 0 ∷ 0 ∷ [];
  irq_pulses = 0;
  panel_out = [];
  panel_watch = false;
  panel_dirty = false;
  attached = true;
  can_watch = true;
  answers = took 100 ∷ again ∷ [];
  effects = [];
}

-- A byte waits while interrupts are off, and no device shows the panel.
abbrev holding : Io
holding = record fresh { data_in = 0x41; status = 1; attached = false }

enable_pulses : count is_pulse (step (store 2 1 1) holding).effects ≡ 1
unfolding step write count test_bit
enable_pulses = refl

step-Pulses_example : Pulses holding (step (store 2 1 1) holding)
step-Pulses_example = step-Pulses (store 2 1 1) holding tt

step-Wakes_example :
    count is_accept holding.effects < count is_accept (step (store 1 1 1) holding).effects
unfolding can_receive test_bit step bit_not
step-Wakes_example = step-Wakes (store 1 1 1) holding refl refl

-- A write without a viewer fails for good, then a viewer comes.
abbrev first_gone : Io
first_gone = record fresh { answers = gone ∷ took 100 ∷ again ∷ [] }

read-write_matrix_example : read 10 2 (write 10 0x1234 2 fresh) ≡ 0x1234
read-write_matrix_example =
    read-write_matrix 10 0x1234 2 fresh (omega arith) (omega arith) (omega arith) (omega arith)

fresh-IsValid : IsValid fresh
fresh-IsValid = record {
  status_bits = omega arith;
  ctrl_bits = omega arith;
  in_byte = omega arith;
  out_byte = omega arith;
  rows = refl;
  row_bytes = ground arith;
  counter = omega arith;
}

run-IsValid_example : IsValid (run (key 0x41 ∷ store 2 0xff 1 ∷ restart ∷ []) fresh)
run-IsValid_example =
    run-IsValid (key 0x41 ∷ store 2 0xff 1 ∷ restart ∷ []) fresh (omega arith, (tt, (tt, tt)))
      fresh-IsValid
