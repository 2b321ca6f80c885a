-- ===== src/Msi/Device.antt =====
-- examples/26_msi_interrupt/main.c, main.h: the interrupt handler of an MSI-X vector and the writes to
-- `raise`, against the model of the device.
use linux_device_driver.Prelude.{
  ℕ, zero, suc, ◌+◌, ◌^◌, Bool, true, false, not, ◌&&◌, ◌||◌, List, [], ◌∷◌, ltb, ◌==◌,
  if◌then◌else◌, bit_and,
}
use linux_device_driver.Prelude.Bits.{test_bit, bit_not}
use linux_device_driver.Pcie.State.{Pcie, Bus, int_all}
use linux_device_driver.Pcie.Machine.{Event, write, clock, step}
use linux_device_driver.Pcie.Signals.{messages}

-- The registers that the driver uses, by their offset.
abbrev pub reg_int_status : ℕ
reg_int_status = 0x18

abbrev pub reg_int_mask : ℕ
reg_int_mask = 0x1c

abbrev pub reg_int_raise : ℕ
reg_int_raise = 0x20

abbrev pub ldd_nr_events : ℕ
ldd_nr_events = 3

-- `count` and `last_status` of `struct msi_dev`. `count i` is how often `count[i]` was
-- incremented, which `atomic_read` shows in 32 bits.
pub record Msi : Type 0 where
  pub count : ℕ → ℕ
  pub last_status : ℕ

-- An element of an array gets a new value.
abbrev pub assign : {A : Type 0} → ℕ → A → (ℕ → A) → ℕ → A
assign i x f j = if j == i then x else f j

-- The loop of `count_events` over `n` events from `i` on.
unfoldable pub count_from : ℕ → ℕ → ℕ → (ℕ → ℕ) → ℕ → ℕ
count_from zero i status count = count
count_from (suc n) i status count =
    count_from n (i + 1) status (if test_bit status i then assign i (count i + 1) count else count)

unfoldable pub count_events : ℕ → Msi → Msi
unfolding count_from
count_events status msi = record {
  count = count_from ldd_nr_events 0 status msi.count;
  last_status = status;
}

-- Where the handler of a vector is: it does not run, it has begun, it has cleared its bit.
pub data Stage : Type 0 where
  idle entered acked : Stage

abbrev pub is_idle : Stage → Bool
is_idle idle = true
is_idle entered = false
is_idle acked = false

abbrev pub is_entered : Stage → Bool
is_entered idle = false
is_entered entered = true
is_entered acked = false

abbrev pub is_acked : Stage → Bool
is_acked idle = false
is_acked entered = false
is_acked acked = true

-- The device, the driver, and for each vector whether a message of it waits to be handled, and its handler.
-- A message that comes while one waits is the same to the kernel as that one.
pub record Machine (Ram : Type 0) : Type 0 where
  pub ps : Pcie
  pub ram : Ram
  pub msi : Msi
  pub waiting : ℕ → Bool
  pub stage : ℕ → Stage

-- A step of the machine: the clock reaches a time, a number is written to `raise` at a time, or the handler
-- of a vector begins, clears its bit at a time, or counts and returns.
pub data Act : Type 0 where
  tick : ℕ → Act
  raise : ℕ → ℕ → Act
  enter : ℕ → Act
  ack : ℕ → ℕ → Act
  account : ℕ → Act

-- `vec->bit`
abbrev pub bit_of : ℕ → ℕ
bit_of n = 2 ^ n

-- `raise_store` refuses the number.
abbrev pub refused : ℕ → Bool
refused val = val == 0 || not (bit_and val (bit_not 32 int_all) == 0)

-- The messages that wait once the device has gone from `a` to `b`.
abbrev pub arrived : Pcie → Pcie → (ℕ → Bool) → ℕ → Bool
arrived a b waiting n = waiting n || ltb (messages n a.effects) (messages n b.effects)

module _ {Ram : Type 0} (bus : Bus Ram) where
  unfoldable pub access : Event → Machine Ram → Machine Ram
  access e m =
      let (ps', ram') = step bus m.ps m.ram e in
      record m { ps = ps'; ram = ram'; waiting = arrived m.ps ps' m.waiting }

  -- `raise_store`, once the kernel has made a number of the text.
  abbrev pub raise_store : ℕ → ℕ → Machine Ram → Machine Ram
  raise_store val now m = if refused val then m else access (write reg_int_raise val now) m

  -- `msi_vec_handler` in steps, and what else may happen
  unfoldable pub act : Act → Machine Ram → Machine Ram
  unfolding access count_events
  act (tick now) m = access (clock now) m
  act (raise val now) m = raise_store val now m
  act (enter n) m =
      if m.waiting n && is_idle (m.stage n)
      then record m { waiting = assign n false m.waiting; stage = assign n entered m.stage }
      else m
  act (ack n now) m =
      if is_entered (m.stage n)
      then record (access (write reg_int_status (bit_of n) now) m) {
        stage = assign n acked m.stage;
      }
      else m
  act (account n) m =
      if is_acked (m.stage n)
      then record m { msi = count_events (bit_of n) m.msi; stage = assign n idle m.stage }
      else m

  unfoldable pub run : List Act → Machine Ram → Machine Ram
  unfolding act
  run [] m = m
  run (a ∷ acts) m = run acts (act a m)

  -- What `msi_probe` writes to the device, with no handler running and nothing counted.
  unfoldable pub probe : ℕ → Pcie → Ram → Machine Ram
  unfolding access
  probe now ps ram = access (write reg_int_mask int_all now) (
      access (write reg_int_status int_all now) (
        access (write reg_int_mask 0 now) (record {
          ps = ps;
          ram = ram;
          msi = record { count = λ n. 0; last_status = 0 };
          waiting = λ n. false;
          stage = λ n. idle;
        })))
