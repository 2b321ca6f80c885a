-- ===== src/Usb/Device.antt =====
-- tools/qemu/hw/ldd/usb.c: the state of ldd-usb, its timer and its endpoints.
use linux_device_driver.Prelude.{
  ℕ, ◌+◌, ◌*◌, ◌/◌, ◌%◌, ◌^◌, Bool, true, false, Option, none, some, List, [], ◌∷◌, ◌++◌, leb, ◌==◌,
  if◌then◌else◌, length, take, min, max,
}

-- `LDDUSBState`: the timer by its deadline in milliseconds, and how often the tick endpoint was woken
-- up (`usb_wakeup`).
pub record Usb : Type 0 where
  pub interval : ℕ
  pub tick_pending : Bool
  pub time : List ℕ
  pub default_interval : ℕ
  pub timer : Option ℕ
  pub wakeups : ℕ

abbrev pub ep_time : ℕ
ep_time = 1

abbrev pub ep_interval : ℕ
ep_interval = 2

abbrev pub ep_tick : ℕ
ep_tick = 3

abbrev pub interval_max : ℕ
interval_max = 3600

-- `p->pid` with what comes with it: the bytes of an OUT packet, the room of an IN packet.
pub data Packet : Type 0 where
  token_out : ℕ → List ℕ → Packet
  token_in : ℕ → ℕ → Packet
  token_setup : Packet

-- What becomes of a packet: it is taken, answered with bytes, or refused.
pub data Reply : Type 0 where
  taken nak stall : Reply
  bytes : List ℕ → Reply

-- `stamp` is what `strftime` writes for the host's local time.
unfoldable pub stamp_time : List ℕ → Usb → Usb
stamp_time stamp s = record s { time = stamp }

-- `now` is the virtual clock in milliseconds.
unfoldable pub arm_timer : ℕ → Usb → Usb
arm_timer now s = record s { timer = some (now + s.interval * 1000) }

unfoldable pub tick : ℕ → List ℕ → Usb → Usb
unfolding stamp_time arm_timer
tick now stamp s =
    let t = arm_timer now (record (stamp_time stamp s) { tick_pending = true }) in
    record t { wakeups = t.wakeups + 1 }

-- The timer at time `now`, by its deadline: an expired one is disarmed and `ldd_usb_tick` runs.
unfoldable pub expire : Option ℕ → ℕ → List ℕ → Usb → Usb
unfolding tick
expire none now stamp s = s
expire (some deadline) now stamp s =
    if leb deadline now then tick now stamp (record s { timer = none }) else s

unfoldable pub handle_reset : ℕ → List ℕ → Usb → Usb
unfolding stamp_time arm_timer
handle_reset now stamp s =
    arm_timer now
      (stamp_time stamp (record s { interval = s.default_interval; tick_pending = false }))

-- `le32_to_cpu` of the bytes of a `uint32_t`, and `cpu_to_le32`
unfoldable pub le32_to_cpu : List ℕ → ℕ
le32_to_cpu [] = 0
le32_to_cpu (b ∷ bs) = b + 2 ^ 8 * le32_to_cpu bs

unfoldable pub cpu_to_le32 : ℕ → List ℕ
cpu_to_le32 v = v % 2 ^ 8 ∷ v / 2 ^ 8 % 2 ^ 8 ∷ v / 2 ^ 16 % 2 ^ 8 ∷ v / 2 ^ 24 % 2 ^ 8 ∷ []

unfoldable pub set_interval : ℕ → List ℕ → Usb → Reply × Usb
unfolding arm_timer le32_to_cpu
set_interval now data_bytes s =
    if length data_bytes == 4
    then (
      taken,
      arm_timer now (record s {
        interval = min (max (le32_to_cpu data_bytes) 1) interval_max;
        tick_pending = false;
      }),
    )
    else (stall, s)

unfoldable pub report_tick : ℕ → Usb → Reply × Usb
unfolding cpu_to_le32
report_tick room s =
    if s.tick_pending
    then (
      bytes (take (min 8 room) (cpu_to_le32 1 ++ cpu_to_le32 s.interval)),
      record s { tick_pending = false },
    )
    else (nak, s)

unfoldable pub handle_data : ℕ → Packet → Usb → Reply × Usb
unfolding set_interval report_tick
handle_data now (token_out ep data_bytes) s =
    if ep == ep_interval then set_interval now data_bytes s else (stall, s)
handle_data now (token_in ep room) s =
    if ep == ep_time
    then (bytes (take (min (length s.time) room) s.time), s)
    else if ep == ep_tick
    then report_tick room s
    else (stall, s)
handle_data now token_setup s = (stall, s)
