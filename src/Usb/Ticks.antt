-- ===== src/Usb/Ticks.antt =====
-- tools/qemu/hw/ldd/usb.c: one report for a tick, at the interval that the driver has set.
use linux_device_driver.Prelude.{
  ℕ, ◌+◌, ◌*◌, ◌^◌, ◌≡◌, ◌≤◌, ◌<◌, refl, sym, ap, Bool, false, Option, none, some, List, [], ◌∷◌,
  ◌++◌, leb, ◌==◌, if◌then◌else◌, if_cases, length, take, min, max, arith, subst,
}
use linux_device_driver.Usb.Device.{
  Usb, Packet, token_in, token_out, token_setup, Reply, nak, bytes, ep_tick, ep_time, ep_interval,
  interval_max, stamp_time, arm_timer, tick, expire, handle_reset, le32_to_cpu, cpu_to_le32,
  set_interval, report_tick, handle_data,
}

-- What reaches the device: its timer's clock, a reset, a packet, each with the time.
pub data Event : Type 0 where
  clock : ℕ → List ℕ → Event
  reset : ℕ → List ℕ → Event
  packet : ℕ → Packet → Event

abbrev pub step : Event → Usb → Usb
step (clock now stamp) s = expire s.timer now stamp s
step (reset now stamp) s = handle_reset now stamp s
step (packet now p) s = (handle_data now p s).1

abbrev pub run : List Event → Usb → Usb
run [] s = s
run (e ∷ es) s = run es (step e s)

abbrev is_bytes : Reply → ℕ
is_bytes (bytes bs) = 1
is_bytes _ = 0

-- Whether an event has a report of a tick for its answer.
abbrev reported : Event → Usb → ℕ
reported (packet now (token_in ep room)) s =
    if ep == ep_tick then is_bytes ((handle_data now (token_in ep room) s).0) else 0
reported _ s = 0

abbrev pub reports : List Event → Usb → ℕ
reports [] s = 0
reports (e ∷ es) s = reported e s + reports es (step e s)

abbrev pub one_if : Bool → ℕ
one_if b = if b then 1 else 0

-- With the ticks before `s` and what is pending there, an event has no more reports than ticks.
abbrev Balanced : ℕ → Usb → Usb → Type 0
Balanced n s t = n + one_if t.tick_pending + s.wakeups ≤ t.wakeups + one_if s.tick_pending

expire-Balanced :
    (o : Option ℕ) (now : ℕ) (stamp : List ℕ) (s : Usb) → Balanced 0 s (expire o now stamp s)
unfolding expire tick stamp_time arm_timer
expire-Balanced none now stamp s = omega arith
expire-Balanced (some d) now stamp s = ground arith

step-Balanced : (e : Event) (s : Usb) → Balanced (reported e s) s (step e s)
unfolding handle_reset stamp_time arm_timer handle_data set_interval report_tick
step-Balanced (clock now stamp) s = expire-Balanced s.timer now stamp s
step-Balanced (reset now stamp) s = ground arith
step-Balanced (packet now (token_out ep bs)) s = ground arith
step-Balanced (packet now (token_in ep room)) s = ground arith
step-Balanced (packet now token_setup) s = ground arith

-- Through any events the tick endpoint answers with at most one report for each tick, and never with
-- one for a tick that is still to come: a report that is pending at the end is another tick.
pub run-reports :
    (es : List Event) (s : Usb)
    → let t = run es s in
      reports es s + one_if t.tick_pending + s.wakeups ≤ t.wakeups + one_if s.tick_pending
run-reports [] s = omega arith
run-reports (e ∷ es) s = omega (arith, step-Balanced e s, run-reports es (step e s))

le32-roundtrip : (v : ℕ) → v < 2 ^ 32 → le32_to_cpu (cpu_to_le32 v) ≡ v
unfolding le32_to_cpu cpu_to_le32
le32-roundtrip v h = omega arith

-- The interval is what the driver may set, and the timer runs.
pub record InRange (s : Usb) : Type 0 where
  pub low : 1 ≤ s.interval
  pub high : s.interval ≤ interval_max
  pub default_low : 1 ≤ s.default_interval
  pub default_high : s.default_interval ≤ interval_max
  pub armed : (d : ℕ) × (s.timer ≡ some d)

expire-InRange :
    (d now : ℕ) (stamp : List ℕ) (s : Usb) → InRange s → InRange (expire (some d) now stamp s)
unfolding expire tick stamp_time arm_timer
expire-InRange d now stamp s r =
    if_cases InRange (leb d now)
      (λ _. record {
        low = r.low;
        high = r.high;
        default_low = r.default_low;
        default_high = r.default_high;
        armed = (now + s.interval * 1000, refl);
      })
      λ _. r

set_interval-InRange :
    (now : ℕ) (bs : List ℕ) (s : Usb) → InRange s → InRange (set_interval now bs s).1
unfolding set_interval arm_timer
set_interval-InRange now bs s r =
    if_cases (λ (t : Reply × Usb). InRange t.1) (length bs == 4)
      (λ _. record {
        low = omega arith;
        high = omega arith;
        default_low = r.default_low;
        default_high = r.default_high;
        armed = (_, refl);
      })
      λ _. r

report_tick-InRange : (room : ℕ) (s : Usb) → InRange s → InRange (report_tick room s).1
unfolding report_tick
report_tick-InRange room s r =
    if_cases (λ (t : Reply × Usb). InRange t.1) s.tick_pending
      (λ _. record {
        low = r.low;
        high = r.high;
        default_low = r.default_low;
        default_high = r.default_high;
        armed = r.armed;
      })
      λ _. r

handle_data-InRange : (now : ℕ) (p : Packet) (s : Usb) → InRange s → InRange (handle_data now p s).1
unfolding handle_data
handle_data-InRange now (token_out ep bs) s r =
    if_cases (λ (t : Reply × Usb). InRange t.1) (ep == ep_interval)
      (λ _. set_interval-InRange now bs s r) λ _. r
handle_data-InRange now (token_in ep room) s r =
    if_cases (λ (t : Reply × Usb). InRange t.1) (ep == ep_time) (λ _. r)
      λ _.
        if_cases (λ (t : Reply × Usb). InRange t.1) (ep == ep_tick)
          (λ _. report_tick-InRange room s r) λ _. r
handle_data-InRange now token_setup s r = r

step-InRange : (e : Event) (s : Usb) → InRange s → InRange (step e s)
unfolding handle_reset stamp_time arm_timer
step-InRange (clock now stamp) s r =
    let (d, e) = r.armed in
    subst (λ o. InRange (expire o now stamp s)) (sym e) (expire-InRange d now stamp s r)
step-InRange (reset now stamp) s r = record {
  low = r.default_low;
  high = r.default_high;
  default_low = r.default_low;
  default_high = r.default_high;
  armed = (_, refl);
}
step-InRange (packet now p) s r = handle_data-InRange now p s r

-- Whatever the driver and the host do, packets of any length and content included, the interval stays
-- from 1 to 3600 seconds and the timer stays armed, if the default interval is in that range.
pub run-InRange : (es : List Event) (s : Usb) → InRange s → InRange (run es s)
run-InRange [] s r = r
run-InRange (e ∷ es) s r = run-InRange es (step e s) (step-InRange e s r)

abbrev set_to : ℕ → ℕ → Usb → Usb
set_to now v s = record s { interval = v; tick_pending = false; timer = some (now + v * 1000) }

set_interval-cpu_to_le32 :
    (now v : ℕ) (s : Usb)
    → 1 ≤ v
    → v ≤ interval_max
    → (set_interval now (cpu_to_le32 v) s).1 ≡ set_to now v s
unfolding set_interval arm_timer cpu_to_le32
set_interval-cpu_to_le32 now v s lo hi =
    let back = le32-roundtrip v (omega arith) in
    let clamp : min (max (le32_to_cpu (cpu_to_le32 v)) 1) interval_max ≡ v = omega (arith, back) in
    ap (λ i. set_to now i s) clamp

early :
    (now v t room : ℕ) (stamp : List ℕ) (s : Usb)
    → t < now + v * 1000
    → (report_tick room (expire (some (now + v * 1000)) t stamp (set_to now v s))).0 ≡ nak
unfolding expire report_tick
early now v t room stamp s lt =
    if_cases (λ (x : Usb). (report_tick room x).0 ≡ nak) (leb (now + v * 1000) t)
      (λ e. absurd (ground arith)) λ _. refl

late :
    (now v t room : ℕ) (stamp : List ℕ) (s : Usb)
    → now + v * 1000 ≤ t
    → 8 ≤ room
    → let (reply, s'') =
        report_tick room (expire (some (now + v * 1000)) t stamp (set_to now v s)) in
      (reply ≡ bytes (cpu_to_le32 1 ++ cpu_to_le32 v)) × ((report_tick room s'').0 ≡ nak)
unfolding expire report_tick tick stamp_time arm_timer cpu_to_le32
late now v t room stamp s le wide =
    let all : min 8 room ≡ 8 = omega arith in
    let whole = cpu_to_le32 1 ++ cpu_to_le32 v in
    if_cases
      (λ (x : Usb).
        ((report_tick room x).0 ≡ bytes whole)
        × ((report_tick room (report_tick room x).1).0 ≡ nak))
      (leb (now + v * 1000) t) (λ _. (ap (λ n. bytes (take n whole)) all, refl))
      λ e. absurd (ground arith)

-- After the driver has set an interval of 1 to 3600 seconds the tick endpoint has nothing until that
-- time has passed; then it reports the interval, once, and has nothing again.
pub set_interval-report_tick :
    (now v room : ℕ) (stamp : List ℕ) (s : Usb)
    → 1 ≤ v
    → v ≤ interval_max
    → 8 ≤ room
    → let s' = (set_interval now (cpu_to_le32 v) s).1 in
      ((t : ℕ) → t < now + v * 1000 → (report_tick room (expire s'.timer t stamp s')).0 ≡ nak)
      × ((t : ℕ)
          → now + v * 1000 ≤ t
          → let (reply, s'') = report_tick room (expire s'.timer t stamp s') in
            (reply ≡ bytes (cpu_to_le32 1 ++ cpu_to_le32 v)) × ((report_tick room s'').0 ≡ nak))
set_interval-report_tick now v room stamp s lo hi wide =
    subst
      (λ (s' : Usb).
        ((t : ℕ) → t < now + v * 1000 → (report_tick room (expire s'.timer t stamp s')).0 ≡ nak)
        × ((t : ℕ)
            → now + v * 1000 ≤ t
            → let (reply, s'') = report_tick room (expire s'.timer t stamp s') in
              (reply ≡ bytes (cpu_to_le32 1 ++ cpu_to_le32 v)) × ((report_tick room s'').0 ≡ nak)))
      (sym (set_interval-cpu_to_le32 now v s lo hi))
      (λ t lt. early now v t room stamp s lt, λ t le. late now v t room stamp s le wide)
