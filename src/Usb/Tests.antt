-- ===== src/Usb/Tests.antt =====
-- tools/qemu/hw/ldd/usb.c: the theorems at concrete devices.
use linux_device_driver.Prelude.{
  ℕ, ◌+◌, ◌*◌, ◌≡◌, ◌≤◌, ◌<◌, refl, false, some, List, [], ◌∷◌, ◌++◌, arith,
}
use linux_device_driver.Usb.Device.{
  Usb, token_in, token_out, nak, bytes, expire, cpu_to_le32, set_interval, report_tick, handle_data,
  tick, arm_timer, stamp_time,
}
use linux_device_driver.Usb.Ticks.{
  Event, clock, packet, reset, run, reports, one_if, run-reports, InRange, run-InRange,
  set_interval-report_tick,
}

-- After a reset at time 0, with the default interval of one second.
abbrev ticker : Usb
ticker = record {
  interval = 1;
  tick_pending = false;
  time = [];
  default_interval = 1;
  timer = some 1000;
  wakeups = 0;
}

-- A tick, its report, and a second poll that finds nothing.
abbrev polled : List Event
polled = clock 1000 [] ∷ packet 1001 (token_in 3 8) ∷ packet 1002 (token_in 3 8) ∷ []

one_report : reports polled ticker ≡ 1
unfolding expire handle_data report_tick tick arm_timer stamp_time
one_report = refl

run-reports_example :
    let t = run polled ticker in
    reports polled ticker + one_if t.tick_pending + ticker.wakeups
    ≤ t.wakeups + one_if ticker.tick_pending
run-reports_example = run-reports polled ticker

run-InRange_example :
    InRange (run (packet 5 (token_out 2 (0 ∷ 0 ∷ 0 ∷ 0 ∷ [])) ∷ reset 9 [] ∷ []) ticker)
run-InRange_example =
    run-InRange (packet 5 (token_out 2 (0 ∷ 0 ∷ 0 ∷ 0 ∷ [])) ∷ reset 9 [] ∷ []) ticker (record {
      low = omega arith;
      high = omega arith;
      default_low = omega arith;
      default_high = omega arith;
      armed = (1000, refl);
    })

set_interval-report_tick_example :
    let s' = (set_interval 500 (cpu_to_le32 10) ticker).1 in
    ((t : ℕ) → t < 500 + 10 * 1000 → (report_tick 8 (expire s'.timer t [] s')).0 ≡ nak)
    × ((t : ℕ)
        → 500 + 10 * 1000 ≤ t
        → let (reply, s'') = report_tick 8 (expire s'.timer t [] s') in
          (reply ≡ bytes (cpu_to_le32 1 ++ cpu_to_le32 10)) × ((report_tick 8 s'').0 ≡ nak))
set_interval-report_tick_example =
    set_interval-report_tick 500 10 8 [] ticker (omega arith) (omega arith) (omega arith)
