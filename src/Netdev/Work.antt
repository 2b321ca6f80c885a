-- ===== src/Netdev/Work.antt =====
-- examples/30_netdev/main.c: the threads that will see to a received frame when NAPI is used.
use linux_device_driver.Prelude.{ℕ, ◌+◌, ◌≤◌, ◌≡◌, ◌⊎◌, Bool, true, false, ◌&&◌, List, []}
use linux_device_driver.Netdev.Device.{
  Dev, same, Phase, closed, enabled, running, up, stopping, draining, Side, Task, interrupt, quiet,
  schedule, wake, poll, complete, look, is_empty,
}
use linux_device_driver.Netdev.Threads.{sum, sum_all}

-- The phases in which frames are accepted, in which NAPI is enabled, and in which nothing is queued.
abbrev pub accepts : Phase → Bool
accepts running = true
accepts up = true
accepts stopping = true
accepts _ = false

abbrev pub napi_runs : Phase → Bool
napi_runs closed = false
napi_runs draining = false
napi_runs _ = true

abbrev pub is_drained : Phase → Bool
is_drained closed = true
is_drained enabled = true
is_drained _ = false

abbrev pub one : Bool → ℕ
one true = 1
one false = 0

module _ (d : Dev) where
  -- A thread at work on the poll list: it polls, or is about to leave the list.
  abbrev pub polls : Task → ℕ
  polls (poll e n) = one (same d e)
  polls (complete e) = one (same d e)
  polls _ = 0

  -- A thread that will look at the receive queue again, or have it polled.
  abbrev pub turns : Task → ℕ
  turns (schedule e) = one (same d e)
  turns (look e) = one (same d e)
  turns _ = 0

  abbrev pub quiets : Task → ℕ
  quiets (quiet e) = one (same d e)
  quiets _ = 0

  abbrev pub wakes : Task → ℕ
  wakes (wake e) = one (same d e)
  wakes _ = 0

  abbrev pub interrupts : Task → ℕ
  interrupts (interrupt e) = one (same d e)
  interrupts _ = 0

-- What the device and its threads are up to, as numbers: threads that poll, that will look again, that
-- are about to turn receive interrupts off, that are about to read the interrupt status, and that are about
-- to wake the queue.
pub record Work : Type 0 where
  pub polling : ℕ
  pub turning : ℕ
  pub quieting : ℕ
  pub interrupting : ℕ
  pub waking : ℕ

abbrev pub work_of : Dev → List (List Task) → Work
work_of d tss = record {
  polling = sum_all (polls d) tss;
  turning = sum_all (turns d) tss;
  quieting = sum_all (quiets d) tss;
  interrupting = sum_all (interrupts d) tss;
  waking = sum_all (wakes d) tss;
}

-- What holds of a device, with NAPI or without: its flags fit its phase; if it is scheduled it is on the
-- poll list or a thread polls it; with interrupts off, a thread will look at the queue; a frame that
-- waits is seen to; and a stopped queue with free buffers is about to be woken up.
pub record Covered (n : Bool) (x : Side) (w : Work) : Type 0 where
  pub runs : x.running ≡ accepts x.phase
  pub napi : x.napi_on ≡ (n && napi_runs x.phase)
  pub drained : is_drained x.phase ≡ true → x.rx ≡ []
  pub alive : x.scheduled ≡ true → 1 ≤ one x.listed + w.polling
  pub looked :
      n ≡ true
      → x.running ≡ true
      → x.rx_int_enabled ≡ false
      → 1 ≤ one x.listed + w.polling + w.turning
  pub heard :
      n ≡ true
      → x.running ≡ true
      → is_empty x.rx ≡ false
      → ((1 ≤ one x.listed + w.polling + w.turning + w.quieting)
          ⊎ ((x.rx_intr ≡ true) × (1 ≤ w.interrupting)))
  pub woken : x.phase ≡ up → x.stopped ≡ true → is_empty x.pool ≡ false → 1 ≤ w.waking

-- The work with the tasks of a list added.
abbrev pub plus : Dev → Work → List Task → Work
plus d w ts = record {
  polling = w.polling + sum (polls d) ts;
  turning = w.turning + sum (turns d) ts;
  quieting = w.quieting + sum (quiets d) ts;
  interrupting = w.interrupting + sum (interrupts d) ts;
  waking = w.waking + sum (wakes d) ts;
}

-- The tasks of a list are nothing to the device.
abbrev pub Apart : Dev → List Task → Type 0
Apart d ts =
    (sum (polls d) ts ≡ 0)
    × (sum (turns d) ts ≡ 0)
    × (sum (quiets d) ts ≡ 0)
    × (sum (interrupts d) ts ≡ 0)
    × (sum (wakes d) ts ≡ 0)

-- A section, which does the tasks `before` and leaves those of its result.
abbrev pub Goes : Bool → Dev → Work → Side → List Task → Side × List Task → Type 0
Goes n d w x before r = Covered n x (plus d w before) → Covered n r.0 (plus d w r.1)
