-- ===== src/Netdev/Created.antt =====
-- examples/30_netdev/main.c: the two devices from `m_init` on.
use linux_device_driver.Prelude.{
  ℕ, zero, suc, ◌+◌, ◌≤◌, ◌<◌, ◌≡◌, ◌⊎◌, refl, ◌∙◌, Bool, true, false, none, List, [], ◌==◌,
  replicate, arith, Bool-cases, inl, inr,
}
use linux_device_driver.Netdev.Device.{
  Dev, sn0, sn1, same, closed, up, Side, Task, Net, side, is_empty,
}
use linux_device_driver.Netdev.Steps.{Call, run, pool_from}
use linux_device_driver.Netdev.Threads.{sum_all}
use linux_device_driver.Netdev.Buffers.{holds, count, places, run-places}
use linux_device_driver.Netdev.Work.{work_of, Covered, one}
use linux_device_driver.Netdev.Stranded.{run-Covered}

-- What `ldd_create` leaves: a closed device whose pool is all of `pkt_arr`.
unfoldable pub create : Dev → ℕ → Side
unfolding pool_from
create d pool_size = record {
  phase = closed;
  running = false;
  rx_int_enabled = false;
  rx_intr = false;
  tx_intr = false;
  pool = pool_from d 0 pool_size;
  rx = [];
  tx_skb = none;
  stopped = false;
  napi_on = false;
  scheduled = false;
  listed = false;
  stats = record {
    tx_packets = 0;
    tx_bytes = 0;
    tx_dropped = 0;
    rx_packets = 0;
    rx_bytes = 0;
    rx_dropped = 0;
  };
  passed = [];
}

-- `m_init`, and any number of threads with nothing to do yet.
unfoldable pub init : Bool → ℕ → ℕ → Net
unfolding create
init use_napi pool_size threads = record {
  use_napi = use_napi;
  side0 = create sn0 pool_size;
  side1 = create sn1 pool_size;
  threads = replicate threads [];
}

idle : (f : Task → ℕ) (k : ℕ) → sum_all f (replicate k []) ≡ 0
idle f zero = refl
idle f (suc k) = omega (arith, idle f k)

-- A pool holds each of its buffers once, and none of the other device.
module _ (d e : Dev) (k : ℕ) where
  count-foreign : (j n : ℕ) → same d e ≡ false → count d k (pool_from e j n) ≡ 0
  unfolding pool_from
  count-foreign j zero h = refl
  count-foreign j (suc n) h = let r = count-foreign (j + 1) n h in ground arith

  count-behind : (j n : ℕ) → k < j → count d k (pool_from e j n) ≡ 0
  unfolding pool_from
  count-behind j zero h = refl
  count-behind j (suc n) h = let r = count-behind (j + 1) n (omega arith) in ground arith

  count-own : (j n : ℕ) → same d e ≡ true → j ≤ k → k < j + n → count d k (pool_from e j n) ≡ 1
  unfolding pool_from
  count-own j zero h a b = absurd (omega arith)
  count-own j (suc n) h a b = elim (Bool-cases (j == k)) [
    | inl q ↦ let r = count-behind (j + 1) n (ground arith) in ground arith
    | inr q ↦ let r = count-own (j + 1) n h (ground arith) (omega arith) in ground arith
  ]

init-places :
    (d : Dev) (k : ℕ) (use_napi : Bool) (pool_size threads : ℕ)
    → k < pool_size
    → places d k (init use_napi pool_size threads) ≡ 1
unfolding init create
init-places sn0 k m n t h = omega (
  arith,
  count-own sn0 sn0 k 0 n refl (omega arith) (omega arith),
  count-foreign sn0 sn1 k 0 n refl,
  idle (holds sn0 k) t,
)
init-places sn1 k m n t h = omega (
  arith,
  count-own sn1 sn1 k 0 n refl (omega arith) (omega arith),
  count-foreign sn1 sn0 k 0 n refl,
  idle (holds sn1 k) t,
)

init-Covered :
    (d : Dev) (use_napi : Bool) (pool_size threads : ℕ)
    → Covered use_napi
        (side d (init use_napi pool_size threads))
        (work_of d (init use_napi pool_size threads).threads)
unfolding init create
init-Covered sn0 m n t = ground arith
init-Covered sn1 m n t = ground arith

module _ (check : List ℕ → List ℕ) (pool_size threads : ℕ) (es : List (ℕ × Bool × Call)) where
  -- The devices and threads after the steps.
  abbrev pub reached : Bool → Net
  reached use_napi = run check es (init use_napi pool_size threads)

  -- From `m_init` on, however sending, receiving, polling, opening and closing interleave in any number of
  -- threads, and whatever memory there is, with NAPI or without: each buffer of each device's pool is in
  -- exactly one place, a pool, a receive queue or the hands of a thread. None is lost, none used twice.
  pub run-init-once :
      (d : Dev) (use_napi : Bool) (k : ℕ) → k < pool_size → places d k (reached use_napi) ≡ 1
  run-init-once d m k h =
      run-places d k check es (init m pool_size threads) ∙ init-places d k m pool_size threads h

  run-init-Covered :
      (d : Dev) (use_napi : Bool)
      → Covered use_napi
          (side d (run check es (init use_napi pool_size threads)))
          (work_of d (run check es (init use_napi pool_size threads)).threads)
  unfolding init
  run-init-Covered d m =
      run-Covered check d m es (init m pool_size threads) refl (init-Covered d m pool_size threads)

  -- With NAPI, after any interleaving from `m_init` on: while a device accepts frames and a received one
  -- waits, the device is on the list of those to poll, or a thread polls it, is about to schedule it, to
  -- look at the queue again, or to turn its interrupts off and schedule it, or else the receive interrupt
  -- is pending and a thread is about to take it. No frame is left behind, also one that arrives between
  -- the end of a poll and the moment interrupts are on again.
  pub run-init-seen :
      (d : Dev)
      → (side d (reached true)).running ≡ true
      → is_empty (side d (reached true)).rx ≡ false
      → (1
          ≤ one (side d (reached true)).listed
            + (work_of d (reached true).threads).polling
            + (work_of d (reached true).threads).turning
            + (work_of d (reached true).threads).quieting)
        ⊎ (((side d (reached true)).rx_intr ≡ true)
            × (1 ≤ (work_of d (reached true).threads).interrupting))
  run-init-seen d = (run-init-Covered d true).heard refl

  -- With NAPI or without, after any interleaving from `m_init` on: if a device is open, its transmit queue
  -- is stopped and a buffer is free, then a thread is about to wake the queue. The queue never stays
  -- stopped while it could send.
  pub run-init-woken :
      (d : Dev) (use_napi : Bool)
      → (side d (reached use_napi)).phase ≡ up
      → (side d (reached use_napi)).stopped ≡ true
      → is_empty (side d (reached use_napi)).pool ≡ false
      → 1 ≤ (work_of d (reached use_napi).threads).waking
  run-init-woken d m = (run-init-Covered d m).woken
