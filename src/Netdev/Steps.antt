-- ===== src/Netdev/Steps.antt =====
-- examples/30_netdev/main.c: the calls into the driver, and its threads, step by step.
use linux_device_driver.Prelude.{
  ℕ, ◌+◌, Bool, true, false, not, ◌||◌, Option, none, some, List, [], ◌∷◌, ◌++◌, length, ltb, ◌==◌,
  max, bit_xor, if◌then◌else◌, get_elem?, get_or, set, replicate, blit,
}
use linux_device_driver.Netdev.Device.{
  Dev, ldd_peer, Skb, Packet, Phase, closed, enabled, running, up, stopping, halted, draining, Side,
  Task, enqueue, interrupt, dequeue, quiet, schedule, pass, release, wake, tx_done, mark, poll,
  complete, look, Net, side, put, is_empty, received, rx_lost, sent, enqueue_at, interrupt_at,
  dequeue_at, schedule_at, release_at, poll_at, complete_at, look_at, front, rest,
}

-- A section at one device: its new state, and the tasks that follow.
abbrev pub at : Dev → Side × List Task → Net → Net × List Task
at d (x, ts) s = (put d x s, ts)

-- One task. `luck` is whether the kernel refuses: `dev_alloc_skb` finds no memory, and
-- `napi_complete_done` keeps the device scheduled.
unfoldable pub exec : Bool → Task → Net → Net × List Task
unfolding enqueue_at interrupt_at dequeue_at schedule_at release_at poll_at complete_at look_at
exec luck (enqueue d p) s = at d (enqueue_at d p (side d s)) s
exec luck (interrupt d) s = at d (interrupt_at s.use_napi d (side d s)) s
exec luck (dequeue d) s = at d (dequeue_at d (side d s).rx (side d s)) s
exec luck (quiet d) s = (put d (record (side d s) { rx_int_enabled = false }) s, schedule d ∷ [])
exec luck (schedule d) s = (put d (schedule_at (side d s)) s, [])
exec luck (pass d p) s = (put d (if luck then rx_lost (side d s) else received p (side d s)) s, [])
exec luck (release p) s = at p.dev (release_at p (side p.dev s)) s
exec luck (wake d) s = (put d (record (side d s) { stopped = false }) s, [])
exec luck (tx_done d k) s = (put d (sent k (side d s)) s, [])
exec luck (mark d k) s = (put d (record (side d s) { tx_skb = some k; tx_intr = true }) s, [])
exec luck (poll d n) s = at d (poll_at d n (side d s)) s
exec luck (complete d) s = at d (complete_at luck d (side d s)) s
exec luck (look d) s = at d (look_at d (side d s)) s

-- `ldd_open` and `ldd_stop`, section by section. `napi_disable` waits for the polling to end. The last
-- part of `ldd_stop` gives back what was received and not passed up.
unfoldable pub drain : List Packet → Side → Side × List Task
drain [] x = (record x { phase = closed }, [])
drain (p ∷ ps) x = (record x { rx = ps }, release p ∷ [])

unfoldable pub advance : Bool → Phase → Side → Side × List Task
unfolding drain
advance use_napi closed x = (record x { phase = enabled; napi_on = use_napi }, [])
advance use_napi enabled x =
    (record x { phase = running; running = true; rx_int_enabled = true }, [])
advance use_napi running x = (record x { phase = up; stopped = false }, [])
advance use_napi up x = (record x { phase = stopping; stopped = true }, [])
advance use_napi stopping x =
    (record x { phase = halted; running = false; rx_int_enabled = false }, [])
advance use_napi halted x =
    if x.scheduled then (x, []) else (record x { phase = draining; napi_on = false }, [])
advance use_napi draining x = drain x.rx x

-- Flips the lowest bit of the byte at `i`.
abbrev pub flip : ℕ → List ℕ → List ℕ
flip i bytes = set bytes i (bit_xor (get_or bytes i 0) 1)

abbrev pub eth_zlen : ℕ
eth_zlen = 60

abbrev pub eth_hlen : ℕ
eth_hlen = 14

abbrev pub eth_frame_len : ℕ
eth_frame_len = 1514

-- `htons(ETH_P_IP)`, as the number it stands for
abbrev pub eth_p_ip : ℕ
eth_p_ip = 0x800

-- `sizeof(struct iphdr)`
abbrev pub iphdr_len : ℕ
iphdr_len = 20

-- The frames that `ldd_start_xmit` drops.
unfoldable pub refused : Skb → Bool
refused k =
    not (k.protocol == eth_p_ip)
    || (ltb (length k.bytes) (eth_hlen + iphdr_len) || ltb eth_frame_len (length k.bytes))

-- What a call to the driver does first.
pub data Call : Type 0 where
  start_xmit : Dev → Skb → Call
  softirq : Dev → Call
  change : Dev → Call

-- `ldd_get_tx_buffer`
unfoldable pub get_tx_buffer : Side → Side
get_tx_buffer x = record x {
  pool = rest x.pool;
  stopped = if is_empty (rest x.pool) then true else x.stopped;
}

abbrev pub tx_dropped : Side → Side
tx_dropped x = record x { stats = record x.stats { tx_dropped = x.stats.tx_dropped + 1 } }

-- `send_check` is the kernel's `ip_send_check`, on the bytes of the frame.
module _ (send_check : List ℕ → List ℕ) where
  -- The frame that goes over the wire for that of the skb.
  unfoldable pub fill : List ℕ → List ℕ
  fill bytes =
      let len = max (length bytes) eth_zlen in
      let copy = blit (replicate len 0) 0 bytes in
      send_check (flip (eth_hlen + 18) (flip (eth_hlen + 14) copy))

  -- `ldd_start_xmit` up to its first section under another lock: `NETDEV_TX_BUSY` changes nothing.
  unfoldable pub start : Dev → Skb → Option Packet → Side → Side × List Task
  unfolding fill get_tx_buffer
  start d k none x = (x, [])
  start d k (some p) x = (
    get_tx_buffer x,
    enqueue (ldd_peer d) (record p { frame = fill k.bytes }) ∷ mark d k ∷ interrupt d ∷ [],
  )

  unfoldable pub call_at : Call → Net → Net × List Task
  unfolding start advance refused
  call_at (start_xmit d k) s =
      if refused k
      then (put d (tx_dropped (side d s)) s, [])
      else at d (start d k (front (side d s).pool) (side d s)) s
  call_at (softirq d) s =
      if (side d s).listed
      then (put d (record (side d s) { listed = false }) s, poll d 0 ∷ [])
      else (s, [])
  call_at (change d) s = at d (advance s.use_napi (side d s).phase (side d s)) s

  abbrev pub resume : ℕ → List Task → Net × List Task → Net
  resume i ts (s, us) = record s { threads = set s.threads i (us ++ ts) }

  -- Thread `i` goes on with what it has to do; one that has nothing left takes the call.
  unfoldable pub step_of : ℕ → Bool → Call → Option (List Task) → Net → Net
  unfolding exec call_at
  step_of i luck c none s = s
  step_of i luck c (some []) s = resume i [] (call_at c s)
  step_of i luck c (some (t ∷ ts)) s = resume i ts (exec luck t s)

  unfoldable pub step : ℕ × Bool × Call → Net → Net
  unfolding step_of
  step (i, luck, c) s = step_of i luck c (get_elem? s.threads i) s

  unfoldable pub run : List (ℕ × Bool × Call) → Net → Net
  unfolding step
  run [] s = s
  run (e ∷ es) s = run es (step e s)

-- `ldd_create`: the pool of a device, all of `pkt_arr`.
unfoldable pub pool_from : Dev → ℕ → ℕ → List Packet
pool_from d j ℕ.zero = []
pool_from d j (ℕ.suc n) = record { dev = d; slot = j; frame = [] } ∷ pool_from d (j + 1) n
