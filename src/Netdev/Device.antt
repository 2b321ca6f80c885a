-- ===== src/Netdev/Device.antt =====
-- examples/30_netdev/main.c, main.h: two network interfaces wired to each other. What one holds, and
-- the sections of code that run undivided.
use linux_device_driver.Prelude.{
  ℕ, ◌+◌, Bool, true, false, not, ◌&&◌, Option, none, some, List, [], ◌∷◌, ◌++◌, length, ltb,
  if◌then◌else◌,
}

-- `net_devs[0]` and `net_devs[1]`
pub data Dev : Type 0 where
  sn0 sn1 : Dev

abbrev pub same : Dev → Dev → Bool
same sn0 sn0 = true
same sn1 sn1 = true
same _ _ = false

abbrev pub ldd_peer : Dev → Dev
ldd_peer sn0 = sn1
ldd_peer sn1 = sn0

-- `struct sk_buff`: its protocol and the bytes of its frame.
pub record Skb : Type 0 where
  pub protocol : ℕ
  pub bytes : List ℕ

-- `struct ldd_packet`: the device whose pool it is from, its place in `pkt_arr`, and the `datalen` bytes
-- of its frame.
pub record Packet : Type 0 where
  pub dev : Dev
  pub slot : ℕ
  pub frame : List ℕ

-- How far a device is with `ldd_open` and `ldd_stop`: closed; after `napi_enable`; after the section that
-- sets `running`; open; after `netif_stop_queue`; after the section that clears `running`; after
-- `napi_disable`.
pub data Phase : Type 0 where
  closed enabled running up stopping halted draining : Phase

pub record Stats : Type 0 where
  pub tx_packets : ℕ
  pub tx_bytes : ℕ
  pub tx_dropped : ℕ
  pub rx_packets : ℕ
  pub rx_bytes : ℕ
  pub rx_dropped : ℕ

-- `struct ldd_dev`, with the lists that `pool` and `rx_head` begin, the two bits of `status`, and what the
-- kernel keeps of the device: whether its queue is stopped, whether NAPI is enabled, scheduled, and on
-- the list of those to poll; and the frames that went up to the network stack.
pub record Side : Type 0 where
  pub phase : Phase
  pub running : Bool
  pub rx_int_enabled : Bool
  pub rx_intr : Bool
  pub tx_intr : Bool
  pub pool : List Packet
  pub rx : List Packet
  pub tx_skb : Option Skb
  pub stopped : Bool
  pub napi_on : Bool
  pub scheduled : Bool
  pub listed : Bool
  pub stats : Stats
  pub passed : List (List ℕ)

-- A section of code that runs undivided, most of them under the device's lock.
pub data Task : Type 0 where
  enqueue : Dev → Packet → Task
  interrupt : Dev → Task
  dequeue : Dev → Task
  quiet : Dev → Task
  schedule : Dev → Task
  pass : Dev → Packet → Task
  release : Packet → Task
  wake : Dev → Task
  tx_done : Dev → Skb → Task
  mark : Dev → Skb → Task
  poll : Dev → ℕ → Task
  complete : Dev → Task
  look : Dev → Task

-- Both devices and the threads: each one has tasks left to do, the next one first.
pub record Net : Type 0 where
  pub use_napi : Bool
  pub side0 : Side
  pub side1 : Side
  pub threads : List (List Task)

abbrev pub side : Dev → Net → Side
side sn0 s = s.side0
side sn1 s = s.side1

abbrev pub put : Dev → Side → Net → Net
put sn0 x s = record s { side0 = x }
put sn1 x s = record s { side1 = x }

abbrev pub is_empty {ℓ} : {A : Type ℓ} → List A → Bool
is_empty [] = true
is_empty (x ∷ xs) = false

-- the weight that `netif_napi_add_weight` is given
abbrev pub weight : ℕ
weight = 2

-- what `ldd_rx` hands to the network stack
abbrev pub received : Packet → Side → Side
received p x =
    let n = length p.frame in
    record x {
      passed = x.passed ++ p.frame ∷ [];
      stats = record x.stats {
        rx_packets = x.stats.rx_packets + 1;
        rx_bytes = x.stats.rx_bytes + n;
      };
    }

abbrev pub rx_lost : Side → Side
rx_lost x = record x { stats = record x.stats { rx_dropped = x.stats.rx_dropped + 1 } }

abbrev pub sent : Skb → Side → Side
sent k x = record x {
  stats = record x.stats {
    tx_packets = x.stats.tx_packets + 1;
    tx_bytes = x.stats.tx_bytes + length k.bytes;
  };
}

-- `ldd_rx_dequeue`, by the queue: what it takes, and what is left.
abbrev pub front : List Packet → Option Packet
front [] = none
front (p ∷ ps) = some p

abbrev pub rest : List Packet → List Packet
rest [] = []
rest (p ∷ ps) = ps

-- the section of `ldd_rx_enqueue`
unfoldable pub enqueue_at : Dev → Packet → Side → Side × List Task
enqueue_at d p x =
    if not x.running
    then (x, release p ∷ [])
    else if x.rx_int_enabled
    then (record x { rx = x.rx ++ p ∷ []; rx_intr = true }, interrupt d ∷ [])
    else (record x { rx = x.rx ++ p ∷ [] }, [])

-- `ldd_tx_done` of the skb that `ldd_ack_interrupt` took along
abbrev pub done_with : Dev → Option Skb → List Task
done_with d none = []
done_with d (some k) = tx_done d k ∷ []

abbrev pub taken_along : Side → Option Skb
taken_along x = if x.tx_intr then x.tx_skb else none

abbrev pub acked : Side → Side
acked x = record x {
  rx_intr = false;
  tx_intr = false;
  tx_skb = if x.tx_intr then none else x.tx_skb;
}

-- `ldd_ack_interrupt`, with what `ldd_napi_interrupt` or `ldd_regular_interrupt` goes on with
unfoldable pub interrupt_at : Bool → Dev → Side → Side × List Task
interrupt_at use_napi d x = (
  acked x,
  (if x.rx_intr then (if use_napi then quiet d ∷ [] else dequeue d ∷ []) else [])
      ++ done_with d (taken_along x),
)

unfoldable pub dequeue_at : Dev → List Packet → Side → Side × List Task
dequeue_at d [] x = (x, [])
dequeue_at d (p ∷ ps) x = (record x { rx = ps }, pass d p ∷ release p ∷ [])

-- `napi_schedule`
unfoldable pub schedule_at : Side → Side
schedule_at x =
    if x.napi_on && not x.scheduled then record x { scheduled = true; listed = true } else x

-- the section of `ldd_release_buffer`
unfoldable pub release_at : Packet → Side → Side × List Task
release_at p x = (record x { pool = p ∷ x.pool }, if is_empty x.pool then wake p.dev ∷ [] else [])

-- One round of `ldd_poll`: at the end of the budget the device stays scheduled and is polled again.
unfoldable pub poll_round : Dev → ℕ → List Packet → Side → Side × List Task
poll_round d n [] x = (x, complete d ∷ [])
poll_round d n (p ∷ ps) x = (record x { rx = ps }, pass d p ∷ release p ∷ poll d (n + 1) ∷ [])

unfoldable pub poll_at : Dev → ℕ → Side → Side × List Task
unfolding poll_round
poll_at d n x = if ltb n weight then poll_round d n x.rx x else (record x { listed = true }, [])

-- `napi_complete_done`, which refuses if the device was scheduled meanwhile, and polls it again
unfoldable pub complete_at : Bool → Dev → Side → Side × List Task
complete_at true d x = (record x { listed = true }, [])
complete_at false d x = (record x { scheduled = false }, look d ∷ [])

-- The last section of `ldd_poll`.
unfoldable pub look_at : Dev → Side → Side × List Task
look_at d x =
    let more = not (is_empty x.rx) in
    (record x { rx_int_enabled = not more }, if more then schedule d ∷ [] else [])
