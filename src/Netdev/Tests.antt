-- ===== src/Netdev/Tests.antt =====
-- examples/30_netdev/main.c: the theorems with two devices, a frame on its way and a poll.
use linux_device_driver.Prelude.{
  ℕ, ◌+◌, ◌≤◌, ◌<◌, ◌≡◌, ◌≢◌, ◌⊎◌, refl, Bool, true, false, some, List, [], ◌∷◌, ◌++◌, ◌||◌, ◌==◌,
  if◌then◌else◌, length, get_elem?, get_or, replicate, max, bit_xor, arith,
}
use linux_device_driver.Netdev.Device.{
  sn0, sn1, Skb, side, enqueue_at, interrupt_at, dequeue_at, schedule_at, release_at, poll_at,
  poll_round, complete_at, look_at,
}
use linux_device_driver.Netdev.Steps.{
  Call, change, softirq, start_xmit, run, step, step_of, exec, call_at, start, advance, drain,
  refused, fill, get_tx_buffer, eth_zlen, pool_from,
}
use linux_device_driver.Netdev.Buffers.{places}
use linux_device_driver.Netdev.Work.{one, work_of}
use linux_device_driver.Netdev.Created.{
  create, init, reached, run-init-once, run-init-seen, run-init-woken,
}
use linux_device_driver.Netdev.Frames.{SendCheck, fill_lem}

abbrev unchecked : List ℕ → List ℕ
unchecked bytes = bytes

abbrev packet : Skb
packet = record { protocol = 0x800; bytes = replicate 34 7 }

abbrev on : ℕ → Call → ℕ × Bool × Call
on i c = (i, false, c)

-- Both devices are opened; thread 0 sends a frame from sn0, whose buffers number one, up to the section
-- that queues it at sn1, and takes the receive interrupt there.
abbrev sending : List (ℕ × Bool × Call)
sending =
    on 0 (change sn0)
    ∷ on 0 (change sn0)
    ∷ on 0 (change sn0)
    ∷ on 0 (change sn1)
    ∷ on 0 (change sn1)
    ∷ on 0 (change sn1)
    ∷ on 0 (start_xmit sn0 packet)
    ∷ on 0 (change sn0)
    ∷ on 0 (change sn0)
    ∷ []

-- Then it schedules sn1, thread 1 polls it and gives the buffer back, but has not woken the queue up yet.
abbrev polling : List (ℕ × Bool × Call)
polling =
    sending
    ++ on 0 (change sn0)
      ∷ on 0 (change sn0)
      ∷ on 1 (softirq sn1)
      ∷ on 1 (softirq sn1)
      ∷ on 1 (softirq sn1)
      ∷ on 1 (softirq sn1)
      ∷ []

passed_up : length (side sn1 (reached unchecked 1 2 polling true)).passed ≡ 1
unfolding run step step_of exec call_at start advance drain refused fill get_tx_buffer create init
    pool_from enqueue_at interrupt_at dequeue_at schedule_at release_at poll_at poll_round
    complete_at look_at
passed_up = refl

run-init-once_example : places sn0 0 (reached unchecked 1 2 polling true) ≡ 1
run-init-once_example = run-init-once unchecked 1 2 polling sn0 true 0 (omega arith)

run-init-seen_example :
    (1
      ≤ one (side sn1 (reached unchecked 1 2 sending true)).listed
        + (work_of sn1 (reached unchecked 1 2 sending true).threads).polling
        + (work_of sn1 (reached unchecked 1 2 sending true).threads).turning
        + (work_of sn1 (reached unchecked 1 2 sending true).threads).quieting)
    ⊎ (((side sn1 (reached unchecked 1 2 sending true)).rx_intr ≡ true)
        × (1 ≤ (work_of sn1 (reached unchecked 1 2 sending true).threads).interrupting))
unfolding run step step_of exec call_at start advance drain refused fill get_tx_buffer create init
    pool_from enqueue_at interrupt_at dequeue_at schedule_at release_at poll_at poll_round
    complete_at look_at
run-init-seen_example = run-init-seen unchecked 1 2 sending sn1 refl refl

run-init-woken_example : 1 ≤ (work_of sn0 (reached unchecked 1 2 polling true).threads).waking
unfolding run step step_of exec call_at start advance drain refused fill get_tx_buffer create init
    pool_from enqueue_at interrupt_at dequeue_at schedule_at release_at poll_at poll_round
    complete_at look_at
run-init-woken_example = run-init-woken unchecked 1 2 polling sn0 true refl refl refl

unchecked-SendCheck : SendCheck unchecked
unchecked-SendCheck = record { same_length = λ bytes. refl; same_rest = λ bytes j a b. refl }

fill_lem_example :
    (length (fill unchecked packet.bytes) ≡ max (length packet.bytes) eth_zlen)
    × ((j : ℕ)
        → j < max (length packet.bytes) eth_zlen
        → j ≢ 24
        → j ≢ 25
        → get_elem? (fill unchecked packet.bytes) j
          ≡ some (
              if j == 28 || j == 32
              then bit_xor (get_or packet.bytes j 0) 1
              else get_or packet.bytes j 0))
unfolding refused
fill_lem_example = fill_lem unchecked packet unchecked-SendCheck refl
