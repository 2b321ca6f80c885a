-- ===== src/Netdev/Covering.antt =====
-- examples/30_netdev/main.c: each section at a device keeps the device covered.
use linux_device_driver.Prelude.{
  ℕ, ◌≡◌, refl, Bool, true, false, Option, none, some, List, [], ◌∷◌, ltb, if_cases, arith,
}
use linux_device_driver.Netdev.Device.{
  Dev, same, Skb, Packet, Phase, closed, enabled, running, up, stopping, halted, draining, Side,
  enqueue, interrupt, dequeue, quiet, schedule, release, poll, complete, look, enqueue_at,
  interrupt_at, dequeue_at, schedule_at, release_at, poll_at, poll_round, complete_at, look_at,
  weight,
}
use linux_device_driver.Netdev.Steps.{drain, advance, get_tx_buffer, start}
use linux_device_driver.Netdev.Work.{Work, Goes}

module _ (n : Bool) (d e : Dev) (w : Work) (own : same d e ≡ true) where
  pub enqueue-Covered : (p : Packet) (x : Side) → Goes n d w x (enqueue e p ∷ []) (enqueue_at e p x)
  unfolding enqueue_at
  enqueue-Covered p x c = ground arith

  pub interrupt-Covered : (x : Side) → Goes n d w x (interrupt e ∷ []) (interrupt_at n e x)
  unfolding interrupt_at
  interrupt-Covered x c = ground arith

  pub dequeue-Covered :
      (ps : List Packet) (x : Side) → x.rx ≡ ps → Goes n d w x (dequeue e ∷ []) (dequeue_at e ps x)
  unfolding dequeue_at
  dequeue-Covered [] x q c = ground arith
  dequeue-Covered (p ∷ ps) x q c = ground arith

  pub quiet-Covered :
      (x : Side)
      → Goes n d w x (quiet e ∷ []) (record x { rx_int_enabled = false }, schedule e ∷ [])
  quiet-Covered x c = ground arith

  pub schedule-Covered : (x : Side) → Goes n d w x (schedule e ∷ []) (schedule_at x, [])
  unfolding schedule_at
  schedule-Covered x c = ground arith

  pub poll_round-Covered :
      (k : ℕ) (ps : List Packet) (x : Side)
      → x.rx ≡ ps
      → Goes n d w x (poll e k ∷ []) (poll_round e k ps x)
  unfolding poll_round
  poll_round-Covered k [] x q c = ground arith
  poll_round-Covered k (p ∷ ps) x q c = ground arith

  pub poll-Covered : (k : ℕ) (x : Side) → Goes n d w x (poll e k ∷ []) (poll_at e k x)
  unfolding poll_at
  poll-Covered k x =
      if_cases (Goes n d w x (poll e k ∷ [])) (ltb k weight) (λ _. poll_round-Covered k x.rx x refl)
        (λ _ c. ground arith)

  pub complete-Covered :
      (luck : Bool) (x : Side) → Goes n d w x (complete e ∷ []) (complete_at luck e x)
  unfolding complete_at
  complete-Covered true x c = ground arith
  complete-Covered false x c = ground arith

  pub look-Covered : (x : Side) → Goes n d w x (look e ∷ []) (look_at e x)
  unfolding look_at
  look-Covered x c = ground arith

  pub release-Covered :
      (p : Packet) (x : Side) → p.dev ≡ e → Goes n d w x (release p ∷ []) (release_at p x)
  unfolding release_at
  release-Covered p x home c = ground arith

  pub drain-Covered :
      (ps : List Packet) (x : Side) → x.rx ≡ ps → x.phase ≡ draining → Goes n d w x [] (drain ps x)
  unfolding drain
  drain-Covered [] x q h c = ground arith
  drain-Covered (p ∷ ps) x q h c = ground arith

  pub advance-Covered : (ph : Phase) (x : Side) → x.phase ≡ ph → Goes n d w x [] (advance n ph x)
  unfolding advance
  advance-Covered closed x h c = ground arith
  advance-Covered enabled x h c = ground arith
  advance-Covered running x h c = ground arith
  advance-Covered up x h c = ground arith
  advance-Covered stopping x h c = ground arith
  advance-Covered halted x h c = ground arith
  advance-Covered draining x h c = drain-Covered x.rx x refl h c

  pub start-Covered :
      (check : List ℕ → List ℕ) (k : Skb) (o : Option Packet) (x : Side)
      → Goes n d w x [] (start check e k o x)
  unfolding start get_tx_buffer
  start-Covered check k none x c = ground arith
  start-Covered check k (some p) x c = ground arith
