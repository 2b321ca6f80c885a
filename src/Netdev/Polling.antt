-- ===== src/Netdev/Polling.antt =====
-- examples/30_netdev/main.c: with NAPI, no received frame is left behind.
use linux_device_driver.Prelude.{
  ℕ, ◌≡◌, refl, Bool, true, false, Option, none, some, List, [], ◌∷◌, ltb, if◌then◌else◌, if_cases,
  arith,
}
use linux_device_driver.Netdev.Device.{
  Dev, sn0, sn1, same, Skb, Packet, Phase, closed, enabled, running, up, stopping, halted, draining,
  Side, Task, enqueue, interrupt, dequeue, quiet, schedule, pass, release, wake, tx_done, mark,
  poll, complete, look, Net, side, received, rx_lost, sent, enqueue_at, interrupt_at, dequeue_at,
  schedule_at, release_at, poll_at, poll_round, complete_at, look_at, front, weight,
}
use linux_device_driver.Netdev.Steps.{
  at, exec, drain, advance, refused, Call, start_xmit, softirq, change, start, call_at, tx_dropped,
}
use linux_device_driver.Netdev.Work.{Work, Covered, plus, Apart, Goes}
use linux_device_driver.Netdev.Covering.{
  enqueue-Covered, interrupt-Covered, dequeue-Covered, quiet-Covered, schedule-Covered,
  poll-Covered, complete-Covered, look-Covered, release-Covered, advance-Covered, start-Covered,
}

-- A section at the other device leaves nothing to do at this one.
module _ (d e : Dev) (other : same d e ≡ false) where
  enqueue-Apart : (p : Packet) (x : Side) → Apart d (enqueue_at e p x).1
  unfolding enqueue_at
  enqueue-Apart p x = ground arith

  interrupt-Apart : (n : Bool) (x : Side) → Apart d (interrupt_at n e x).1
  unfolding interrupt_at
  interrupt-Apart n x = ground arith

  dequeue-Apart : (ps : List Packet) (x : Side) → Apart d (dequeue_at e ps x).1
  unfolding dequeue_at
  dequeue-Apart [] x = ground arith
  dequeue-Apart (p ∷ ps) x = ground arith

  poll_round-Apart : (n : ℕ) (ps : List Packet) (x : Side) → Apart d (poll_round e n ps x).1
  unfolding poll_round
  poll_round-Apart n [] x = ground arith
  poll_round-Apart n (p ∷ ps) x = ground arith

  poll-Apart : (n : ℕ) (x : Side) → Apart d (poll_at e n x).1
  unfolding poll_at
  poll-Apart n x =
      if_cases (λ (r : Side × List Task). Apart d r.1) (ltb n weight)
        (λ _. poll_round-Apart n x.rx x) (λ _. ground arith)

  complete-Apart : (luck : Bool) (x : Side) → Apart d (complete_at luck e x).1
  unfolding complete_at
  complete-Apart true x = ground arith
  complete-Apart false x = ground arith

  look-Apart : (x : Side) → Apart d (look_at e x).1
  unfolding look_at
  look-Apart x = ground arith

  release-Apart : (p : Packet) (x : Side) → p.dev ≡ e → Apart d (release_at p x).1
  unfolding release_at
  release-Apart p x home = ground arith

  drain-Apart : (ps : List Packet) (x : Side) → Apart d (drain ps x).1
  unfolding drain
  drain-Apart [] x = ground arith
  drain-Apart (p ∷ ps) x = ground arith

  advance-Apart : (n : Bool) (ph : Phase) (x : Side) → Apart d (advance n ph x).1
  unfolding advance
  advance-Apart n closed x = ground arith
  advance-Apart n enabled x = ground arith
  advance-Apart n running x = ground arith
  advance-Apart n up x = ground arith
  advance-Apart n stopping x = ground arith
  advance-Apart n halted x = ground arith
  advance-Apart n draining x = drain-Apart x.rx x

  start-Apart :
      (check : List ℕ → List ℕ) (k : Skb) (o : Option Packet) (x : Side)
      → Apart d (start check e k o x).1
  unfolding start
  start-Apart check k none x = ground arith
  start-Apart check k (some p) x = ground arith

abbrev pub Holds : Dev → Work → List Task → Net → Net × List Task → Type 0
Holds d w before s r =
    Covered s.use_napi (side d s) (plus d w before) → Covered s.use_napi (side d r.0) (plus d w r.1)

same_work :
    (n : Bool) (d : Dev) (w : Work) (x : Side) (before after : List Task)
    → Apart d before
    → Apart d after
    → Covered n x (plus d w before)
    → Covered n x (plus d w after)
same_work n d w x before after a b c = ground arith

at-Holds :
    (d e : Dev) (w : Work) (before : List Task) (r : Side × List Task) (s : Net)
    → (same d e ≡ true → Goes s.use_napi d w (side e s) before r)
    → (same d e ≡ false → Apart d before × Apart d r.1)
    → Holds d w before s (at e r s)
at-Holds sn0 sn0 w before (x, ts) s own apart c = own refl c
at-Holds sn1 sn1 w before (x, ts) s own apart c = own refl c
at-Holds sn0 sn1 w before (x, ts) s own apart c =
    same_work s.use_napi sn0 w s.side0 before ts (apart refl).0 (apart refl).1 c
at-Holds sn1 sn0 w before (x, ts) s own apart c =
    same_work s.use_napi sn1 w s.side1 before ts (apart refl).0 (apart refl).1 c

module _ (d : Dev) (w : Work) where
  pub exec-Holds : (luck : Bool) (t : Task) (s : Net) → Holds d w (t ∷ []) s (exec luck t s)
  unfolding exec schedule_at
  exec-Holds luck (enqueue e p) s =
      at-Holds d e w (enqueue e p ∷ []) (enqueue_at e p (side e s)) s
        (λ h. enqueue-Covered s.use_napi d e w h p (side e s))
        (λ h. (ground arith, enqueue-Apart d e h p (side e s)))
  exec-Holds luck (interrupt e) s =
      at-Holds d e w (interrupt e ∷ []) (interrupt_at s.use_napi e (side e s)) s
        (λ h. interrupt-Covered s.use_napi d e w h (side e s))
        (λ h. (ground arith, interrupt-Apart d e h s.use_napi (side e s)))
  exec-Holds luck (dequeue e) s =
      at-Holds d e w (dequeue e ∷ []) (dequeue_at e (side e s).rx (side e s)) s
        (λ h. dequeue-Covered s.use_napi d e w h (side e s).rx (side e s) refl)
        (λ h. (ground arith, dequeue-Apart d e h (side e s).rx (side e s)))
  exec-Holds luck (quiet e) s =
      at-Holds d e w (quiet e ∷ []) (record (side e s) { rx_int_enabled = false }, schedule e ∷ [])
        s (λ h. quiet-Covered s.use_napi d e w h (side e s)) (λ h. (ground arith, ground arith))
  exec-Holds luck (schedule e) s =
      at-Holds d e w (schedule e ∷ []) (schedule_at (side e s), []) s
        (λ h. schedule-Covered s.use_napi d e w h (side e s)) (λ h. (ground arith, ground arith))
  exec-Holds luck (pass e p) s =
      at-Holds d e w (pass e p ∷ [])
        (if luck then rx_lost (side e s) else received p (side e s), []) s (λ h c. ground arith)
        (λ h. (ground arith, ground arith))
  exec-Holds luck (release p) s =
      at-Holds d p.dev w (release p ∷ []) (release_at p (side p.dev s)) s
        (λ h. release-Covered s.use_napi d p.dev w h p (side p.dev s) refl)
        (λ h. (ground arith, release-Apart d p.dev h p (side p.dev s) refl))
  exec-Holds luck (wake e) s =
      at-Holds d e w (wake e ∷ []) (record (side e s) { stopped = false }, []) s
        (λ h c. ground arith) (λ h. (ground arith, ground arith))
  exec-Holds luck (tx_done e b) s =
      at-Holds d e w (tx_done e b ∷ []) (sent b (side e s), []) s (λ h c. ground arith)
        (λ h. (ground arith, ground arith))
  exec-Holds luck (mark e b) s =
      at-Holds d e w (mark e b ∷ []) (record (side e s) { tx_skb = some b; tx_intr = true }, []) s
        (λ h c. ground arith) (λ h. (ground arith, ground arith))
  exec-Holds luck (poll e k) s =
      at-Holds d e w (poll e k ∷ []) (poll_at e k (side e s)) s
        (λ h. poll-Covered s.use_napi d e w h k (side e s))
        (λ h. (ground arith, poll-Apart d e h k (side e s)))
  exec-Holds luck (complete e) s =
      at-Holds d e w (complete e ∷ []) (complete_at luck e (side e s)) s
        (λ h. complete-Covered s.use_napi d e w h luck (side e s))
        (λ h. (ground arith, complete-Apart d e h luck (side e s)))
  exec-Holds luck (look e) s =
      at-Holds d e w (look e ∷ []) (look_at e (side e s)) s
        (λ h. look-Covered s.use_napi d e w h (side e s))
        (λ h. (ground arith, look-Apart d e h (side e s)))

  pub call-Holds :
      (check : List ℕ → List ℕ) (c : Call) (s : Net) → Holds d w [] s (call_at check c s)
  unfolding call_at
  call-Holds check (start_xmit e b) s =
      if_cases (Holds d w [] s) (refused b)
        (λ _.
          at-Holds d e w [] (tx_dropped (side e s), []) s (λ h c. ground arith)
            (λ h. (ground arith, ground arith)))
        λ _.
          at-Holds d e w [] (start check e b (front (side e s).pool) (side e s)) s
            (λ h. start-Covered s.use_napi d e w h check b (front (side e s).pool) (side e s))
            (λ h. (ground arith, start-Apart d e h check b (front (side e s).pool) (side e s)))
  call-Holds check (softirq e) s =
      if_cases (Holds d w [] s) (side e s).listed
        (λ on.
          at-Holds d e w [] (record (side e s) { listed = false }, poll e 0 ∷ []) s
            (λ h c. ground arith) (λ h. (ground arith, ground arith)))
        (λ _ c. c)
  call-Holds check (change e) s =
      at-Holds d e w [] (advance s.use_napi (side e s).phase (side e s)) s
        (λ h. advance-Covered s.use_napi d e w h (side e s).phase (side e s) refl)
        (λ h. (ground arith, advance-Apart d e h s.use_napi (side e s).phase (side e s)))
