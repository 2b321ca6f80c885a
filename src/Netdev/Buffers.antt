-- ===== src/Netdev/Buffers.antt =====
-- examples/30_netdev/main.c: where the transmit buffers are.
use linux_device_driver.Prelude.{
  ℕ, ◌+◌, ◌≡◌, refl, ◌∙◌, ap, Bool, true, false, not, ◌&&◌, Option, none, some, List, [], ◌∷◌, ◌++◌,
  ltb, ◌==◌, if◌then◌else◌, if_cases, get_elem?, set, arith,
}
use linux_device_driver.Netdev.Device.{
  Dev, sn0, sn1, same, Skb, Packet, Phase, closed, enabled, running, up, stopping, halted, draining,
  Side, Task, enqueue, interrupt, dequeue, quiet, schedule, pass, release, wake, tx_done, mark,
  poll, complete, look, Net, side, is_empty, received, rx_lost, sent, enqueue_at, interrupt_at,
  dequeue_at, schedule_at, release_at, poll_at, poll_round, complete_at, look_at, front, rest,
  done_with, taken_along, weight,
}
use linux_device_driver.Netdev.Steps.{
  at, exec, drain, advance, refused, Call, start_xmit, softirq, change, get_tx_buffer, start,
  call_at, step_of, step, run, tx_dropped,
}
use linux_device_driver.Netdev.Threads.{sum, sum_all, sum-append, sum_all-next, sum_all-call}

module _ (d : Dev) (k : ℕ) where
  -- Whether a packet is the buffer number `k` of device `d`.
  abbrev pub held : Packet → ℕ
  held p = if same d p.dev then (if p.slot == k then 1 else 0) else 0

  abbrev pub count : List Packet → ℕ
  count [] = 0
  count (p ∷ ps) = held p + count ps

  -- A task that holds a buffer. The packet of `pass` is still held by the `release` behind it.
  abbrev pub holds : Task → ℕ
  holds (enqueue e p) = held p
  holds (release p) = held p
  holds _ = 0

  abbrev pub inside : Side → ℕ
  inside x = count x.pool + count x.rx

  -- In how many places the buffer is: pools, receive queues, and hands of threads.
  abbrev pub places : Net → ℕ
  places s = inside s.side0 + inside s.side1 + sum_all holds s.threads

  count-append : (ps qs : List Packet) → count (ps ++ qs) ≡ count ps + count qs
  count-append [] qs = omega arith
  count-append (p ∷ ps) qs = omega (arith, count-append ps qs)

  holds-done_with : (e : Dev) (k' : Option Skb) → sum holds (done_with e k') ≡ 0
  holds-done_with e none = refl
  holds-done_with e (some x) = refl

  abbrev Keeps : ℕ → Side → Side × List Task → Type 0
  Keeps w x r = inside r.0 + sum holds r.1 ≡ inside x + w

  enqueue-Keeps : (e : Dev) (p : Packet) (x : Side) → Keeps (held p) x (enqueue_at e p x)
  unfolding enqueue_at
  enqueue-Keeps e p x =
      if_cases (Keeps (held p) x) (not x.running) (λ _. omega arith)
        λ _.
          if_cases (Keeps (held p) x) x.rx_int_enabled
            (λ _. omega (arith, count-append x.rx (p ∷ [])))
            λ _. omega (arith, count-append x.rx (p ∷ []))

  interrupt-Keeps : (n : Bool) (e : Dev) (x : Side) → Keeps 0 x (interrupt_at n e x)
  unfolding interrupt_at
  interrupt-Keeps n e x =
      let first = if x.rx_intr then (if n then quiet e ∷ [] else dequeue e ∷ []) else [] in
      let none_held : sum holds first ≡ 0 =
        if_cases (λ ts. sum holds ts ≡ 0) x.rx_intr
          (λ _. if_cases (λ ts. sum holds ts ≡ 0) n (λ _. refl) (λ _. refl)) (λ _. refl) in
      omega (
        arith,
        sum-append holds first (done_with e (taken_along x)),
        holds-done_with e (taken_along x),
      )

  dequeue-Keeps :
      (e : Dev) (ps : List Packet) (x : Side) → x.rx ≡ ps → Keeps 0 x (dequeue_at e ps x)
  unfolding dequeue_at
  dequeue-Keeps e [] x q = omega arith
  dequeue-Keeps e (p ∷ ps) x q = let c = ap count q in omega arith

  poll_round-Keeps :
      (e : Dev) (n : ℕ) (ps : List Packet) (x : Side) → x.rx ≡ ps → Keeps 0 x (poll_round e n ps x)
  unfolding poll_round
  poll_round-Keeps e n [] x q = omega arith
  poll_round-Keeps e n (p ∷ ps) x q = let c = ap count q in omega arith

  poll-Keeps : (e : Dev) (n : ℕ) (x : Side) → Keeps 0 x (poll_at e n x)
  unfolding poll_at
  poll-Keeps e n x =
      if_cases (Keeps 0 x) (ltb n weight) (λ _. poll_round-Keeps e n x.rx x refl) (λ _. omega arith)

  release-Keeps : (p : Packet) (x : Side) → Keeps (held p) x (release_at p x)
  unfolding release_at
  release-Keeps p x =
      let woken = if is_empty x.pool then wake p.dev ∷ [] else [] in
      let quiet_one : sum holds woken ≡ 0 =
        if_cases (λ ts. sum holds ts ≡ 0) (is_empty x.pool) (λ _. refl) (λ _. refl) in
      omega arith

  complete-Keeps : (luck : Bool) (e : Dev) (x : Side) → Keeps 0 x (complete_at luck e x)
  unfolding complete_at
  complete-Keeps true e x = omega arith
  complete-Keeps false e x = omega arith

  look-Keeps : (e : Dev) (x : Side) → Keeps 0 x (look_at e x)
  unfolding look_at
  look-Keeps e x =
      let again = if not (is_empty x.rx) then schedule e ∷ [] else [] in
      let quiet_one : sum holds again ≡ 0 =
        if_cases (λ ts. sum holds ts ≡ 0) (not (is_empty x.rx)) (λ _. refl) (λ _. refl) in
      omega arith

  drain-Keeps : (ps : List Packet) (x : Side) → x.rx ≡ ps → Keeps 0 x (drain ps x)
  unfolding drain
  drain-Keeps [] x q = omega arith
  drain-Keeps (p ∷ ps) x q = let c = ap count q in omega arith

  advance-Keeps : (n : Bool) (ph : Phase) (x : Side) → Keeps 0 x (advance n ph x)
  unfolding advance
  advance-Keeps n closed x = omega arith
  advance-Keeps n enabled x = omega arith
  advance-Keeps n running x = omega arith
  advance-Keeps n up x = omega arith
  advance-Keeps n stopping x = omega arith
  advance-Keeps n halted x = if_cases (Keeps 0 x) x.scheduled (λ _. omega arith) (λ _. omega arith)
  advance-Keeps n draining x = drain-Keeps x.rx x refl

  start-Keeps :
      (check : List ℕ → List ℕ) (e : Dev) (b : Skb) (o : Option Packet) (x : Side)
      → front x.pool ≡ o
      → Keeps 0 x (start check e b o x)
  unfolding start get_tx_buffer
  start-Keeps check e b none x q = omega arith
  start-Keeps check e b (some p) x q = omega (arith, taken x.pool q)
    where
      taken : (ps : List Packet) → front ps ≡ some p → count ps ≡ held p + count (rest ps)
      taken [] q = absurd (cc)
      taken (y ∷ ps) q = let same_held : held y ≡ held p = ap held_of q in omega arith
        where
          held_of : Option Packet → ℕ
          held_of none = 0
          held_of (some z) = held z

  -- A section at one device, seen from the whole.
  abbrev Kept : ℕ → Net → Net × List Task → Type 0
  Kept w s r =
      (inside r.0.side0 + inside r.0.side1 + sum holds r.1 ≡ inside s.side0 + inside s.side1 + w)
      × (r.0.threads ≡ s.threads)

  at-Kept :
      (w : ℕ) (e : Dev) (r : Side × List Task) (s : Net)
      → Keeps w (side e s) r
      → Kept w s (at e r s)
  at-Kept w sn0 (x, ts) s h = (omega arith, refl)
  at-Kept w sn1 (x, ts) s h = (omega arith, refl)

  exec-Kept : (luck : Bool) (t : Task) (s : Net) → Kept (holds t) s (exec luck t s)
  unfolding exec schedule_at
  exec-Kept luck (enqueue e p) s =
      at-Kept (held p) e (enqueue_at e p (side e s)) s (enqueue-Keeps e p (side e s))
  exec-Kept luck (interrupt e) s =
      at-Kept 0 e (interrupt_at s.use_napi e (side e s)) s (interrupt-Keeps s.use_napi e (side e s))
  exec-Kept luck (dequeue e) s =
      at-Kept 0 e (dequeue_at e (side e s).rx (side e s)) s
        (dequeue-Keeps e (side e s).rx (side e s) refl)
  exec-Kept luck (quiet e) s =
      at-Kept 0 e (record (side e s) { rx_int_enabled = false }, schedule e ∷ []) s (omega arith)
  exec-Kept luck (schedule e) s =
      at-Kept 0 e (schedule_at (side e s), []) s
        (if_cases (λ x. Keeps 0 (side e s) (x, [])) ((side e s).napi_on && not (side e s).scheduled)
          (λ _. omega arith) (λ _. omega arith))
  exec-Kept luck (pass e p) s =
      at-Kept 0 e (if luck then rx_lost (side e s) else received p (side e s), []) s
        (if_cases (λ x. Keeps 0 (side e s) (x, [])) luck (λ _. omega arith) (λ _. omega arith))
  exec-Kept luck (release p) s =
      at-Kept (held p) p.dev (release_at p (side p.dev s)) s (release-Keeps p (side p.dev s))
  exec-Kept luck (wake e) s =
      at-Kept 0 e (record (side e s) { stopped = false }, []) s (omega arith)
  exec-Kept luck (tx_done e b) s = at-Kept 0 e (sent b (side e s), []) s (omega arith)
  exec-Kept luck (mark e b) s =
      at-Kept 0 e (record (side e s) { tx_skb = some b; tx_intr = true }, []) s (omega arith)
  exec-Kept luck (poll e n) s = at-Kept 0 e (poll_at e n (side e s)) s (poll-Keeps e n (side e s))
  exec-Kept luck (complete e) s =
      at-Kept 0 e (complete_at luck e (side e s)) s (complete-Keeps luck e (side e s))
  exec-Kept luck (look e) s = at-Kept 0 e (look_at e (side e s)) s (look-Keeps e (side e s))

  module _ (check : List ℕ → List ℕ) where
    call-Kept : (c : Call) (s : Net) → Kept 0 s (call_at check c s)
    unfolding call_at
    call-Kept (start_xmit e b) s =
        if_cases (Kept 0 s) (refused b)
          (λ _. at-Kept 0 e (tx_dropped (side e s), []) s (omega arith))
          λ _.
            at-Kept 0 e (start check e b (front (side e s).pool) (side e s)) s
              (start-Keeps check e b (front (side e s).pool) (side e s) refl)
    call-Kept (softirq e) s =
        if_cases (Kept 0 s) (side e s).listed
          (λ _. at-Kept 0 e (record (side e s) { listed = false }, poll e 0 ∷ []) s (omega arith))
          (λ _. (omega arith, refl))
    call-Kept (change e) s =
        at-Kept 0 e (advance s.use_napi (side e s).phase (side e s)) s
          (advance-Keeps s.use_napi (side e s).phase (side e s))

    step-places :
        (i : ℕ) (luck : Bool) (c : Call) (o : Option (List Task)) (s : Net)
        → get_elem? s.threads i ≡ o
        → places (step_of check i luck c o s) ≡ places s
    unfolding step_of
    step-places i luck c none s e = refl
    step-places i luck c (some []) s e =
        let r = call_at check c s in
        let k = call-Kept c s in
        let w = ap (λ tss. sum_all holds (set tss i (r.1 ++ []))) k.1 in
        omega (arith, sum_all-call holds s.threads i r.1 e)
    step-places i luck c (some (t ∷ ts)) s e =
        let r = exec luck t s in
        let k = exec-Kept luck t s in
        let w = ap (λ tss. sum_all holds (set tss i (r.1 ++ ts))) k.1 in
        omega (arith, sum_all-next holds s.threads i t ts r.1 e)

    -- However the threads interleave, and whatever memory they get: the number of places at which a
    -- transmit buffer is, in a pool, in a receive queue or in the hands of a thread, never changes.
    pub run-places : (es : List (ℕ × Bool × Call)) (s : Net) → places (run check es s) ≡ places s
    unfolding run step
    run-places [] s = refl
    run-places ((i, luck, c) ∷ es) s =
        run-places es (step check (i, luck, c) s)
        ∙ step-places i luck c (get_elem? s.threads i) s refl
