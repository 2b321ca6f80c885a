-- ===== src/Pipe/Wake.antt =====
-- examples/09_pipe_advanced_sleep/fops.c: no wake-up is lost.
use linux_device_driver.Prelude.{
  ℕ, ◌+◌, ◌-◌, ◌≡◌, ◌⊎◌, inl, inr, refl, ◌∙◌, ap, true, false, ◌&&◌, Option, none, some, List, [],
  ◌∷◌, map, ltb, leb, if_cases, length, get_elem?, set, take, min, arith, Bool-cases,
}
use linux_device_driver.Pipe.Device.{
  Kind, reader, writer, Thread, Pipe, Luck, fine, signal, fault, Pc, trying, entered, released,
  prepared, waiting, finishing, notifying, leaving, gone, Ret, done, efault, eagain, erestartsys,
  buff_size, blocked, goto, read_bytes, write_bytes, transfer, lock, is_signal, act, step_of, step,
  run, wake, other, same,
}
use linux_device_driver.Pipe.Threads.{
  is_waiting, is_notifying, asleep, wakes, NoLost, any-set, any-set_here, any-set_keep, asleep-wake,
  asleep-wake_other, wakes-wake, any-map, any-none, any-map_same, and_false, get_elem?-map,
}

-- A thread that moves, and the length with it.
move :
    (k : Kind) (s : Pipe) (i n : ℕ) (old t : Thread)
    → get_elem? s.threads i ≡ some old
    → wakes k old ≡ false
    → (asleep k t ≡ true → blocked k n ≡ true)
    → (blocked k n ≡ false → (blocked k s.buff_len ≡ false) ⊎ (wakes k t ≡ true))
    → NoLost k s
    → NoLost k (record s { buff_len = n; threads = set s.threads i t })
move k s i n old t found quiet new change h sleeper free = elim (change free) [
  | inr w ↦ any-set_here (wakes k) s.threads i t found w
  | inl b ↦ elim (any-set (asleep k) s.threads i t sleeper) [
    | inl a ↦ any-set_keep (wakes k) s.threads i t old found quiet (h a b)
    | inr a ↦ let stuck = new a in absurd (cc)
  ]
]

hush : (k : Kind) (t : Thread) (pc : Pc) → t.pc ≡ pc → is_notifying pc ≡ false → wakes k t ≡ false
hush k t pc e n =
    ap (λ p. is_notifying p && same k (other t.kind)) e ∙ ap (λ b. b && same k (other t.kind)) n

-- A move that is not into `schedule` and leaves the length alone.
goes :
    (k : Kind) (s : Pipe) (i : ℕ) (old t : Thread)
    → get_elem? s.threads i ≡ some old
    → wakes k old ≡ false
    → is_waiting t.pc ≡ false
    → NoLost k s
    → NoLost k (record s { threads = set s.threads i t })
goes k s i old t found quiet awake h =
    move k s i s.buff_len old t found quiet (λ a. absurd (ground arith)) (λ b. inl b) h

stuck_too : (k j : Kind) (n : ℕ) → same k j ≡ true → blocked j n ≡ true → blocked k n ≡ true
stuck_too reader reader n e b = b
stuck_too writer writer n e b = b
stuck_too reader writer n e b = absurd (cc)
stuck_too writer reader n e b = absurd (cc)

sleeps :
    (k : Kind) (s : Pipe) (i : ℕ) (t : Thread)
    → get_elem? s.threads i ≡ some t
    → wakes k t ≡ false
    → blocked t.kind s.buff_len ≡ true
    → NoLost k s
    → NoLost k (goto i t waiting s)
sleeps k s i t found quiet b h =
    move k s i s.buff_len t (record t { pc = waiting }) found quiet
      (λ a. stuck_too k t.kind s.buff_len (ground arith) b) (λ f. inl f) h

-- A reader that empties the buffer, and a writer that fills it, are about to wake the others.
turns :
    (k : Kind) (s : Pipe) (i n : ℕ) (t : Thread) (r : Ret)
    → get_elem? s.threads i ≡ some t
    → wakes k t ≡ false
    → blocked t.kind n ≡ true
    → NoLost k s
    → NoLost k
        (record s { buff_len = n; threads = set s.threads i (record t { pc = notifying r }) })
turns k s i n t r found quiet b h =
    move k s i n t (record t { pc = notifying r }) found quiet (λ a. absurd (cc))
      (λ f. inr (opposite k t.kind n b f)) h
  where
    opposite :
        (k j : Kind) (n : ℕ) → blocked j n ≡ true → blocked k n ≡ false → same k (other j) ≡ true
    opposite reader writer n b f = refl
    opposite writer reader n b f = refl
    opposite reader reader n b f = absurd (cc)
    opposite writer writer n b f = absurd (cc)

reads :
    (k : Kind) (i : ℕ) (t : Thread) (s : Pipe)
    → t.kind ≡ reader
    → get_elem? s.threads i ≡ some t
    → wakes k t ≡ false
    → NoLost k s
    → NoLost k (read_bytes i fine t s)
unfolding read_bytes
reads k i t s e found quiet h =
    let n = min t.count (s.buff_len - s.rd_pos) in
    if_cases (NoLost k) (leb s.buff_len (s.rd_pos + n))
      (λ _. turns k s i 0 t (done n) found quiet (ap (λ j. blocked j 0) e) h)
      λ _. goes k s i t (record t { pc = leaving (done n) }) found quiet refl h

writes :
    (k : Kind) (i : ℕ) (t : Thread) (s : Pipe)
    → t.kind ≡ writer
    → get_elem? s.threads i ≡ some t
    → wakes k t ≡ false
    → NoLost k s
    → NoLost k (write_bytes i fine t s)
unfolding write_bytes
writes k i t s e found quiet h =
    let n = length (take buff_size t.request) in
    if_cases (NoLost k) (ltb 0 n)
      (λ b. turns k s i n t (done n) found quiet (ap (λ j. blocked j n) e ∙ ground arith) h)
      λ _. goes k s i t (record t { pc = leaving (done 0) }) found quiet refl h

transfer-NoLost :
    (k j : Kind) (i : ℕ) (luck : Luck) (t : Thread) (s : Pipe)
    → t.kind ≡ j
    → get_elem? s.threads i ≡ some t
    → wakes k t ≡ false
    → NoLost k s
    → NoLost k (transfer j i luck t s)
unfolding transfer read_bytes write_bytes
transfer-NoLost k reader i (fault landed) t s e found quiet h =
    goes k s i t (record t { pc = leaving efault }) found quiet refl h
transfer-NoLost k reader i fine t s e found quiet h = reads k i t s e found quiet h
transfer-NoLost k reader i signal t s e found quiet h = reads k i t s e found quiet h
transfer-NoLost k writer i (fault landed) t s e found quiet h =
    goes k s i t (record t { pc = leaving efault }) found quiet refl h
transfer-NoLost k writer i fine t s e found quiet h = writes k i t s e found quiet h
transfer-NoLost k writer i signal t s e found quiet h = writes k i t s e found quiet h

lock-NoLost :
    (k : Kind) (o : Option ℕ) (i : ℕ) (t : Thread) (s : Pipe)
    → get_elem? s.threads i ≡ some t
    → wakes k t ≡ false
    → NoLost k s
    → NoLost k (lock o i t s)
unfolding lock
lock-NoLost k none i t s found q h = goes k s i t (record t { pc = entered }) found q refl h
lock-NoLost k (some j) i t s found q h = h

notify-NoLost :
    (k o : Kind) (r : Ret) (i : ℕ) (t : Thread) (s : Pipe)
    → other t.kind ≡ o
    → get_elem? s.threads i ≡ some t
    → NoLost k s
    → NoLost k (goto i t (leaving r) (record s { threads = map (wake o) s.threads }))
notify-NoLost k o r i t s e found h sleeper free =
    elim (any-set (asleep k) (map (wake o) s.threads) i (record t { pc = leaving r }) sleeper) [
      | inr a ↦ absurd (cc)
      | inl a ↦ elim (Bool-cases (same k o)) [
        | inl match ↦
            let none_left =
              any-map (asleep k) (λ t. false) (wake o) s.threads
                (λ t b. let c = asleep-wake k o t match in absurd (cc)) a in
            let none_at_all = any-none s.threads in absurd (cc)
        | inr apart ↦
            let quiet : wakes k t ≡ false =
              ap (λ j. is_notifying t.pc && same k j) e
              ∙ ap (λ b. is_notifying t.pc && b) apart
              ∙ and_false (is_notifying t.pc) in
            let there =
              any-map (asleep k) (asleep k) (wake o) s.threads (asleep-wake_other k o) a in
            any-set_keep (wakes k) (map (wake o) s.threads) i (record t { pc = leaving r })
              (wake o t) (get_elem?-map (wake o) s.threads i t found) (wakes-wake k o t ∙ quiet)
              (any-map_same (wakes k) (wake o) s.threads (wakes-wake k o) ∙ h there free)
      ]
    ]

act-NoLost :
    (k : Kind) (pc : Pc) (i : ℕ) (luck : Luck) (t : Thread) (s : Pipe)
    → t.pc ≡ pc
    → get_elem? s.threads i ≡ some t
    → NoLost k s
    → NoLost k (act pc i luck t s)
unfolding act lock
act-NoLost k trying i luck t s e found h =
    let q = hush k t trying e refl in
    if_cases (NoLost k) (is_signal luck)
      (λ _. goes k s i t (record t { pc = gone erestartsys }) found q refl h)
      λ _. lock-NoLost k s.owner i t s found q h
act-NoLost k entered i luck t s e found h =
    let q = hush k t entered e refl in
    if_cases (NoLost k) (blocked t.kind s.buff_len)
      (λ _. goes k s i t (record t { pc = released }) found q refl h)
      λ _. transfer-NoLost k t.kind i luck t s refl found q h
act-NoLost k released i luck t s e found h =
    let q = hush k t released e refl in
    if_cases (NoLost k) t.nonblock
      (λ _. goes k s i t (record t { pc = gone eagain }) found q refl h)
      λ _. goes k s i t (record t { pc = prepared; awake = false }) found q refl h
act-NoLost k prepared i luck t s e found h =
    let q = hush k t prepared e refl in
    if_cases (NoLost k) (blocked t.kind s.buff_len) (λ b. sleeps k s i t found q b h)
      λ _. goes k s i t (record t { pc = finishing }) found q refl h
act-NoLost k waiting i luck t s e found h =
    let q = hush k t waiting e refl in
    if_cases (NoLost k) (is_signal luck)
      (λ _. goes k s i t (record t { pc = finishing; awake = true }) found q refl h)
      λ _.
        if_cases (NoLost k) t.awake (λ _. goes k s i t (record t { pc = finishing }) found q refl h)
          λ _. h
act-NoLost k finishing i luck t s e found h =
    let q = hush k t finishing e refl in
    if_cases (NoLost k) (is_signal luck)
      (λ _. goes k s i t (record t { pc = gone erestartsys; awake = true }) found q refl h)
      λ _. goes k s i t (record t { pc = trying; awake = true }) found q refl h
act-NoLost k (notifying r) i luck t s e found h =
    notify-NoLost k (other t.kind) r i t s refl found h
act-NoLost k (leaving r) i luck t s e found h =
    goes k s i t (record t { pc = gone r }) found (hush k t (leaving r) e refl) refl h
act-NoLost k (gone r) i luck t s e found h = h

step-NoLost :
    (k : Kind) (o : Option Thread) (i : ℕ) (luck : Luck) (s : Pipe)
    → get_elem? s.threads i ≡ o
    → NoLost k s
    → NoLost k (step_of o i luck s)
unfolding step_of
step-NoLost k none i luck s found h = h
step-NoLost k (some t) i luck s found h = act-NoLost k t.pc i luck t s refl found h

-- However the steps of any number of readers and writers interleave, between the test of the condition
-- and the sleep too: a reader or writer that has not been woken up sleeps only while it is blocked, or
-- while one that has just changed this is about to wake up all of its kind. No wake-up is lost.
pub run-NoLost :
    (k : Kind) (steps : List (ℕ × Luck)) (s : Pipe) → NoLost k s → NoLost k (run steps s)
unfolding run step
run-NoLost k [] s h = h
run-NoLost k ((i, luck) ∷ rest) s h =
    run-NoLost k rest (step i luck s) (step-NoLost k (get_elem? s.threads i) i luck s refl h)
