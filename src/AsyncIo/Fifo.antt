-- ===== src/AsyncIo/Fifo.antt =====
-- examples/25_async_io/main.c: the ring buffer as a queue of bytes, and the answers to the requests.
use linux_device_driver.Prelude.{
  ℕ, ◌+◌, ◌≤◌, ◌≡◌, refl, sym, ◌∙◌, ap, Bool, List, [], ◌∷◌, ◌++◌, append_assoc, length-replicate,
  replicate, arith,
}
use linux_device_driver.AsyncIo.Device.{
  buff_size, do_read, do_write, Ret, Request, read, write, Call, Aio, submit, at, complete, Step,
  submits, completes, step, run,
}
use linux_device_driver.AsyncIo.Ring.{contents, around, IsValid}
use linux_device_driver.AsyncIo.Calls.{do_read-Took, do_write-Put}
use linux_device_driver.AsyncIo.Answers.{
  result_of, results, tally, times, waits, times-append, waits-remove, one_if, answer_lem,
}

-- The bytes that came in are those that went out and those in the ring.
record Inv (s : Aio) : Type 0 where
  pub ring : IsValid s.dev
  pub order : s.out ++ contents s.dev ≡ s.taken

submit-Inv : (c : Call) (q : Request) (s : Aio) → Inv s → Inv (submit c q s)
unfolding submit
submit-Inv c (read count) s v =
    let t = do_read c.locked count c.able s.dev in
    let (ring, took, _) = do_read-Took c.locked count c.able s.dev v.ring in
    record {
      ring = ring;
      order =
          append_assoc s.out t.1 (contents t.2)
          ∙ ap (λ (ys : List ℕ). s.out ++ ys) (sym took)
          ∙ v.order;
    }
submit-Inv c (write bytes) s v =
    let t = do_write c.locked bytes c.able s.dev in
    let (ring, put, _) = do_write-Put c.locked bytes c.able s.dev v.ring in
    record {
      ring = ring;
      order =
          ap (λ (ys : List ℕ). s.out ++ ys) put
          ∙ sym (append_assoc s.out (contents s.dev) t.1)
          ∙ ap (λ (ys : List ℕ). ys ++ t.1) v.order;
    }

complete-Inv : (i : ℕ) (s : Aio) → Inv s → Inv (complete i s)
complete-Inv i s v = record { ring = v.ring; order = v.order }

run-Inv : (xs : List Step) (s : Aio) → Inv s → Inv (run xs s)
unfolding run step
run-Inv [] s v = v
run-Inv (submits c ∷ xs) s v = run-Inv xs (submit c c.request s) (submit-Inv c c.request s v)
run-Inv (completes i ∷ xs) s v = run-Inv xs (complete i s) (complete-Inv i s v)

module _ (p : ℕ → Ret → Bool) where
  -- The pairs of a number and a result, told or waiting, of which `p` holds.
  abbrev answered : Aio → ℕ
  answered s = times p s.told + waits p s.works

  submit-answered :
      (c : Call) (q : Request) (s : Aio)
      → Inv s
      → answered (submit c q s) ≡ answered s + one_if (p s.next (result_of c q s.dev))
  unfolding submit result_of
  submit-answered c (read count) s v =
      let t = do_read c.locked count c.able s.dev in
      answer_lem p c.sync c.memory s.next t.0 s.told s.works
        (do_read-Took c.locked count c.able s.dev v.ring).2
  submit-answered c (write bytes) s v =
      let t = do_write c.locked bytes c.able s.dev in
      answer_lem p c.sync c.memory s.next t.0 s.told s.works
        (do_write-Put c.locked bytes c.able s.dev v.ring).2

  complete-answered : (i : ℕ) (s : Aio) → answered (complete i s) ≡ answered s
  complete-answered i s =
      omega (arith, times-append p s.told (at i s.works), waits-remove p i s.works)

  submit_next : (c : Call) (q : Request) (s : Aio) → (submit c q s).next ≡ s.next + 1
  unfolding submit
  submit_next c (read count) s = refl
  submit_next c (write bytes) s = refl

  run-answered :
      (xs : List Step) (s : Aio)
      → Inv s
      → answered (run xs s) ≡ answered s + tally p s.next (results xs s)
  unfolding run step results tally
  run-answered [] s v = omega arith
  run-answered (submits c ∷ xs) s v =
      let s' = submit c c.request s in
      omega (
        arith,
        run-answered xs s' (submit-Inv c c.request s v),
        submit-answered c c.request s v,
        ap (λ n. tally p n (results xs s')) (submit_next c c.request s),
      )
  run-answered (completes i ∷ xs) s v =
      omega (arith, run-answered xs (complete i s) (complete-Inv i s v), complete-answered i s)

-- The device of `m_init`, with no request yet.
abbrev pub created : Aio
created = record {
  dev = record { len = 0; read_cur = 0; write_cur = 0; buff = replicate buff_size 0 };
  works = [];
  next = 0;
  told = [];
  out = [];
  taken = [];
}

created-Inv : Inv created
unfolding around
created-Inv = record {
  ring = record {
    size = length-replicate {A = ℕ} buff_size 0;
    full = omega arith;
    reads = omega arith;
    writes = refl;
  };
  order = refl;
}

-- From the created device on, for requests of any kind and length in any order, synchronous or not, with the
-- deferred completions in any order and with faults, signals and failures to allocate: the bytes that
-- went out are the first of those that came in, in their order, and the ring holds the others, no more
-- than it has room for. And each request submitted was told once what the ring answered when it was
-- submitted, or waits for that in the work queue, once, and no other was told anything: whatever is
-- counted of the pairs of a number and a result, those told and those that wait are as many as those
-- of the requests, numbered in their order.
pub run-Fifo :
    (steps : List Step)
    → (let s = run steps created in
        (s.out ++ contents s.dev ≡ s.taken)
        × (s.dev.len ≤ buff_size)
        × ((p : ℕ → Ret → Bool)
            → times p s.told + waits p s.works ≡ tally p 0 (results steps created)))
unfolding times waits
run-Fifo steps =
    let v = run-Inv steps created created-Inv in
    (v.order, v.ring.full, λ p. omega (arith, run-answered p steps created created-Inv))
