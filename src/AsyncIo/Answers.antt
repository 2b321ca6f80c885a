-- ===== src/AsyncIo/Answers.antt =====
-- examples/25_async_io/main.c: a request is told its result at once or waits for it.
use linux_device_driver.Prelude.{
  ℕ, zero, suc, ◌+◌, ◌≡◌, refl, Bool, true, false, List, [], ◌∷◌, ◌++◌, if◌then◌else◌, arith,
}
use linux_device_driver.AsyncIo.Device.{
  Ret, done, erestartsys, efault, enospc, eiocbqueued, Work, answer, tell, remove, at, Request,
  read, write, Call, Ring, do_read, do_write, Aio, submit, complete, Step, submits, completes,
}
use linux_device_driver.AsyncIo.Calls.{is_final}

-- What the ring answers to a request.
unfoldable pub result_of : Call → Request → Ring → Ret
result_of c (read count) dev = (do_read c.locked count c.able dev).0
result_of c (write bytes) dev = (do_write c.locked bytes c.able dev).0

-- The results of the requests that the steps submit, in the order of their numbers.
unfoldable pub results : List Step → Aio → List Ret
results [] s = []
results (submits c ∷ xs) s = result_of c c.request s.dev ∷ results xs (submit c c.request s)
results (completes i ∷ xs) s = results xs (complete i s)

abbrev pub one_if : Bool → ℕ
one_if b = if b then 1 else 0

-- Of the numbers from `n` on and their results: how many pairs `p` holds of.
unfoldable pub tally : (ℕ → Ret → Bool) → ℕ → List Ret → ℕ
tally p n [] = 0
tally p n (r ∷ rs) = one_if (p n r) + tally p (n + 1) rs

-- Of the requests that were told a result, and of those in the work queue with the result that they
-- wait for: how many pairs of a number and a result `p` holds of.
unfoldable pub times : (ℕ → Ret → Bool) → List (ℕ × Ret) → ℕ
times p [] = 0
times p ((i, r) ∷ rest) = one_if (p i r) + times p rest

unfoldable pub waits : (ℕ → Ret → Bool) → List Work → ℕ
waits p [] = 0
waits p (w ∷ ws) = one_if (p w.iocb (done w.result)) + waits p ws

module _ (p : ℕ → Ret → Bool) where
  pub times-append : (xs ys : List (ℕ × Ret)) → times p (xs ++ ys) ≡ times p xs + times p ys
  unfolding times
  times-append [] ys = omega arith
  times-append ((i, r) ∷ xs) ys = omega (arith, times-append xs ys)

  waits-append : (xs ys : List Work) → waits p (xs ++ ys) ≡ waits p xs + waits p ys
  unfolding waits
  waits-append [] ys = omega arith
  waits-append (w ∷ xs) ys = omega (arith, waits-append xs ys)

  pub waits-remove :
      (i : ℕ) (ws : List Work) → waits p ws ≡ waits p (remove i ws) + times p (at i ws)
  unfolding waits times
  waits-remove i [] = refl
  waits-remove zero (w ∷ ws) = omega arith
  waits-remove (suc i) (w ∷ ws) = omega (arith, waits-remove i ws)

  times-told :
      (i : ℕ) (r : Ret) (told : List (ℕ × Ret))
      → times p (told ++ (i, r) ∷ []) ≡ times p told + one_if (p i r)
  unfolding times
  times-told i r told = omega (arith, times-append told ((i, r) ∷ []))

  tell_lem :
      (i : ℕ) (r : Ret) (told : List (ℕ × Ret))
      → is_final r ≡ true
      → times p (tell i r told) ≡ times p told + one_if (p i r)
  tell_lem i (done k) told f = times-told i (done k) told
  tell_lem i erestartsys told f = times-told i erestartsys told
  tell_lem i efault told f = times-told i efault told
  tell_lem i enospc told f = times-told i enospc told
  tell_lem i eiocbqueued told f = ground arith

  -- A request is told its result at once or waits for it.
  pub answer_lem :
      (sync memory : Bool) (i : ℕ) (r : Ret) (told : List (ℕ × Ret)) (works : List Work)
      → is_final r ≡ true
      → (let a = answer sync memory i r works in
          times p (tell i a.0 told) + waits p a.1 ≡ times p told + waits p works + one_if (p i r))
  unfolding waits
  answer_lem true memory i r told works f = omega (arith, tell_lem i r told f)
  answer_lem false true i (done k) told works f =
      omega (arith, waits-append works (record { iocb = i; result = k } ∷ []))
  answer_lem false false i (done k) told works f = omega (arith, tell_lem i (done k) told f)
  answer_lem false memory i erestartsys told works f = omega (arith, tell_lem i erestartsys told f)
  answer_lem false memory i efault told works f = omega (arith, tell_lem i efault told f)
  answer_lem false memory i enospc told works f = omega (arith, tell_lem i enospc told f)
  answer_lem false memory i eiocbqueued told works f = ground arith
