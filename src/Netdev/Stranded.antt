-- ===== src/Netdev/Stranded.antt =====
-- examples/30_netdev/main.c: with NAPI, however the threads interleave, no received frame is left behind.
use linux_device_driver.Prelude.{
  ℕ, ◌+◌, ◌≡◌, refl, sym, subst, ◌∙◌, Bool, Option, none, some, List, [], ◌∷◌, ◌++◌, get_elem?, set,
  arith,
}
use linux_device_driver.Netdev.Device.{Dev, Side, Task, Net, side}
use linux_device_driver.Netdev.Steps.{exec, Call, call_at, step_of, step, run}
use linux_device_driver.Netdev.Threads.{sum, sum_all, sum_all-next, sum_all-call}
use linux_device_driver.Netdev.Work.{
  polls, turns, quiets, interrupts, wakes, Work, work_of, Covered, plus,
}
use linux_device_driver.Netdev.Threads.{sum_all-set}
use linux_device_driver.Netdev.Frame.{exec-Same, call-Same, step-napi, side-resume}
use linux_device_driver.Netdev.Polling.{exec-Holds, call-Holds}

recount :
    (n : Bool) (x : Side) (w v : Work)
    → w.polling ≡ v.polling
    → w.turning ≡ v.turning
    → w.quieting ≡ v.quieting
    → w.interrupting ≡ v.interrupting
    → w.waking ≡ v.waking
    → Covered n x w
    → Covered n x v
recount n x w v a b c e f h = ground arith

-- The sum over the threads, with and without the task that thread `i` does next.
module _ (tss : List (List Task)) (i : ℕ) (t : Task) (ts us : List Task)
    (e : get_elem? tss i ≡ some (t ∷ ts)) where
  before : (f : Task → ℕ) → sum_all f tss ≡ sum_all f (set tss i ts) + sum f (t ∷ [])
  before f = omega (arith, sum_all-set f tss i (t ∷ ts) ts e)

  after : (f : Task → ℕ) → sum_all f (set tss i ts) + sum f us ≡ sum_all f (set tss i (us ++ ts))
  after f = omega (arith, before f, sum_all-next f tss i t ts us e)

module _ (check : List ℕ → List ℕ) (d : Dev) where
  next-Covered :
      (i : ℕ) (luck : Bool) (t : Task) (ts : List Task) (s : Net)
      → get_elem? s.threads i ≡ some (t ∷ ts)
      → Covered s.use_napi (side d s) (work_of d s.threads)
      → Covered s.use_napi
          (side d (exec luck t s).0)
          (work_of d (set s.threads i ((exec luck t s).1 ++ ts)))
  next-Covered i luck t ts s e h =
      let us = (exec luck t s).1 in
      let w = work_of d (set s.threads i ts) in
      let b = before s.threads i t ts us e in
      let a = after s.threads i t ts us e in
      recount s.use_napi (side d (exec luck t s).0) (plus d w us)
        (work_of d (set s.threads i (us ++ ts))) (a (polls d)) (a (turns d)) (a (quiets d))
        (a (interrupts d)) (a (wakes d))
        (exec-Holds d w luck t s (
          recount s.use_napi (side d s) (work_of d s.threads) (plus d w (t ∷ [])) (b (polls d))
            (b (turns d)) (b (quiets d)) (b (interrupts d)) (b (wakes d)) h))

  call-Covered :
      (i : ℕ) (c : Call) (s : Net)
      → get_elem? s.threads i ≡ some []
      → Covered s.use_napi (side d s) (work_of d s.threads)
      → Covered s.use_napi
          (side d (call_at check c s).0)
          (work_of d (set s.threads i ((call_at check c s).1 ++ [])))
  call-Covered i c s e h =
      let us = (call_at check c s).1 in
      let w = work_of d s.threads in
      let a = λ (f : Task → ℕ). sym (sum_all-call f s.threads i us e) in
      recount s.use_napi (side d (call_at check c s).0) (plus d w us)
        (work_of d (set s.threads i (us ++ []))) (a (polls d)) (a (turns d)) (a (quiets d))
        (a (interrupts d)) (a (wakes d))
        (call-Holds d w check c s (
          recount s.use_napi (side d s) w (plus d w []) (omega arith) (omega arith) (omega arith)
            (omega arith) (omega arith) h))

  step-Covered :
      (i : ℕ) (luck : Bool) (c : Call) (o : Option (List Task)) (s : Net)
      → get_elem? s.threads i ≡ o
      → Covered s.use_napi (side d s) (work_of d s.threads)
      → Covered s.use_napi
          (side d (step_of check i luck c o s))
          (work_of d (step_of check i luck c o s).threads)
  unfolding step_of
  step-Covered i luck c none s e h = h
  step-Covered i luck c (some []) s e h =
      let r = call_at check c s in
      subst (λ x. Covered s.use_napi x (work_of d (set r.0.threads i (r.1 ++ []))))
        (sym (side-resume check d i [] r))
        (subst (λ tss. Covered s.use_napi (side d r.0) (work_of d (set tss i (r.1 ++ []))))
          (sym (call-Same check c s).1) (call-Covered i c s e h))
  step-Covered i luck c (some (t ∷ ts)) s e h =
      let r = exec luck t s in
      subst (λ x. Covered s.use_napi x (work_of d (set r.0.threads i (r.1 ++ ts))))
        (sym (side-resume check d i ts r))
        (subst (λ tss. Covered s.use_napi (side d r.0) (work_of d (set tss i (r.1 ++ ts))))
          (sym (exec-Same luck t s).1) (next-Covered i luck t ts s e h))

  pub run-Covered :
      (n : Bool) (es : List (ℕ × Bool × Call)) (s : Net)
      → s.use_napi ≡ n
      → Covered n (side d s) (work_of d s.threads)
      → Covered n (side d (run check es s)) (work_of d (run check es s).threads)
  unfolding run step
  run-Covered n [] s q h = h
  run-Covered n ((i, luck, c) ∷ es) s q h =
      let o = get_elem? s.threads i in
      run-Covered n es (step check (i, luck, c) s) (step-napi check i luck c o s ∙ q) (
        subst
          (λ m.
            Covered m (side d (step_of check i luck c o s))
              (work_of d (step_of check i luck c o s).threads))
          q
          (step-Covered i luck c o s refl
            (subst (λ m. Covered m (side d s) (work_of d s.threads)) (sym q) h)))
