-- ===== src/Netdev/Frame.antt =====
-- examples/30_netdev/main.c: what a section leaves alone.
use linux_device_driver.Prelude.{
  ℕ, ◌≡◌, refl, Bool, true, false, Option, none, some, List, [], ◌∷◌, if◌then◌else◌, if_cases,
}
use linux_device_driver.Netdev.Device.{
  Dev, sn0, sn1, Side, Task, enqueue, interrupt, dequeue, quiet, schedule, pass, release, wake,
  tx_done, mark, poll, complete, look, Net, side, put, received, rx_lost, sent, enqueue_at,
  interrupt_at, dequeue_at, schedule_at, release_at, poll_at, complete_at, look_at, front,
}
use linux_device_driver.Netdev.Steps.{
  exec, advance, refused, Call, start_xmit, softirq, change, start, call_at, resume, step_of,
  tx_dropped,
}

-- Neither the way of receiving nor the threads change.
abbrev pub Same : Net → Net → Type 0
Same s t = (t.use_napi ≡ s.use_napi) × (t.threads ≡ s.threads)

put-Same : (d : Dev) (x : Side) (s : Net) → Same s (put d x s)
put-Same sn0 x s = (refl, refl)
put-Same sn1 x s = (refl, refl)

pub exec-Same : (luck : Bool) (t : Task) (s : Net) → Same s (exec luck t s).0
unfolding exec
exec-Same luck (enqueue e p) s = put-Same e (enqueue_at e p (side e s)).0 s
exec-Same luck (interrupt e) s = put-Same e (interrupt_at s.use_napi e (side e s)).0 s
exec-Same luck (dequeue e) s = put-Same e (dequeue_at e (side e s).rx (side e s)).0 s
exec-Same luck (quiet e) s = put-Same e (record (side e s) { rx_int_enabled = false }) s
exec-Same luck (schedule e) s = put-Same e (schedule_at (side e s)) s
exec-Same luck (pass e p) s =
    put-Same e (if luck then rx_lost (side e s) else received p (side e s)) s
exec-Same luck (release p) s = put-Same p.dev (release_at p (side p.dev s)).0 s
exec-Same luck (wake e) s = put-Same e (record (side e s) { stopped = false }) s
exec-Same luck (tx_done e b) s = put-Same e (sent b (side e s)) s
exec-Same luck (mark e b) s = put-Same e (record (side e s) { tx_skb = some b; tx_intr = true }) s
exec-Same luck (poll e n) s = put-Same e (poll_at e n (side e s)).0 s
exec-Same luck (complete e) s = put-Same e (complete_at luck e (side e s)).0 s
exec-Same luck (look e) s = put-Same e (look_at e (side e s)).0 s

module _ (check : List ℕ → List ℕ) where
  pub call-Same : (c : Call) (s : Net) → Same s (call_at check c s).0
  unfolding call_at
  call-Same (start_xmit e b) s =
      if_cases (λ (r : Net × List Task). Same s r.0) (refused b)
        (λ _. put-Same e (tx_dropped (side e s)) s)
        (λ _. put-Same e (start check e b (front (side e s).pool) (side e s)).0 s)
  call-Same (softirq e) s =
      if_cases (λ (r : Net × List Task). Same s r.0) (side e s).listed
        (λ _. put-Same e (record (side e s) { listed = false }) s) (λ _. (refl, refl))
  call-Same (change e) s = put-Same e (advance s.use_napi (side e s).phase (side e s)).0 s

  pub step-napi :
      (i : ℕ) (luck : Bool) (c : Call) (o : Option (List Task)) (s : Net)
      → (step_of check i luck c o s).use_napi ≡ s.use_napi
  unfolding step_of
  step-napi i luck c none s = refl
  step-napi i luck c (some []) s = (call-Same c s).0
  step-napi i luck c (some (t ∷ ts)) s = (exec-Same luck t s).0

  -- Only the threads are put in behind a section.
  pub side-resume :
      (d : Dev) (i : ℕ) (ts : List Task) (r : Net × List Task)
      → side d (resume check i ts r) ≡ side d r.0
  side-resume sn0 i ts (s, us) = refl
  side-resume sn1 i ts (s, us) = refl
