-- ===== src/Pipe/Threads.antt =====
-- examples/09_pipe_advanced_sleep/fops.c: the threads of a pipe that sleep and those that wake them.
use linux_device_driver.Prelude.{
  ℕ, zero, suc, ◌≡◌, ◌⊎◌, inl, inr, refl, ◌∙◌, ap, ap₂, Bool, true, false, not, ◌&&◌, ◌||◌, Option,
  none, some, List, [], ◌∷◌, map, get_elem?, set, arith,
}
use linux_device_driver.Pipe.Device.{
  Kind, reader, writer, Thread, Pipe, Pc, trying, entered, released, prepared, waiting, finishing,
  notifying, leaving, gone, blocked, is_queued, wake, other, same,
}

abbrev pub any : (Thread → Bool) → List Thread → Bool
any p [] = false
any p (t ∷ ts) = p t || any p ts

abbrev pub is_waiting : Pc → Bool
is_waiting waiting = true
is_waiting _ = false

abbrev pub is_notifying : Pc → Bool
is_notifying (notifying r) = true
is_notifying _ = false

-- A thread of kind `k` that is in `schedule` and has not been woken up.
abbrev pub asleep : Kind → Thread → Bool
asleep k t = is_waiting t.pc && (same k t.kind && not t.awake)

-- A thread that is about to wake up those of kind `k`.
abbrev pub wakes : Kind → Thread → Bool
wakes k t = is_notifying t.pc && same k (other t.kind)

-- Threads of kind `k` sleep only while they are blocked, or while the one is at work that wakes them.
abbrev pub NoLost : Kind → Pipe → Type 0
NoLost k s =
    any (asleep k) s.threads ≡ true → blocked k s.buff_len ≡ false → any (wakes k) s.threads ≡ true

pub or_true : (a b : Bool) → (a || b) ≡ true → (a ≡ true) ⊎ (b ≡ true)
or_true true b h = inl refl
or_true false b h = inr h

pub any-set :
    (p : Thread → Bool) (ts : List Thread) (i : ℕ) (t : Thread)
    → any p (set ts i t) ≡ true
    → (any p ts ≡ true) ⊎ (p t ≡ true)
any-set p [] i t h = inl h
any-set p (x ∷ ts) zero t h = ground arith
any-set p (x ∷ ts) (suc i) t h = elim (or_true (p x) (any p (set ts i t)) h) [
  | inl a ↦ inl (ground arith)
  | inr b ↦ elim (any-set p ts i t b) [ inl c ↦ inl (ground arith) | inr d ↦ inr d ]
]

pub any-set_here :
    (p : Thread → Bool) (ts : List Thread) (i : ℕ) (t : Thread) {old : Thread}
    → get_elem? ts i ≡ some old
    → p t ≡ true
    → any p (set ts i t) ≡ true
any-set_here p [] i t e h = absurd (cc)
any-set_here p (x ∷ ts) zero t e h = ground arith
any-set_here p (x ∷ ts) (suc i) t e h = let r = any-set_here p ts i t e h in ground arith

abbrev pub held : (Thread → Bool) → Option Thread → Bool
held p none = false
held p (some t) = p t

pub any-set_keep :
    (p : Thread → Bool) (ts : List Thread) (i : ℕ) (t old : Thread)
    → get_elem? ts i ≡ some old
    → p old ≡ false
    → any p ts ≡ true
    → any p (set ts i t) ≡ true
any-set_keep p [] i t old e n h = h
any-set_keep p (x ∷ ts) zero t old e n h = let q : p x ≡ false = ap (held p) e ∙ n in ground arith
any-set_keep p (x ∷ ts) (suc i) t old e n h = elim (or_true (p x) (any p ts) h) [
  | inl a ↦ ground arith
  | inr b ↦ let r = any-set_keep p ts i t old e n b in ground arith
]

-- `wake_up_interruptible` leaves none of its kind asleep, and puts none to sleep.
pub queued_waiting : (pc : Pc) → (is_waiting pc ≡ false) ⊎ (is_queued pc ≡ true)
queued_waiting waiting = inr refl
queued_waiting trying = inl refl
queued_waiting entered = inl refl
queued_waiting released = inl refl
queued_waiting prepared = inl refl
queued_waiting finishing = inl refl
queued_waiting (notifying r) = inl refl
queued_waiting (leaving r) = inl refl
queued_waiting (gone r) = inl refl

pub agrees : (k j o : Kind) → same k o ≡ true → same k j ≡ same o j
agrees reader j reader e = refl
agrees writer j writer e = refl
agrees reader j writer e = absurd (cc)
agrees writer j reader e = absurd (cc)

pub asleep-wake : (k o : Kind) (t : Thread) → same k o ≡ true → asleep k (wake o t) ≡ false
unfolding wake
asleep-wake k o t e = ground (arith, queued_waiting t.pc, agrees k t.kind o e)

pub asleep-wake_other : (k o : Kind) (t : Thread) → asleep k (wake o t) ≡ true → asleep k t ≡ true
unfolding wake
asleep-wake_other k o t h = ground arith

pub wakes-wake : (k o : Kind) (t : Thread) → wakes k (wake o t) ≡ wakes k t
unfolding wake
wakes-wake k o t = ground arith

pub any-map :
    (p q : Thread → Bool) (f : Thread → Thread) (ts : List Thread)
    → ((t : Thread) → p (f t) ≡ true → q t ≡ true)
    → any p (map f ts) ≡ true
    → any q ts ≡ true
any-map p q f [] h a = a
any-map p q f (t ∷ ts) h a = elim (or_true (p (f t)) (any p (map f ts)) a) [
  | inl x ↦ let y = h t x in ground arith
  | inr x ↦ let y = any-map p q f ts h x in ground arith
]

pub any-none : (ts : List Thread) → any (λ t. false) ts ≡ false
any-none [] = refl
any-none (t ∷ ts) = any-none ts

pub any-map_same :
    (p : Thread → Bool) (f : Thread → Thread) (ts : List Thread)
    → ((t : Thread) → p (f t) ≡ p t)
    → any p (map f ts) ≡ any p ts
any-map_same p f [] h = refl
any-map_same p f (t ∷ ts) h = ap₂ (λ (a b : Bool). a || b) (h t) (any-map_same p f ts h)

abbrev pub mapped : (Thread → Thread) → Option Thread → Option Thread
mapped f none = none
mapped f (some t) = some (f t)

pub and_false : (b : Bool) → (b && false) ≡ false
and_false true = refl
and_false false = refl

pub get_elem?-map :
    (f : Thread → Thread) (ts : List Thread) (i : ℕ) (t : Thread)
    → get_elem? ts i ≡ some t
    → get_elem? (map f ts) i ≡ some (f t)
get_elem?-map f [] i t e = absurd (cc)
get_elem?-map f (x ∷ ts) zero t e = ap (mapped f) e
get_elem?-map f (x ∷ ts) (suc i) t e = get_elem?-map f ts i t e
