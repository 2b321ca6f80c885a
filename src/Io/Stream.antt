-- ===== src/Io/Stream.antt =====
-- tools/qemu/hw/ldd/io.c: the bytes that reach a viewer over `ldd_io_panel_flush`.
use linux_device_driver.Prelude.{
  ℕ, ◌==◌, ◌≡◌, ◌⊎◌, inl, inr, refl, ◌∙◌, sym, ap, ap₂, subst, true, false, ◌&&◌, List, [], ◌∷◌,
  ◌++◌, append-nil, append_assoc, if_cases, arith, take, drop, take-append-drop,
}
use linux_device_driver.Io.State.{Io, Answer, took, again, gone, Effect, shown}
use linux_device_driver.Io.Panel.{build_panel, build_panel_regs}
use linux_device_driver.Io.Output.{is_empty, hold_output, sent, flush_with}

-- What the panel's character device has taken so far.
unfoldable pub shown_bytes : List Effect → List ℕ
shown_bytes [] = []
shown_bytes (shown bs ∷ es) = bs ++ shown_bytes es
shown_bytes (_ ∷ es) = shown_bytes es

-- What it has taken, and what is still to be sent.
abbrev pub stream : Io → List ℕ
stream s = shown_bytes s.effects ++ s.panel_out

-- No write fails for good.
abbrev pub IsSteady : List Answer → Type 0
IsSteady [] = Unit {0}
IsSteady (gone ∷ later) = ⊥
IsSteady (_ ∷ later) = IsSteady later

shown_bytes-append :
    (es fs : List Effect) → shown_bytes (es ++ fs) ≡ shown_bytes es ++ shown_bytes fs
unfolding shown_bytes
shown_bytes-append [] fs = refl
shown_bytes-append (shown bs ∷ es) fs =
    ap (λ t. bs ++ t) (shown_bytes-append es fs)
    ∙ sym (append_assoc bs (shown_bytes es) (shown_bytes fs))
shown_bytes-append (Effect.pulse ∷ es) fs = shown_bytes-append es fs
shown_bytes-append (Effect.accept_input ∷ es) fs = shown_bytes-append es fs
shown_bytes-append (Effect.unwatch ∷ es) fs = shown_bytes-append es fs

shown_bytes-shown :
    (es : List Effect) (bs : List ℕ) → shown_bytes (es ++ shown bs ∷ []) ≡ shown_bytes es ++ bs
unfolding shown_bytes
shown_bytes-shown es bs =
    shown_bytes-append es (shown bs ∷ []) ∙ ap (λ t. shown_bytes es ++ t) (append-nil bs)

pub empty_of : (bs : List ℕ) → is_empty bs ≡ true → bs ≡ []
empty_of [] h = refl
empty_of (b ∷ bs) h = cc

-- From `s` to `t` the viewer's stream went on by nothing, or, with a redraw that was asked for, by one
-- whole frame of the panel as it is.
abbrev pub Extends : Io → Io → Type 0
Extends s t =
    ((stream t ≡ stream s) × (t.panel_dirty ≡ s.panel_dirty))
    ⊎ ((s.panel_dirty ≡ true) × (t.panel_dirty ≡ false) × (stream t ≡ stream s ++ build_panel s))

-- A redraw is asked for only while a frame is on its way.
abbrev pub IsWaiting : Io → Type 0
IsWaiting s = is_empty s.panel_out ≡ true → s.panel_dirty ≡ false

-- What a flush does if no write fails for good and a watch can be had.
pub record Flushed (s t : Io) : Type 0 where
  pub extends : Extends s t
  pub waiting : IsWaiting t
  pub watched : is_empty t.panel_out ≡ false → t.panel_watch ≡ true
  pub steady : IsSteady t.answers
  pub text : build_panel t ≡ build_panel s
  pub watchable : t.can_watch ≡ true
  pub device : t.attached ≡ s.attached

Extends-trans :
    (s t u : Io) → build_panel t ≡ build_panel s → Extends s t → Extends t u → Extends s u
Extends-trans s t u b (inl (p, d)) (inl (q, e)) = inl (q ∙ p, e ∙ d)
Extends-trans s t u b (inl (p, d)) (inr (d1, d2, q)) =
    inr (sym d ∙ d1, d2, q ∙ ap₂ (λ (x y : List ℕ). x ++ y) p b)
Extends-trans s t u b (inr (d1, d2, p)) (inl (q, e)) = inr (d1, e ∙ d2, q ∙ p)
Extends-trans s t u b (inr (d1, d2, p)) (inr (e1, e2, q)) = absurd (cc)

sent_rest :
    (n : ℕ) (s : Io)
    → shown_bytes (s.effects ++ shown (take n s.panel_out) ∷ []) ++ drop n s.panel_out ≡ stream s
sent_rest n s =
    ap (λ t. t ++ drop n s.panel_out) (shown_bytes-shown s.effects (take n s.panel_out))
    ∙ append_assoc (shown_bytes s.effects) (take n s.panel_out) (drop n s.panel_out)
    ∙ ap (λ t. shown_bytes s.effects ++ t) (take-append-drop n s.panel_out)

sent_all :
    (n : ℕ) (s : Io)
    → is_empty (drop n s.panel_out) ≡ true
    → shown_bytes (s.effects ++ shown (take n s.panel_out) ∷ []) ≡ stream s
sent_all n s h =
    sym (append-nil _)
    ∙ ap (λ t. shown_bytes (s.effects ++ shown (take n s.panel_out) ∷ []) ++ t) (sym (empty_of _ h))
    ∙ sent_rest n s

sent-Extends :
    (n : ℕ) (later : List Answer) (s : Io) → Extends s (sent n (record s { answers = later }))
unfolding sent
sent-Extends n later s =
    if_cases (Extends s) (is_empty (drop n s.panel_out) && s.panel_dirty)
      (λ h. inr (
        ground arith,
        refl,
        ap₂ (λ (x y : List ℕ). x ++ y) (sent_all n s (ground arith)) (build_panel_regs s _ _ _ _ _),
      ))
      λ _. inl (sent_rest n s, refl)

sent-IsWaiting :
    (n : ℕ) (later : List Answer) (s : Io) → IsWaiting (sent n (record s { answers = later }))
unfolding sent
sent-IsWaiting n later s =
    if_cases IsWaiting (is_empty (drop n s.panel_out) && s.panel_dirty) (λ _ _. refl)
      λ h e. ground arith

-- What a round of the loop keeps.
record Kept (later : List Answer) (s t : Io) : Type 0 where
  answers_same : t.answers ≡ later
  text_same : build_panel t ≡ build_panel s
  watchable_same : t.can_watch ≡ s.can_watch
  device_same : t.attached ≡ s.attached

sent-Kept :
    (n : ℕ) (later : List Answer) (s : Io) → Kept later s (sent n (record s { answers = later }))
unfolding sent
sent-Kept n later s =
    if_cases (Kept later s) (is_empty (drop n s.panel_out) && s.panel_dirty)
      (λ _. record {
        answers_same = refl;
        text_same = build_panel_regs s _ _ _ _ _;
        watchable_same = refl;
        device_same = refl;
      })
      λ _. record {
        answers_same = refl;
        text_same = build_panel_regs s _ _ _ _ _;
        watchable_same = refl;
        device_same = refl;
      }

Flushed-refl :
    (s : Io)
    → IsSteady s.answers
    → s.can_watch ≡ true
    → IsWaiting s
    → is_empty s.panel_out ≡ true
    → Flushed s s
Flushed-refl s st cw w h = record {
  extends = inl (refl, refl);
  waiting = w;
  watched = λ e. absurd (cc);
  steady = st;
  text = refl;
  watchable = cw;
  device = refl;
}

hold-Flushed :
    (later : List Answer) (s : Io)
    → IsSteady later
    → s.can_watch ≡ true
    → is_empty s.panel_out ≡ false
    → Flushed s (hold_output (record s { answers = later }))
unfolding hold_output
hold-Flushed later s st cw h = record {
  extends = inl (ground arith, refl);
  waiting = λ e. absurd (ground arith);
  watched = λ e. ground arith;
  steady = st;
  text = build_panel_regs s _ _ _ _ _;
  watchable = cw;
  device = refl;
}

Flushed-trans :
    (later : List Answer) (s t u : Io) → Kept later s t → Extends s t → Flushed t u → Flushed s u
Flushed-trans later s t u k e f = record {
  extends = Extends-trans s t u k.text_same e f.extends;
  waiting = f.waiting;
  watched = f.watched;
  steady = f.steady;
  text = f.text ∙ k.text_same;
  watchable = f.watchable;
  device = f.device ∙ k.device_same;
}

pub flush_with-Flushed :
    (todo : List Answer) (s : Io)
    → IsSteady todo
    → IsSteady s.answers
    → s.can_watch ≡ true
    → IsWaiting s
    → Flushed s (flush_with todo s)
unfolding flush_with
flush_with-Flushed [] s st sa cw w =
    if_cases (Flushed s) (is_empty s.panel_out) (Flushed-refl s sa cw w)
      (hold-Flushed s.answers s sa cw)
flush_with-Flushed (took n ∷ later) s st sa cw w =
    let t = sent n (record s { answers = later }) in
    let k = sent-Kept n later s in
    if_cases (Flushed s) (is_empty s.panel_out) (Flushed-refl s sa cw w) λ h.
      if_cases (Flushed s) (n == 0) (λ _. hold-Flushed later s st cw h)
        λ _. Flushed-trans later s t (flush_with later t) k (sent-Extends n later s) (
          flush_with-Flushed later t st (subst IsSteady (sym k.answers_same) st)
            (k.watchable_same ∙ cw) (sent-IsWaiting n later s))
flush_with-Flushed (again ∷ later) s st sa cw w =
    if_cases (Flushed s) (is_empty s.panel_out) (Flushed-refl s sa cw w)
      (hold-Flushed later s st cw)
flush_with-Flushed (gone ∷ later) s st sa cw w = elim st [ ]
