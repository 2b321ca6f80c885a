-- ===== src/Io/Frame.antt =====
-- tools/qemu/hw/ldd/io.c: what the sending of panel output leaves alone.
use linux_device_driver.Prelude.{
  ℕ, ◌+◌, ◌==◌, ◌≡◌, refl, ◌∙◌, Bool, true, false, not, ◌&&◌, List, [], ◌∷◌, ◌++◌, if◌then◌else◌,
  if_cases, arith, drop,
}
use linux_device_driver.Io.State.{
  Io, Answer, took, again, gone, Effect, pulse, accept_input, unwatch,
}
use linux_device_driver.Io.Panel.{build_panel, clear_screen, build_panel_regs}
use linux_device_driver.Io.Device.{panel_opened, panel_closed}
use linux_device_driver.Io.Output.{
  is_empty, hold_output, sent, flush_with, panel_flush, panel_writable, draw_panel, panel_drop,
}

abbrev pub is_pulse : Effect → Bool
is_pulse pulse = true
is_pulse _ = false

abbrev pub is_accept : Effect → Bool
is_accept accept_input = true
is_accept _ = false

-- How many of the calls are of a kind.
unfoldable pub count : (Effect → Bool) → List Effect → ℕ
count p [] = 0
count p (e ∷ es) = (if p e then 1 else 0) + count p es

pub count-snoc :
    (p : Effect → Bool) (es : List Effect) (e : Effect)
    → count p (es ++ e ∷ []) ≡ count p es + (if p e then 1 else 0)
unfolding count
count-snoc p [] e = omega arith
count-snoc p (x ∷ es) e = omega (arith, count-snoc p es e)

-- The registers, the text of the panel, and the counts of the calls other than for
-- output are the same.
pub record Frame (a b : Io) : Type 0 where
  pub status_same : b.status ≡ a.status
  pub ctrl_same : b.ctrl ≡ a.ctrl
  pub data_in_same : b.data_in ≡ a.data_in
  pub data_out_same : b.data_out ≡ a.data_out
  pub matrix_same : b.matrix ≡ a.matrix
  pub irq_pulses_same : b.irq_pulses ≡ a.irq_pulses
  pub can_watch_same : b.can_watch ≡ a.can_watch
  pub text_same : build_panel b ≡ build_panel a
  pub pulse_same : count is_pulse b.effects ≡ count is_pulse a.effects
  pub accept_same : count is_accept b.effects ≡ count is_accept a.effects

Frame-refl : (a : Io) → Frame a a
Frame-refl a = record {
  status_same = refl;
  ctrl_same = refl;
  data_in_same = refl;
  data_out_same = refl;
  matrix_same = refl;
  irq_pulses_same = refl;
  can_watch_same = refl;
  text_same = refl;
  pulse_same = refl;
  accept_same = refl;
}

pub Frame-trans : (a b c : Io) → Frame a b → Frame b c → Frame a c
Frame-trans a b c f g = record {
  status_same = g.status_same ∙ f.status_same;
  ctrl_same = g.ctrl_same ∙ f.ctrl_same;
  data_in_same = g.data_in_same ∙ f.data_in_same;
  data_out_same = g.data_out_same ∙ f.data_out_same;
  matrix_same = g.matrix_same ∙ f.matrix_same;
  irq_pulses_same = g.irq_pulses_same ∙ f.irq_pulses_same;
  can_watch_same = g.can_watch_same ∙ f.can_watch_same;
  text_same = g.text_same ∙ f.text_same;
  pulse_same = g.pulse_same ∙ f.pulse_same;
  accept_same = g.accept_same ∙ f.accept_same;
}

-- Another state of the output, with calls that are neither pulses nor news for the keyboard.
unfoldable set_output : List ℕ → Bool → Bool → List Answer → List Effect → Io → Io
set_output out watch dirty later es s = record s {
  panel_out = out;
  panel_watch = watch;
  panel_dirty = dirty;
  answers = later;
  effects = es;
}

set_output-Frame :
    (out : List ℕ) (watch dirty : Bool) (later : List Answer) (es : List Effect) (s : Io)
    → count is_pulse es ≡ count is_pulse s.effects
    → count is_accept es ≡ count is_accept s.effects
    → Frame s (set_output out watch dirty later es s)
unfolding set_output
set_output-Frame out watch dirty later es s p a = record {
  status_same = refl;
  ctrl_same = refl;
  data_in_same = refl;
  data_out_same = refl;
  matrix_same = refl;
  irq_pulses_same = refl;
  can_watch_same = refl;
  text_same = build_panel_regs s out watch dirty later es;
  pulse_same = p;
  accept_same = a;
}

show_counts :
    (p : Effect → Bool) (es : List Effect) (e : Effect)
    → p e ≡ false
    → count p (es ++ e ∷ []) ≡ count p es
show_counts p es e h = ground (arith, count-snoc p es e)

sent-Frame :
    (n : ℕ) (later : List Answer) (s : Io) → Frame s (sent n (record s { answers = later }))
unfolding sent set_output
sent-Frame n later s =
    if_cases (Frame s) (is_empty (drop n s.panel_out) && s.panel_dirty)
      (λ _.
        set_output-Frame _ s.panel_watch false later _ s (show_counts is_pulse s.effects _ refl)
          (show_counts is_accept s.effects _ refl))
      λ _.
        set_output-Frame _ s.panel_watch s.panel_dirty later _ s
          (show_counts is_pulse s.effects _ refl) (show_counts is_accept s.effects _ refl)

hold_output-Frame :
    (later : List Answer) (s : Io) → Frame s (hold_output (record s { answers = later }))
unfolding hold_output set_output
hold_output-Frame later s = set_output-Frame _ _ s.panel_dirty later s.effects s refl refl

pub flush_with-Frame : (todo : List Answer) (s : Io) → Frame s (flush_with todo s)
unfolding flush_with set_output
flush_with-Frame [] s =
    if_cases (Frame s) (is_empty s.panel_out) (λ _. Frame-refl s) λ _. hold_output-Frame s.answers s
flush_with-Frame (took n ∷ later) s =
    let t = sent n (record s { answers = later }) in
    if_cases (Frame s) (is_empty s.panel_out) (λ _. Frame-refl s)
      λ _.
        if_cases (Frame s) (n == 0) (λ _. hold_output-Frame later s)
          λ _.
            Frame-trans s t (flush_with later t) (sent-Frame n later s) (flush_with-Frame later t)
flush_with-Frame (again ∷ later) s =
    if_cases (Frame s) (is_empty s.panel_out) (λ _. Frame-refl s) λ _. hold_output-Frame later s
flush_with-Frame (gone ∷ later) s =
    if_cases (Frame s) (is_empty s.panel_out) (λ _. Frame-refl s)
      λ _. set_output-Frame [] s.panel_watch s.panel_dirty later s.effects s refl refl

pub draw_panel-Frame : (s : Io) → Frame s (draw_panel s)
unfolding draw_panel panel_flush set_output
draw_panel-Frame s =
    if_cases (Frame s) (not s.attached) (λ _. Frame-refl s)
      λ _.
        if_cases (Frame s) (not (is_empty s.panel_out))
          (λ _. set_output-Frame s.panel_out s.panel_watch true s.answers s.effects s refl refl)
          λ _.
            let t = set_output (build_panel s) s.panel_watch s.panel_dirty s.answers s.effects s in
            Frame-trans s t (flush_with s.answers t)
              (set_output-Frame (build_panel s) s.panel_watch s.panel_dirty s.answers s.effects s
                refl refl)
              (flush_with-Frame s.answers t)

pub panel_writable-Frame : (s : Io) → Frame s (panel_writable s)
unfolding panel_writable panel_flush set_output
panel_writable-Frame s =
    let t = set_output s.panel_out false s.panel_dirty s.answers s.effects s in
    Frame-trans s t (flush_with s.answers t)
      (set_output-Frame s.panel_out false s.panel_dirty s.answers s.effects s refl refl)
      (flush_with-Frame s.answers t)

dropped_counts :
    (p : Effect → Bool) (s : Io)
    → p unwatch ≡ false
    → count p (panel_drop s).effects ≡ count p s.effects
unfolding panel_drop
dropped_counts p s h =
    if_cases (λ es. count p es ≡ count p s.effects) s.panel_watch
      (λ _. show_counts p s.effects unwatch h) λ _. refl

pub panel_closed-Frame : (s : Io) → Frame s (panel_closed s)
unfolding panel_closed panel_drop set_output
panel_closed-Frame s =
    set_output-Frame [] false false s.answers _ s (dropped_counts is_pulse s refl)
      (dropped_counts is_accept s refl)

pub panel_opened-Frame : (s : Io) → Frame s (panel_opened s)
unfolding panel_opened panel_drop panel_flush set_output
panel_opened-Frame s =
    let es = (panel_drop s).effects in
    let t = set_output (clear_screen ++ build_panel (panel_drop s)) false false s.answers es s in
    Frame-trans s t (flush_with s.answers t)
      (set_output-Frame _ false false s.answers es s (dropped_counts is_pulse s refl)
        (dropped_counts is_accept s refl))
      (flush_with-Frame s.answers t)
