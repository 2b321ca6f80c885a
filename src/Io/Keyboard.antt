-- ===== src/Io/Keyboard.antt =====
-- tools/qemu/hw/ldd/io.c: the interrupt line and the keyboard over every event.
use linux_device_driver.Prelude.{
  ℕ, ◌+◌, ◌-◌, ◌^◌, ◌%◌, ◌<◌, ◌==◌, leb, ◌≡◌, refl, ◌∙◌, sym, ap, ap₂, Bool, true, false, not, ◌&&◌,
  List, if◌then◌else◌, if_cases, arith, bit_and,
}
use linux_device_driver.Prelude.Bits.{test_bit, bit_not, test_bit-bit_and, test_bit-bit_or}
use linux_device_driver.Io.State.{
  Io, pulse, accept_input, rx_ready, irq_en, loopback, matrix_offset,
}
use linux_device_driver.Io.Output.{draw_panel}
use linux_device_driver.Io.Device.{
  pulse_irq, accept, receive_byte, can_receive, keyboard_receive, write_data, write_status,
  set_ctrl, write_ctrl, write_matrix, write, reset_enter, reset_exit,
}
use linux_device_driver.Io.Machine.{
  Event, store, key, writable, opened, closed, restart, loaded, step,
}
use linux_device_driver.Io.Frame.{
  Frame, count, count-snoc, is_pulse, is_accept, draw_panel-Frame, panel_writable-Frame,
  panel_opened-Frame, panel_closed-Frame,
}

-- The condition of both rules of the interrupt: a byte waits and interrupts are enabled.
abbrev pub pending : Io → Bool
pending s = test_bit s.status rx_ready && test_bit s.ctrl irq_en

abbrev pub one_if : Bool → ℕ
one_if b = if b then 1 else 0

-- From `s` to `t` the line was pulsed once if the condition came up, and otherwise not.
abbrev pub Pulses : Io → Io → Type 0
Pulses s t =
    count is_pulse t.effects ≡ count is_pulse s.effects + one_if (pending t && not (pending s))

-- If from `s` to `t` the device became able to take a byte, the keyboard was told.
abbrev pub Wakes : Io → Io → Type 0
Wakes s t =
    can_receive s ≡ 0 → can_receive t ≡ 1 → count is_accept s.effects < count is_accept t.effects

-- The keyboard sends only when it may.
abbrev pub Admits : Event → Io → Type 0
Admits (key byte) s = can_receive s ≡ 1
Admits _ s = Unit {0}

Pulses-Frame : (s t u : Io) → Pulses s t → Frame t u → Pulses s u
Pulses-Frame s t u p f =
    f.pulse_same
    ∙ p
    ∙ ap₂
        (λ (a b : ℕ).
          count is_pulse s.effects
          + one_if (test_bit a rx_ready && test_bit b irq_en && not (pending s)))
        (sym f.status_same) (sym f.ctrl_same)

can_receive-Frame : (t u : Io) → Frame t u → can_receive u ≡ can_receive t
unfolding can_receive
can_receive-Frame t u f =
    ap₂ (λ (a b : ℕ). if test_bit a rx_ready then 0 else if test_bit b loopback then 0 else 1)
      f.status_same f.ctrl_same

Wakes-Frame : (s t u : Io) → Wakes s t → Frame t u → Wakes s u
Wakes-Frame s t u w f full room =
    omega (arith, f.accept_same, w full (sym (can_receive-Frame t u f) ∙ room))

none_rises : (b : Bool) → one_if (b && not b) ≡ 0
none_rises true = refl
none_rises false = refl

Pulses-refl : (s : Io) → Pulses s s
Pulses-refl s = omega (arith, none_rises (pending s))

receive_byte-Pulses :
    (byte : ℕ) (s : Io) → test_bit s.status rx_ready ≡ false → Pulses s (receive_byte byte s)
unfolding receive_byte pulse_irq test_bit
receive_byte-Pulses byte s h =
    ground (arith, test_bit-bit_or 0 s.status 1, count-snoc is_pulse s.effects pulse)

receive_byte-Wakes : (byte : ℕ) (s : Io) → Wakes s (receive_byte byte s)
unfolding receive_byte pulse_irq can_receive test_bit
receive_byte-Wakes byte s full room = absurd (ground (arith, test_bit-bit_or 0 s.status 1))

write_data-Pulses : (byte : ℕ) (s : Io) → Pulses s (write_data byte s)
unfolding write_data
write_data-Pulses byte s =
    let t = record s { data_out = byte } in
    if_cases (Pulses s) (test_bit s.ctrl loopback && not (test_bit s.status rx_ready))
      (λ e. receive_byte-Pulses byte t (ground arith)) λ _. Pulses-refl s

write_data-Wakes : (byte : ℕ) (s : Io) → Wakes s (write_data byte s)
unfolding write_data can_receive
write_data-Wakes byte s =
    let t = record s { data_out = byte } in
    if_cases (Wakes s) (test_bit s.ctrl loopback && not (test_bit s.status rx_ready))
      (λ e. receive_byte-Wakes byte t) λ _ full room. absurd (omega (arith, full, room))

cleared : (v : ℕ) → test_bit (bit_and v (bit_not 8 1)) rx_ready ≡ false
unfolding test_bit bit_not
cleared v = ground (arith, test_bit-bit_and 0 v (bit_not 8 1))

write_status-Pulses : (byte : ℕ) (s : Io) → Pulses s (write_status byte s)
unfolding write_status accept
write_status-Pulses byte s =
    ground (arith, Pulses-refl s, cleared s.status, count-snoc is_pulse s.effects accept_input)

write_status-Wakes : (byte : ℕ) (s : Io) → Wakes s (write_status byte s)
unfolding write_status accept can_receive
write_status-Wakes byte s full room =
    ground (arith, cleared s.status, count-snoc is_accept s.effects accept_input)

kept_irq_en : (byte : ℕ) → test_bit (bit_and byte 3) irq_en ≡ test_bit byte irq_en
unfolding test_bit
kept_irq_en byte = ground (arith, test_bit-bit_and 0 byte 3)

set_ctrl-Pulses : (byte : ℕ) (s : Io) → Pulses s (set_ctrl byte s)
unfolding set_ctrl
set_ctrl-Pulses byte s =
    let t = record s { ctrl = bit_and byte 3 } in
    if_cases (Pulses s)
      (not (test_bit s.ctrl irq_en) && test_bit t.ctrl irq_en && test_bit t.status rx_ready)
      (λ e. unfold pulse_irq in ground (arith, count-snoc is_pulse s.effects pulse))
      λ e. ground arith

accept-Pulses : (s t : Io) → Pulses s t → Pulses s (accept t)
unfolding accept
accept-Pulses s t p = ground (arith, count-snoc is_pulse t.effects accept_input)

write_ctrl-Pulses : (byte : ℕ) (s : Io) → Pulses s (write_ctrl byte s)
unfolding write_ctrl
write_ctrl-Pulses byte s =
    let t = set_ctrl byte s in
    if_cases (Pulses s) (test_bit s.ctrl loopback && not (test_bit t.ctrl loopback))
      (λ _. accept-Pulses s t (set_ctrl-Pulses byte s)) λ _. set_ctrl-Pulses byte s

accept-Wakes :
    (s t : Io) → count is_accept t.effects ≡ count is_accept s.effects → Wakes s (accept t)
unfolding accept
accept-Wakes s t e full room = ground (arith, count-snoc is_accept t.effects accept_input)

set_ctrl-accepts :
    (byte : ℕ) (s : Io) → count is_accept (set_ctrl byte s).effects ≡ count is_accept s.effects
unfolding set_ctrl pulse_irq
set_ctrl-accepts byte s = ground (arith, count-snoc is_accept s.effects pulse)

set_ctrl-status : (byte : ℕ) (s : Io) → (set_ctrl byte s).status ≡ s.status
unfolding set_ctrl pulse_irq
set_ctrl-status byte s = ground arith

still_full :
    (s t : Io)
    → t.status ≡ s.status
    → (test_bit s.ctrl loopback && not (test_bit t.ctrl loopback)) ≡ false
    → Wakes s t
unfolding can_receive
still_full s t e h full room = absurd (ground (arith, ap (λ v. test_bit v rx_ready) e))

write_ctrl-Wakes : (byte : ℕ) (s : Io) → Wakes s (write_ctrl byte s)
unfolding write_ctrl
write_ctrl-Wakes byte s =
    let t = set_ctrl byte s in
    if_cases (Wakes s) (test_bit s.ctrl loopback && not (test_bit t.ctrl loopback))
      (λ _. accept-Wakes s t (set_ctrl-accepts byte s))
      λ e. still_full s t (set_ctrl-status byte s) e

never : (s : Io) → Wakes s s
never s full room = absurd (omega (arith, full, room))

same_ctrl : (s : Io) (rows : List ℕ) → Wakes s (record s { matrix = rows })
unfolding can_receive
same_ctrl s rows full room = absurd (omega (arith, full, room))

write-Pulses : (addr val size : ℕ) (s : Io) → Pulses s (write addr val size s)
unfolding write
write-Pulses addr val size s =
    let byte = val % 2 ^ 8 in
    let drawn : (t : Io) → Pulses s t → Pulses s (draw_panel t) =
      λ t p. Pulses-Frame s t (draw_panel t) p (draw_panel-Frame t) in
    if_cases (Pulses s) (leb matrix_offset addr) (λ _. drawn _ (Pulses-refl s))
      λ _.
        if_cases (Pulses s) (addr == 0) (λ _. drawn _ (write_data-Pulses byte s))
          λ _.
            if_cases (Pulses s) (addr == 1) (λ _. drawn _ (write_status-Pulses byte s))
              λ _.
                if_cases (Pulses s) (addr == 2) (λ _. drawn _ (write_ctrl-Pulses byte s))
                  λ _. Pulses-refl s

write-Wakes : (addr val size : ℕ) (s : Io) → Wakes s (write addr val size s)
unfolding write
write-Wakes addr val size s =
    let byte = val % 2 ^ 8 in
    let m = record s { matrix = write_matrix val (addr - matrix_offset) 0 size s.matrix } in
    let drawn : (t : Io) → Wakes s t → Wakes s (draw_panel t) =
      λ t p. Wakes-Frame s t (draw_panel t) p (draw_panel-Frame t) in
    if_cases (Wakes s) (leb matrix_offset addr) (λ _. drawn m (same_ctrl s _))
      λ _.
        if_cases (Wakes s) (addr == 0) (λ _. drawn _ (write_data-Wakes byte s))
          λ _.
            if_cases (Wakes s) (addr == 1) (λ _. drawn _ (write_status-Wakes byte s))
              λ _.
                if_cases (Wakes s) (addr == 2) (λ _. drawn _ (write_ctrl-Wakes byte s)) λ _. never s

reset_enter-Pulses : (s : Io) → Pulses s (reset_enter s)
unfolding reset_enter test_bit
reset_enter-Pulses s = omega arith

idle : (s : Io) → can_receive s ≡ 1 → test_bit s.status rx_ready ≡ false
unfolding can_receive
idle s h = ground arith

-- Every event pulses the interrupt line once if "a byte waits and interrupts are enabled" becomes
-- true by it, and otherwise not at all. The keyboard is taken to send only when it may.
pub step-Pulses : (e : Event) (s : Io) → Admits e s → Pulses s (step e s)
unfolding step
step-Pulses (store addr val size) s _ = write-Pulses addr val size s
step-Pulses (key byte) s h =
    unfold keyboard_receive in
    Pulses-Frame s _ _ (receive_byte-Pulses byte s (idle s h)) (draw_panel-Frame _)
step-Pulses writable s _ = Pulses-Frame s s _ (Pulses-refl s) (panel_writable-Frame s)
step-Pulses opened s _ = Pulses-Frame s s _ (Pulses-refl s) (panel_opened-Frame s)
step-Pulses closed s _ = Pulses-Frame s s _ (Pulses-refl s) (panel_closed-Frame s)
step-Pulses restart s _ =
    unfold reset_exit in
    Pulses-Frame s _ _ (accept-Pulses s (reset_enter s) (reset_enter-Pulses s)) (draw_panel-Frame _)
step-Pulses loaded s _ =
    unfold reset_exit in Pulses-Frame s _ _ (accept-Pulses s s (Pulses-refl s)) (draw_panel-Frame _)

-- Whenever an event makes the device able to take a byte again, it tells the keyboard so: input that
-- was held back is never stuck.
pub step-Wakes : (e : Event) (s : Io) → Wakes s (step e s)
unfolding step
step-Wakes (store addr val size) s = write-Wakes addr val size s
step-Wakes (key byte) s =
    unfold keyboard_receive in Wakes-Frame s _ _ (receive_byte-Wakes byte s) (draw_panel-Frame _)
step-Wakes writable s = Wakes-Frame s s _ (never s) (panel_writable-Frame s)
step-Wakes opened s = Wakes-Frame s s _ (never s) (panel_opened-Frame s)
step-Wakes closed s = Wakes-Frame s s _ (never s) (panel_closed-Frame s)
step-Wakes restart s =
    unfold reset_exit in
    Wakes-Frame s _ _ (accept-Wakes s (reset_enter s) (unfold reset_enter in refl))
      (draw_panel-Frame _)
step-Wakes loaded s =
    unfold reset_exit in Wakes-Frame s _ _ (accept-Wakes s s refl) (draw_panel-Frame _)
