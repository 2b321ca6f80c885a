-- ===== src/Io/Held.antt =====
-- tools/qemu/hw/ldd/io.c: output that waits has a watch, whatever the panel's device answers; and what the
-- registers have to do with the output, which is nothing.
use linux_device_driver.Prelude.{
  ℕ, ◌-◌, ◌^◌, ◌%◌, ◌==◌, leb, ◌≡◌, true, false, not, ◌&&◌, bit_and, List, [], ◌∷◌, if_cases, arith,
}
use linux_device_driver.Prelude.Bits.{test_bit}
use linux_device_driver.Io.State.{
  Io, Answer, took, again, gone, rx_ready, irq_en, loopback, matrix_offset,
}
use linux_device_driver.Io.Panel.{build_panel}
use linux_device_driver.Io.Output.{
  is_empty, hold_output, sent, flush_with, panel_flush, panel_writable, draw_panel, panel_drop,
}
use linux_device_driver.Io.Device.{
  pulse_irq, accept, receive_byte, keyboard_receive, write_data, write_status, set_ctrl, write_ctrl,
  write_matrix, write, reset_enter, reset_exit, panel_opened, panel_closed,
}
use linux_device_driver.Io.Machine.{
  Event, store, key, writable, opened, closed, restart, loaded, step, run,
}

-- Output that is left has a watch that will send it.
abbrev pub IsHeld : Io → Type 0
IsHeld s = is_empty s.panel_out ≡ false → s.panel_watch ≡ true

-- The output is as it was, and so is its device.
pub record SameOutput (s t : Io) : Type 0 where
  pub out_same : t.panel_out ≡ s.panel_out
  pub watch_same : t.panel_watch ≡ s.panel_watch
  pub dirty_same : t.panel_dirty ≡ s.panel_dirty
  pub device_same : t.attached ≡ s.attached
  pub can_watch_same : t.can_watch ≡ s.can_watch
  pub answers_same : t.answers ≡ s.answers

SameOutput-refl : (s : Io) → SameOutput s s
SameOutput-refl s = ground arith

pub receive_byte-SameOutput : (byte : ℕ) (s : Io) → SameOutput s (receive_byte byte s)
unfolding receive_byte pulse_irq
receive_byte-SameOutput byte s =
    if_cases (SameOutput s) (test_bit s.ctrl irq_en) (λ _. ground arith) λ _. ground arith

pub write_data-SameOutput : (byte : ℕ) (s : Io) → SameOutput s (write_data byte s)
unfolding write_data
write_data-SameOutput byte s =
    let t = record s { data_out = byte } in
    if_cases (SameOutput s) (test_bit s.ctrl loopback && not (test_bit s.status rx_ready))
      (λ _. ground (arith, receive_byte-SameOutput byte t)) λ _. ground arith

pub write_status-SameOutput : (byte : ℕ) (s : Io) → SameOutput s (write_status byte s)
unfolding write_status accept
write_status-SameOutput byte s =
    if_cases (SameOutput s) (test_bit byte rx_ready && test_bit s.status rx_ready)
      (λ _. ground arith) λ _. SameOutput-refl s

set_ctrl-SameOutput : (byte : ℕ) (s : Io) → SameOutput s (set_ctrl byte s)
unfolding set_ctrl pulse_irq
set_ctrl-SameOutput byte s =
    if_cases (SameOutput s)
      (not (test_bit s.ctrl irq_en)
        && test_bit (bit_and byte 3) irq_en
        && test_bit s.status rx_ready)
      (λ _. ground arith) λ _. ground arith

pub write_ctrl-SameOutput : (byte : ℕ) (s : Io) → SameOutput s (write_ctrl byte s)
unfolding write_ctrl accept
write_ctrl-SameOutput byte s =
    let t = set_ctrl byte s in
    if_cases (SameOutput s) (test_bit s.ctrl loopback && not (test_bit t.ctrl loopback))
      (λ _. ground (arith, set_ctrl-SameOutput byte s)) λ _. set_ctrl-SameOutput byte s

-- What holds after a redraw from every state whose output is as in `s`, holds after a write that
-- redraws; else the write leaves the device alone.
pub write-redraws :
    (P : Io → Type 0) (addr val size : ℕ) (s : Io)
    → P s
    → ((t : Io) → SameOutput s t → P (draw_panel t))
    → P (write addr val size s)
unfolding write
write-redraws P addr val size s p redraw =
    let byte = val % 2 ^ 8 in
    let m = record s { matrix = write_matrix val (addr - matrix_offset) 0 size s.matrix } in
    if_cases P (leb matrix_offset addr) (λ _. redraw m (ground arith))
      λ _.
        if_cases P (addr == 0) (λ _. redraw (write_data byte s) (write_data-SameOutput byte s))
          λ _.
            if_cases P (addr == 1)
              (λ _. redraw (write_status byte s) (write_status-SameOutput byte s))
              λ _.
                if_cases P (addr == 2)
                  (λ _. redraw (write_ctrl byte s) (write_ctrl-SameOutput byte s)) λ _. p

flush_with-IsHeld : (todo : List Answer) (s : Io) → IsHeld (flush_with todo s)
unfolding flush_with hold_output
flush_with-IsHeld [] s = λ h. ground arith
flush_with-IsHeld (took n ∷ later) s =
    if_cases IsHeld (is_empty s.panel_out) (λ e h. absurd (cc))
      λ e.
        if_cases IsHeld (n == 0) (λ z h. ground arith)
          λ z. flush_with-IsHeld later (sent n (record s { answers = later }))
flush_with-IsHeld (again ∷ later) s = λ h. ground arith
flush_with-IsHeld (gone ∷ later) s = λ h. ground arith

draw_panel-IsHeld : (s : Io) → IsHeld s → IsHeld (draw_panel s)
unfolding draw_panel panel_flush
draw_panel-IsHeld s held =
    if_cases IsHeld (not s.attached) (λ _. held)
      λ _.
        if_cases IsHeld (not (is_empty s.panel_out)) (λ _. held)
          λ _. flush_with-IsHeld s.answers (record s { panel_out = build_panel s })

redraw-IsHeld : (s t : Io) → IsHeld s → SameOutput s t → IsHeld (draw_panel t)
redraw-IsHeld s t held e = draw_panel-IsHeld t λ h. ground (arith, held, e)

step-IsHeld : (e : Event) (s : Io) → IsHeld s → IsHeld (step e s)
unfolding step
step-IsHeld (store addr val size) s held =
    write-redraws IsHeld addr val size s held λ t e. redraw-IsHeld s t held e
step-IsHeld (key byte) s held =
    unfold keyboard_receive in redraw-IsHeld s _ held (receive_byte-SameOutput byte s)
step-IsHeld writable s held =
    unfold panel_writable panel_flush in
    flush_with-IsHeld s.answers (record s { panel_watch = false })
step-IsHeld opened s held =
    unfold panel_opened panel_drop panel_flush in flush_with-IsHeld s.answers _
step-IsHeld closed s held = unfold panel_closed panel_drop in λ h. absurd (cc)
step-IsHeld restart s held =
    unfold reset_exit reset_enter accept in
    redraw-IsHeld s (accept (reset_enter s)) held (ground arith)
step-IsHeld loaded s held =
    unfold reset_exit accept in redraw-IsHeld s (accept s) held (ground arith)

pub run-IsHeld : (es : List Event) (s : Io) → IsHeld s → IsHeld (run es s)
unfolding run
run-IsHeld [] s held = held
run-IsHeld (e ∷ es) s held = run-IsHeld es (step e s) (step-IsHeld e s held)
