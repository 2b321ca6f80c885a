-- ===== src/Io/Invariant.antt =====
-- tools/qemu/hw/ldd/io.c: the registers over every event.
use linux_device_driver.Prelude.{
  ℕ, zero, suc, ◌+◌, ◌-◌, ◌*◌, ◌/◌, ◌%◌, ◌^◌, ◌<◌, ◌==◌, leb, ◌≡◌, refl, ◌∙◌, sym, ap, subst, not,
  ◌&&◌, List, [], ◌∷◌, if_cases, arith, bit_and, length, length-set, set,
}
use linux_device_driver.Prelude.Bits.{test_bit, bit_not, bit_or-lt, bit_and-le_left, bit_and_three}
use linux_device_driver.Io.State.{Io, rx_ready, irq_en, loopback, matrix_offset}
use linux_device_driver.Io.Output.{draw_panel, panel_writable}
use linux_device_driver.Io.Device.{
  pulse_irq, accept, receive_byte, keyboard_receive, write_data, write_status, set_ctrl, write_ctrl,
  write_matrix, write, reset_enter, reset_exit, panel_opened, panel_closed,
}
use linux_device_driver.Io.Machine.{
  Event, store, key, writable, opened, closed, restart, loaded, step, run,
}
use linux_device_driver.Io.Frame.{
  Frame, draw_panel-Frame, panel_writable-Frame, panel_opened-Frame, panel_closed-Frame,
}

abbrev pub AllBytes : List ℕ → Type 0
AllBytes [] = Unit {0}
AllBytes (b ∷ bs) = (b < 256) × AllBytes bs

-- Every register is a byte, STATUS and CTRL hold only their defined bits, and the matrix has its
-- eight rows.
pub record IsValid (s : Io) : Type 0 where
  pub status_bits : s.status < 2
  pub ctrl_bits : s.ctrl < 4
  pub in_byte : s.data_in < 256
  pub out_byte : s.data_out < 256
  pub rows : length s.matrix ≡ 8
  pub row_bytes : AllBytes s.matrix
  pub counter : s.irq_pulses < 2 ^ 32

-- A byte from the keyboard is a byte.
abbrev pub IsByteEvent : Event → Type 0
IsByteEvent (key byte) = byte < 256
IsByteEvent _ = Unit {0}

abbrev pub AllByteEvents : List Event → Type 0
AllByteEvents [] = Unit {0}
AllByteEvents (e ∷ es) = IsByteEvent e × AllByteEvents es

IsValid-Frame : (s t : Io) → Frame s t → IsValid s → IsValid t
IsValid-Frame s t f v = record {
  status_bits = omega (arith, f.status_same, v.status_bits);
  ctrl_bits = omega (arith, f.ctrl_same, v.ctrl_bits);
  in_byte = omega (arith, f.data_in_same, v.in_byte);
  out_byte = omega (arith, f.data_out_same, v.out_byte);
  rows = ap length f.matrix_same ∙ v.rows;
  row_bytes = subst AllBytes (sym f.matrix_same) v.row_bytes;
  counter = omega (arith, f.irq_pulses_same, v.counter);
}

set-AllBytes : (m : List ℕ) (i v : ℕ) → v < 256 → AllBytes m → AllBytes (set m i v)
set-AllBytes [] i v h b = tt
set-AllBytes (x ∷ m) zero v h (b, bs) = (h, bs)
set-AllBytes (x ∷ m) (suc i) v h (b, bs) = (b, set-AllBytes m i v h bs)

write_matrix-AllBytes :
    (val first i n : ℕ) (m : List ℕ)
    → AllBytes m
    → AllBytes (write_matrix val first i n m) × (length (write_matrix val first i n m) ≡ length m)
unfolding write_matrix
write_matrix-AllBytes val first i zero m b = (b, refl)
write_matrix-AllBytes val first i (suc n) m b =
    let v = val / 2 ^ (8 * i) % 2 ^ 8 in
    let (bytes, size) =
      write_matrix-AllBytes val first (i + 1) n (set m (first + i) v)
        (set-AllBytes m (first + i) v (omega arith) b) in
    (bytes, size ∙ length-set m (first + i) v)

receive_byte-IsValid : (byte : ℕ) (s : Io) → byte < 256 → IsValid s → IsValid (receive_byte byte s)
unfolding receive_byte pulse_irq
receive_byte-IsValid byte s h v =
    let ready = bit_or-lt 1 s.status 1 v.status_bits (omega arith) in
    if_cases IsValid (test_bit s.ctrl irq_en)
      (λ _. record {
        status_bits = ready;
        ctrl_bits = v.ctrl_bits;
        in_byte = h;
        out_byte = v.out_byte;
        rows = v.rows;
        row_bytes = v.row_bytes;
        counter = omega arith;
      })
      λ _. record {
        status_bits = ready;
        ctrl_bits = v.ctrl_bits;
        in_byte = h;
        out_byte = v.out_byte;
        rows = v.rows;
        row_bytes = v.row_bytes;
        counter = v.counter;
      }

write_data-IsValid : (byte : ℕ) (s : Io) → byte < 256 → IsValid s → IsValid (write_data byte s)
unfolding write_data
write_data-IsValid byte s h v =
    let t = record s { data_out = byte } in
    let ok : IsValid t = record {
      status_bits = v.status_bits;
      ctrl_bits = v.ctrl_bits;
      in_byte = v.in_byte;
      out_byte = h;
      rows = v.rows;
      row_bytes = v.row_bytes;
      counter = v.counter;
    } in
    if_cases IsValid (test_bit s.ctrl loopback && not (test_bit s.status rx_ready))
      (λ _. receive_byte-IsValid byte t h ok) λ _. ok

-- Neither the calls nor the two registers beside the data ones touch the rest.
ctrl_status-IsValid :
    (s t : Io)
    → t.status < 2
    → t.ctrl < 4
    → t.irq_pulses < 2 ^ 32
    → t.data_in ≡ s.data_in
    → t.data_out ≡ s.data_out
    → t.matrix ≡ s.matrix
    → IsValid s
    → IsValid t
ctrl_status-IsValid s t a b c d e f v = record {
  status_bits = a;
  ctrl_bits = b;
  in_byte = omega (arith, d, v.in_byte);
  out_byte = omega (arith, e, v.out_byte);
  rows = ap length f ∙ v.rows;
  row_bytes = subst AllBytes (sym f) v.row_bytes;
  counter = c;
}

write_status-IsValid : (byte : ℕ) (s : Io) → IsValid s → IsValid (write_status byte s)
unfolding write_status accept
write_status-IsValid byte s v =
    if_cases IsValid (test_bit byte rx_ready && test_bit s.status rx_ready)
      (λ _.
        ctrl_status-IsValid s _
          (omega (arith, bit_and-le_left s.status (bit_not 8 1), v.status_bits)) v.ctrl_bits
          v.counter refl refl refl v)
      λ _. v

set_ctrl-IsValid : (byte : ℕ) (s : Io) → IsValid s → IsValid (set_ctrl byte s)
unfolding set_ctrl pulse_irq
set_ctrl-IsValid byte s v =
    let two = bit_and_three byte in
    if_cases IsValid
      (not (test_bit s.ctrl irq_en)
        && test_bit (bit_and byte 3) irq_en
        && test_bit s.status rx_ready)
      (λ _.
        ctrl_status-IsValid s _ v.status_bits (omega (arith, two)) (omega arith) refl refl refl v)
      λ _. ctrl_status-IsValid s _ v.status_bits (omega (arith, two)) v.counter refl refl refl v

accept-IsValid : (s : Io) → IsValid s → IsValid (accept s)
unfolding accept
accept-IsValid s v = ctrl_status-IsValid s _ v.status_bits v.ctrl_bits v.counter refl refl refl v

write_ctrl-IsValid : (byte : ℕ) (s : Io) → IsValid s → IsValid (write_ctrl byte s)
unfolding write_ctrl
write_ctrl-IsValid byte s v =
    let ok = set_ctrl-IsValid byte s v in
    if_cases IsValid (test_bit s.ctrl loopback && not (test_bit (set_ctrl byte s).ctrl loopback))
      (λ _. accept-IsValid (set_ctrl byte s) ok) λ _. ok

draw-IsValid : (s : Io) → IsValid s → IsValid (draw_panel s)
draw-IsValid s = IsValid-Frame s (draw_panel s) (draw_panel-Frame s)

write-IsValid : (addr val size : ℕ) (s : Io) → IsValid s → IsValid (write addr val size s)
unfolding write
write-IsValid addr val size s v =
    let byte = val % 2 ^ 8 in
    let rows = write_matrix val (addr - matrix_offset) 0 size s.matrix in
    let (bytes, size) =
      write_matrix-AllBytes val (addr - matrix_offset) 0 size s.matrix v.row_bytes in
    if_cases IsValid (leb matrix_offset addr)
      (λ _.
        draw-IsValid (record s { matrix = rows })
          (record {
            status_bits = v.status_bits;
            ctrl_bits = v.ctrl_bits;
            in_byte = v.in_byte;
            out_byte = v.out_byte;
            rows = size ∙ v.rows;
            row_bytes = bytes;
            counter = v.counter;
          }))
      λ _.
        if_cases IsValid (addr == 0)
          (λ _. draw-IsValid (write_data byte s) (write_data-IsValid byte s (omega arith) v))
          λ _.
            if_cases IsValid (addr == 1)
              (λ _. draw-IsValid (write_status byte s) (write_status-IsValid byte s v))
              λ _.
                if_cases IsValid (addr == 2)
                  (λ _. draw-IsValid (write_ctrl byte s) (write_ctrl-IsValid byte s v)) λ _. v

reset_enter-IsValid : (s : Io) → IsValid (reset_enter s)
unfolding reset_enter
reset_enter-IsValid s = record {
  status_bits = omega arith;
  ctrl_bits = omega arith;
  in_byte = omega arith;
  out_byte = omega arith;
  rows = refl;
  row_bytes = ground arith;
  counter = omega arith;
}

step-IsValid : (e : Event) (s : Io) → IsByteEvent e → IsValid s → IsValid (step e s)
unfolding step
step-IsValid (store addr val size) s _ v = write-IsValid addr val size s v
step-IsValid (key byte) s h v =
    unfold keyboard_receive in draw-IsValid (receive_byte byte s) (receive_byte-IsValid byte s h v)
step-IsValid writable s _ v = IsValid-Frame s (panel_writable s) (panel_writable-Frame s) v
step-IsValid opened s _ v = IsValid-Frame s (panel_opened s) (panel_opened-Frame s) v
step-IsValid closed s _ v = IsValid-Frame s (panel_closed s) (panel_closed-Frame s) v
step-IsValid restart s _ v =
    unfold reset_exit in
    draw-IsValid (accept (reset_enter s)) (accept-IsValid (reset_enter s) (reset_enter-IsValid s))
step-IsValid loaded s _ v = unfold reset_exit in draw-IsValid (accept s) (accept-IsValid s v)

-- Through any events the registers stay bytes, STATUS and CTRL hold only their defined bits, and the
-- matrix keeps eight rows of bytes.
pub run-IsValid : (es : List Event) (s : Io) → AllByteEvents es → IsValid s → IsValid (run es s)
unfolding run
run-IsValid [] s _ v = v
run-IsValid (e ∷ es) s (h, hs) v = run-IsValid es (step e s) hs (step-IsValid e s h v)
