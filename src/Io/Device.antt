-- ===== src/Io/Device.antt =====
-- tools/qemu/hw/ldd/io.c: the receive path, the accesses to the registers, and the resets.
use linux_device_driver.Prelude.{
  ℕ, zero, suc, ◌+◌, ◌-◌, ◌*◌, ◌/◌, ◌%◌, ◌^◌, Bool, not, ◌&&◌, List, [], ◌∷◌, ◌++◌, bit_and, bit_or,
  ◌==◌, leb, if◌then◌else◌, get_or, set, replicate,
}
use linux_device_driver.Prelude.Bits.{test_bit, bit_not}
use linux_device_driver.Io.State.{
  Io, pulse, accept_input, rx_ready, irq_en, loopback, matrix_offset, matrix_rows,
}
use linux_device_driver.Io.Output.{draw_panel, panel_drop, panel_flush}
use linux_device_driver.Io.Panel.{build_panel, clear_screen}

-- `ldd_io_pulse`; the counter is a `uint32_t`.
unfoldable pub pulse_irq : Io → Io
pulse_irq s = record s {
  irq_pulses = (s.irq_pulses + 1) % 2 ^ 32;
  effects = s.effects ++ pulse ∷ [];
}

-- `qemu_chr_fe_accept_input(&state->keyboard)`
unfoldable pub accept : Io → Io
accept s = record s { effects = s.effects ++ accept_input ∷ [] }

unfoldable pub receive_byte : ℕ → Io → Io
unfolding pulse_irq
receive_byte byte s =
    let t = record s { data_in = byte; status = bit_or s.status 1 } in
    if test_bit t.ctrl irq_en then pulse_irq t else t

-- `ldd_io_keyboard_can_receive`, how many bytes the keyboard may send
unfoldable pub can_receive : Io → ℕ
can_receive s = if test_bit s.status rx_ready then 0 else if test_bit s.ctrl loopback then 0 else 1

unfoldable pub keyboard_receive : ℕ → Io → Io
unfolding receive_byte draw_panel
keyboard_receive byte s = draw_panel (receive_byte byte s)

-- `ldd_io_accepts`: `addr & (size - 1)` is the remainder, a size being a power of 2.
unfoldable pub accepts : ℕ → ℕ → Bool
accepts addr size = if leb matrix_offset addr then addr % size == 0 else size == 1

-- The loop of `ldd_io_read` over the matrix, from byte `i - 1` down: little endian.
unfoldable pub read_matrix : List ℕ → ℕ → ℕ → ℕ → ℕ
read_matrix matrix first zero v = v
read_matrix matrix first (suc i) v =
    read_matrix matrix first i (bit_or (v * 2 ^ 8 % 2 ^ 64) (get_or matrix (first + i) 0))

unfoldable pub read : ℕ → ℕ → Io → ℕ
unfolding read_matrix
read addr size s =
    if leb matrix_offset addr
    then read_matrix s.matrix (addr - matrix_offset) size 0
    else if addr == 0
    then s.data_in
    else if addr == 1
    then s.status
    else if addr == 2
    then s.ctrl
    else 0

-- The loop of `ldd_io_write` over the matrix: `n` bytes from index `i` on, `val` shifted by `8 * i`.
unfoldable pub write_matrix : ℕ → ℕ → ℕ → ℕ → List ℕ → List ℕ
write_matrix val first i zero matrix = matrix
write_matrix val first i (suc n) matrix =
    write_matrix val first (i + 1) n (set matrix (first + i) (val / 2 ^ (8 * i) % 2 ^ 8))

-- `case LDD_IO_DATA`
unfoldable pub write_data : ℕ → Io → Io
unfolding receive_byte
write_data byte s =
    let t = record s { data_out = byte } in
    if test_bit t.ctrl loopback && not (test_bit t.status rx_ready) then receive_byte byte t else t

-- `case LDD_IO_STATUS`: write 1 to clear
unfoldable pub write_status : ℕ → Io → Io
unfolding accept
write_status byte s =
    if test_bit byte rx_ready && test_bit s.status rx_ready
    then accept (record s { status = bit_and s.status (bit_not 8 1) })
    else s

-- `case LDD_IO_CTRL`, up to the interrupt, and what follows it
unfoldable pub set_ctrl : ℕ → Io → Io
unfolding pulse_irq
set_ctrl byte s =
    let t = record s { ctrl = bit_and byte 3 } in
    if not (test_bit s.ctrl irq_en) && test_bit t.ctrl irq_en && test_bit t.status rx_ready
    then pulse_irq t
    else t

unfoldable pub write_ctrl : ℕ → Io → Io
unfolding set_ctrl accept
write_ctrl byte s =
    let t = set_ctrl byte s in
    if test_bit s.ctrl loopback && not (test_bit t.ctrl loopback) then accept t else t

unfoldable pub write : ℕ → ℕ → ℕ → Io → Io
unfolding write_matrix write_data write_status write_ctrl draw_panel
write addr val size s =
    let byte = val % 2 ^ 8 in
    if leb matrix_offset addr
    then draw_panel (record s { matrix = write_matrix val (addr - matrix_offset) 0 size s.matrix })
    else if addr == 0
    then draw_panel (write_data byte s)
    else if addr == 1
    then draw_panel (write_status byte s)
    else if addr == 2
    then draw_panel (write_ctrl byte s)
    else s

unfoldable pub reset_enter : Io → Io
reset_enter s = record s {
  data_out = 0;
  data_in = 0;
  status = 0;
  ctrl = 0;
  matrix = replicate matrix_rows 0;
  irq_pulses = 0;
}

-- `ldd_io_reset_exit`, and what `ldd_io_post_load` does as well
unfoldable pub reset_exit : Io → Io
unfolding accept draw_panel
reset_exit s = draw_panel (accept s)

-- `ldd_io_panel_event`: a viewer has come, or has gone.
unfoldable pub panel_opened : Io → Io
unfolding panel_drop panel_flush clear_screen
panel_opened s =
    let t = panel_drop s in panel_flush (record t { panel_out = clear_screen ++ build_panel t })

unfoldable pub panel_closed : Io → Io
unfolding panel_drop
panel_closed s = panel_drop s
