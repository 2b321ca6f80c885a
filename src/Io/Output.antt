-- ===== src/Io/Output.antt =====
-- tools/qemu/hw/ldd/io.c: how the panel is sent, `ldd_io_panel_flush` to `ldd_io_panel_drop`.
use linux_device_driver.Prelude.{
  ℕ, ◌==◌, Bool, true, false, not, ◌&&◌, ◌||◌, List, [], ◌∷◌, ◌++◌, if◌then◌else◌, take, drop,
}
use linux_device_driver.Io.State.{Io, Answer, took, again, gone, unwatch, shown}
use linux_device_driver.Io.Panel.{build_panel}

abbrev pub is_empty : List ℕ → Bool
is_empty [] = true
is_empty (b ∷ bs) = false

-- The branch `n <= 0`: wait for the device to become writable, or drop the frame where no watch can
-- be had.
unfoldable pub hold_output : Io → Io
hold_output s =
    let watched = s.panel_watch || s.can_watch in
    record s { panel_watch = watched; panel_out = if watched then s.panel_out else [] }

-- The device has taken the first `n` bytes; a frame that is out makes way for the next.
unfoldable pub sent : ℕ → Io → Io
sent n s =
    let rest = drop n s.panel_out in
    let t = record s { panel_out = rest; effects = s.effects ++ shown (take n s.panel_out) ∷ [] } in
    if is_empty rest && s.panel_dirty
    then record t { panel_dirty = false; panel_out = build_panel t }
    else t

-- The loop of `ldd_io_panel_flush`, over the answers to come. Each write uses one up; after the
-- last one the device takes nothing.
unfoldable pub flush_with : List Answer → Io → Io
unfolding hold_output sent
flush_with [] s = if is_empty s.panel_out then s else hold_output s
flush_with (took n ∷ later) s =
    let more = flush_with later (sent n (record s { answers = later })) in
    if is_empty s.panel_out
    then s
    else if n == 0
    then hold_output (record s { answers = later })
    else more
flush_with (again ∷ later) s =
    if is_empty s.panel_out then s else hold_output (record s { answers = later })
flush_with (gone ∷ later) s =
    if is_empty s.panel_out then s else record s { panel_out = []; answers = later }

unfoldable pub panel_flush : Io → Io
unfolding flush_with
panel_flush s = flush_with s.answers s

unfoldable pub panel_writable : Io → Io
unfolding panel_flush
panel_writable s = panel_flush (record s { panel_watch = false })

unfoldable pub draw_panel : Io → Io
unfolding panel_flush
draw_panel s =
    if not s.attached
    then s
    else if not (is_empty s.panel_out)
    then record s { panel_dirty = true }
    else panel_flush (record s { panel_out = build_panel s })

unfoldable pub panel_drop : Io → Io
panel_drop s = record s {
  panel_watch = false;
  panel_out = [];
  panel_dirty = false;
  effects = if s.panel_watch then s.effects ++ unwatch ∷ [] else s.effects;
}
