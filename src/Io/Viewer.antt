-- ===== src/Io/Viewer.antt =====
-- tools/qemu/hw/ldd/io.c: what a viewer of the panel sees over every event.
use linux_device_driver.Prelude.{ℕ, ◌≡◌, ◌⊎◌, true, List, [], ◌∷◌, ◌++◌}
use linux_device_driver.Io.State.{Io}
use linux_device_driver.Io.Panel.{build_panel}
use linux_device_driver.Io.Machine.{Event, closed}
use linux_device_driver.Io.Stream.{stream, IsSteady, IsWaiting}
use linux_device_driver.Io.Held.{IsHeld}

-- The output is in order: a redraw is asked for only while a frame is on its way, what is on its way
-- has a watch, no write will fail for good, a watch can be had, and there is a device.
abbrev pub Ready : Io → Type 0
Ready s = IsWaiting s × IsHeld s × IsSteady s.answers × (s.can_watch ≡ true) × (s.attached ≡ true)

-- A redraw is asked for, or what the viewer has got and will get ends with the panel as it is.
abbrev pub IsFresh : Io → Type 0
IsFresh s = (s.panel_dirty ≡ true) ⊎ ((before : List ℕ) × (stream s ≡ before ++ build_panel s))

abbrev pub IsCurrent : Io → Type 0
IsCurrent s = Ready s × IsFresh s

-- No event is the viewer leaving.
abbrev pub Stays : List Event → Type 0
Stays [] = Unit {0}
Stays (closed ∷ es) = ⊥
Stays (_ ∷ es) = Stays es
