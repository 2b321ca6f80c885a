-- ===== src/Tty/Device.antt =====
-- examples/31_tty/main.c: the line buffer of a terminal, its timer, and what is written to it.
use linux_device_driver.Prelude.{
  ℕ, ◌+◌, ◌-◌, Bool, true, false, ◌&&◌, Option, none, some, List, [], ◌∷◌, ◌++◌, leb, ltb, ◌==◌,
  if◌then◌else◌, length, set,
}

-- `struct ldd_tty_dev`: the buffer of `LDD_TTY_MAX_ROOM` bytes, how far it is used, the deadline of the
-- timer, what `printk` has printed, and the characters that went to the line discipline.
pub record Tty : Type 0 where
  pub buffer_curr : ℕ
  pub buffer : List ℕ
  pub timer : Option ℕ
  pub printed : List (List ℕ)
  pub received : List ℕ

abbrev pub line_long : ℕ
line_long = 80

-- `%s` prints up to the first NUL.
unfoldable pub until_nul : List ℕ → List ℕ
until_nul [] = []
until_nul (c ∷ cs) = let rest = until_nul cs in if c == 0 then [] else c ∷ rest

-- `buffer[buffer_curr++] = c`
unfoldable pub put : ℕ → Tty → Tty
put c s = record s { buffer = set s.buffer s.buffer_curr c; buffer_curr = s.buffer_curr + 1 }

-- `ldd_tty_flush`
unfoldable pub flush : Tty → Tty
unfolding until_nul
flush s =
    let ended = set s.buffer s.buffer_curr 0 in
    if ltb 0 s.buffer_curr
    then record s { buffer = ended; buffer_curr = 0; printed = s.printed ++ until_nul ended ∷ [] }
    else s

-- The start of a round of the loop: a line that has become too long is broken.
unfoldable pub break_line : Tty → Tty
unfolding put flush
break_line s = if leb line_long s.buffer_curr then flush (put b'\\' s) else s

-- The loop of `ldd_tty_printk`. After a carriage return one newline is passed over: `skip` says that
-- the character before was one.
unfoldable pub print_from : Bool → List ℕ → Tty → Tty
unfolding break_line put flush
print_from skip [] s = s
print_from skip (c ∷ cs) s =
    let t = break_line s in
    let passed = print_from false cs s in
    let returned = print_from true cs (flush t) in
    let ended = print_from false cs (flush t) in
    let kept = print_from false cs (put c t) in
    if skip && c == 0x0a
    then passed
    else if c == 0x0d
    then returned
    else if c == 0x0a
    then ended
    else kept

unfoldable pub printk : List ℕ → Tty → ℕ × Tty
unfolding print_from
printk bytes s = (length bytes, print_from false bytes s)

-- `ldd_tty_write`, under the lock
unfoldable pub write : List ℕ → Tty → ℕ × Tty
unfolding printk
write bytes s = printk bytes s

-- `ldd_tty_write_room`; `room` is `LDD_TTY_MAX_ROOM`.
unfoldable pub write_room : ℕ → Tty → ℕ
write_room room s = room - s.buffer_curr

-- `ldd_tty_timer_func`, `ldd_port_activate` and `ldd_port_shutdown`; `period` is `TIMER_INTERVAL`.
unfoldable pub timer_func : ℕ → ℕ → Tty → Tty
timer_func period now s = record s {
  received = s.received ++ b'z' ∷ [];
  timer = some (now + period);
}

unfoldable pub activate : ℕ → ℕ → Tty → Tty
activate period now s = record s { timer = some (now + period) }

unfoldable pub shutdown : Tty → Tty
unfolding flush
shutdown s = flush (record s { timer = none })
