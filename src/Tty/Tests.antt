-- ===== src/Tty/Tests.antt =====
-- examples/31_tty/main.c: the theorems at a terminal with a buffer of 82 bytes.
use linux_device_driver.Prelude.{
  ◌≡◌, ◌<◌, refl, none, [], ◌∷◌, ◌++◌, arith, replicate, take, length,
}
use linux_device_driver.Tty.Device.{
  Tty, write, printk, print_from, break_line, flush, put, until_nul, write_room, shutdown,
}
use linux_device_driver.Tty.Buffer.{IsValid, so_far, text_of, joined}
use linux_device_driver.Tty.Lines.{write-Adds}

abbrev line : Tty
line = record {
  buffer_curr = 0;
  buffer = replicate 82 0;
  timer = none;
  printed = [];
  received = [];
}

-- "a\r\nb\n" gives two lines.
two_lines : (write (97 ∷ 13 ∷ 10 ∷ 98 ∷ 10 ∷ []) line).1.printed ≡ (97 ∷ []) ∷ (98 ∷ []) ∷ []
unfolding write printk print_from break_line flush put until_nul
two_lines = refl

line-IsValid : IsValid line
line-IsValid = record { room = omega arith; short = omega arith; no_nul = tt }

write-Adds_example :
    let (n, t) = write (97 ∷ 13 ∷ 10 ∷ 98 ∷ []) line in
    (n ≡ 4)
    × (so_far t ≡ so_far line ++ text_of (97 ∷ 13 ∷ 10 ∷ 98 ∷ []))
    × IsValid t
    × (0 < write_room (length t.buffer) t)
    × (joined (shutdown t).printed ++ take (shutdown t).buffer_curr (shutdown t).buffer
        ≡ so_far line ++ text_of (97 ∷ 13 ∷ 10 ∷ 98 ∷ []))
    × ((shutdown t).buffer_curr ≡ 0)
write-Adds_example =
    write-Adds (97 ∷ 13 ∷ 10 ∷ 98 ∷ []) line line-IsValid
      (omega arith, (omega arith, (omega arith, (omega arith, tt))))
