-- ===== src/Tty/Lines.antt =====
-- examples/31_tty/main.c: no written character is lost, doubled or out of order, and none is stored
-- behind the buffer.
use linux_device_driver.Prelude.{
  ℕ, ◌+◌, ◌≡◌, ◌≤◌, ◌<◌, refl, ◌∙◌, sym, ap, ap₂, subst, Bool, true, false, ◌&&◌, none, List, [],
  ◌∷◌, ◌++◌, append-nil, leb, ltb, leb→le, ◌==◌, if_cases, length, take, arith, length-set,
  length-append,
}
use linux_device_driver.Tty.Device.{
  Tty, line_long, put, flush, break_line, print_from, printk, write, write_room, shutdown,
}
use linux_device_driver.Tty.Buffer.{
  is_text, text_of, without_mark, joined, AllText, pending, IsValid, so_far, AllText-snoc,
  take-front, length-pending, Adds, Adds-trans, flushed, flushed_printed, flushed-IsValid,
  flush-Adds, pending-put, put-Adds, flush_curr,
}

flushed_nil : (t : Tty) → so_far (flushed t) ≡ joined (flushed t).printed
unfolding flushed
flushed_nil t = append-nil _

without_mark-marked :
    (xs : List ℕ) (c : ℕ) → length xs ≡ line_long → without_mark (xs ++ c ∷ []) ≡ xs
without_mark-marked xs c h =
    if_cases (λ t. t ≡ xs) (length (xs ++ c ∷ []) == 81) (λ _. take-front line_long xs (c ∷ []) h)
      λ e. absurd (ground (arith, length-append xs (c ∷ [])))

-- A line of 80 characters is printed with its mark, and comes back without it.
full-Adds : (s : Tty) → IsValid s → s.buffer_curr ≡ line_long → Adds [] s (flushed (put b'\\' s))
unfolding put
full-Adds s v full =
    let t = put b'\\' s in
    let more = pending-put b'\\' s (omega (arith, v.room)) in
    let size : length (pending s) ≡ line_long =
      omega (arith, length-pending s (omega (arith, v.room)), full) in
    let room : 82 ≤ length t.buffer =
      omega (arith, length-set s.buffer s.buffer_curr b'\\', v.room) in
    let curr : t.buffer_curr < length t.buffer = omega (arith, room, full) in
    record {
      grows =
          flushed_nil t
          ∙ flushed_printed t curr
              (subst AllText (sym more) (AllText-snoc (pending s) b'\\' (omega arith) v.no_nul))
          ∙ ap₂ (λ (a b : List ℕ). a ++ b) (refl)
              (ap without_mark more ∙ without_mark-marked (pending s) b'\\' size)
          ∙ sym (append-nil (so_far s));
      valid = flushed-IsValid t room;
    }

-- The start of a round makes room in the line.
break_line-Adds :
    (s : Tty) → IsValid s → Adds [] s (break_line s) × ((break_line s).buffer_curr < line_long)
unfolding break_line flush flushed put
break_line-Adds s v =
    if_cases (λ t. Adds [] s t × (t.buffer_curr < line_long)) (leb line_long s.buffer_curr)
      (λ e.
        let full : s.buffer_curr ≡ line_long =
          omega (arith, leb→le line_long s.buffer_curr e, v.short) in
        if_cases (λ t. Adds [] s t × (t.buffer_curr < line_long)) (ltb 0 (s.buffer_curr + 1))
          (λ _. (full-Adds s v full, omega arith)) λ f. absurd (ground arith))
      λ e. (record { grows = sym (append-nil (so_far s)); valid = v }, ground arith)

-- No NUL is written.
abbrev pub NoNul : List ℕ → Type 0
NoNul [] = Unit {0}
NoNul (c ∷ cs) = (0 < c) × NoNul cs

text_of-end : (c : ℕ) (cs : List ℕ) → is_text c ≡ false → text_of (c ∷ cs) ≡ text_of cs
unfolding text_of
text_of-end c cs h = ground arith

text_of-keep : (c : ℕ) (cs : List ℕ) → is_text c ≡ true → text_of (c ∷ cs) ≡ c ∷ text_of cs
unfolding text_of
text_of-keep c cs h = ground arith

print_from-Adds :
    (skip : Bool) (cs : List ℕ) (s : Tty)
    → IsValid s
    → NoNul cs
    → Adds (text_of cs) s (print_from skip cs s)
unfolding print_from text_of
print_from-Adds skip [] s v n = record { grows = sym (append-nil (so_far s)); valid = v }
print_from-Adds skip (c ∷ cs) s v (p, n) =
    let t = break_line s in
    let (b, room) = break_line-Adds s v in
    let f = flush-Adds t b.valid in
    let ended : (flag : Bool)
        → is_text c ≡ false
        → Adds (text_of (c ∷ cs)) s (print_from flag cs (flush t)) =
      λ flag e.
        subst (λ xs. Adds xs s (print_from flag cs (flush t))) (sym (text_of-end c cs e))
          (Adds-trans [] (text_of cs) s (flush t) (print_from flag cs (flush t))
            (Adds-trans [] [] s t (flush t) b f) (print_from-Adds flag cs (flush t) f.valid n)) in
    if_cases (Adds (text_of (c ∷ cs)) s) (skip && c == 0x0a)
      (λ e.
        subst (λ xs. Adds xs s (print_from false cs s)) (sym (text_of-end c cs (ground arith)))
          (print_from-Adds false cs s v n))
      λ _.
        if_cases (Adds (text_of (c ∷ cs)) s) (c == 0x0d) (λ e. ended true (ground arith))
          λ not_return.
            if_cases (Adds (text_of (c ∷ cs)) s) (c == 0x0a) (λ e. ended false (ground arith))
              λ not_newline.
                let k = put-Adds c t b.valid room p in
                subst (λ xs. Adds xs s (print_from false cs (put c t)))
                  (sym (text_of-keep c cs (cc)))
                  (Adds-trans (c ∷ []) (text_of cs) s (put c t) (print_from false cs (put c t))
                    (Adds-trans [] (c ∷ []) s t (put c t) b k)
                    (print_from-Adds false cs (put c t) k.valid n))

-- On a valid port, whatever text without NUL characters is written, in whatever pieces: the lines printed so far, without
-- the marks of breaks, and what waits in the buffer are together what was there before and the text
-- without its line ends, and the last close prints the rest. The line stays within 80 characters of a
-- buffer of at least 82, so that room is left for the next write, and all bytes are taken. (Lines are
-- printed with `%s`, which stops at a NUL: of such text this is not claimed.)
pub write-Adds :
    (cs : List ℕ) (s : Tty)
    → IsValid s
    → NoNul cs
    → let (n, t) = write cs s in
      (n ≡ length cs)
      × (so_far t ≡ so_far s ++ text_of cs)
      × IsValid t
      × (0 < write_room (length t.buffer) t)
      × (joined (shutdown t).printed ++ take (shutdown t).buffer_curr (shutdown t).buffer
          ≡ so_far s ++ text_of cs)
      × ((shutdown t).buffer_curr ≡ 0)
unfolding write printk write_room shutdown
write-Adds cs s v n =
    let a = print_from-Adds false cs s v n in
    let t = print_from false cs s in
    let closed = record t { timer = none } in
    let rest : IsValid closed = record {
      room = a.valid.room;
      short = a.valid.short;
      no_nul = a.valid.no_nul;
    } in
    let f = flush-Adds closed rest in
    (
      refl,
      a.grows,
      a.valid,
      omega (arith, a.valid.room, a.valid.short),
      f.grows ∙ append-nil (so_far closed) ∙ a.grows,
      flush_curr closed,
    )
