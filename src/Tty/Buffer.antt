-- ===== src/Tty/Buffer.antt =====
-- examples/31_tty/main.c: the line in the buffer, and what printing it shows.
use linux_device_driver.Prelude.{
  ℕ, zero, suc, ◌+◌, ◌≡◌, ◌≤◌, ◌<◌, refl, ◌∙◌, sym, ap, subst, Bool, not, ◌&&◌, List, [], ◌∷◌, ◌++◌,
  append-nil, append_assoc, ltb, ==→eq, ◌==◌, if◌then◌else◌, if_cases, length, take, set, arith,
  length-set, length-take,
}
use linux_device_driver.Tty.Device.{Tty, line_long, until_nul, put, flush}

-- Neither a carriage return nor a newline.
abbrev pub is_text : ℕ → Bool
is_text c = not (c == 0x0d) && not (c == 0x0a)

-- The characters that are to be printed.
unfoldable pub text_of : List ℕ → List ℕ
text_of [] = []
text_of (c ∷ cs) = let rest = text_of cs in if is_text c then c ∷ rest else rest

-- A printed line without the mark of a break, which makes it longer than any other.
abbrev pub without_mark : List ℕ → List ℕ
without_mark line = if length line == 81 then take line_long line else line

unfoldable pub joined : List (List ℕ) → List ℕ
joined [] = []
joined (line ∷ lines) = without_mark line ++ joined lines

-- The buffer has room for a line, its mark and the NUL, the line is not too long, and no NUL is in it.
abbrev pub AllText : List ℕ → Type 0
AllText [] = Unit {0}
AllText (c ∷ cs) = (0 < c) × AllText cs

abbrev pub pending : Tty → List ℕ
pending s = take s.buffer_curr s.buffer

pub record IsValid (s : Tty) : Type 0 where
  pub room : 82 ≤ length s.buffer
  pub short : s.buffer_curr ≤ line_long
  pub no_nul : AllText (pending s)

-- All characters so far: what was printed and what waits in the buffer.
abbrev pub so_far : Tty → List ℕ
so_far s = joined s.printed ++ take s.buffer_curr s.buffer

joined-append : (xs ys : List (List ℕ)) → joined (xs ++ ys) ≡ joined xs ++ joined ys
unfolding joined
joined-append [] ys = refl
joined-append (x ∷ xs) ys =
    ap (λ t. without_mark x ++ t) (joined-append xs ys)
    ∙ sym (append_assoc (without_mark x) (joined xs) (joined ys))

-- The characters up to a NUL that is put at `n`, and the buffer with one more.
until_nul-set :
    (n : ℕ) (xs : List ℕ) → n < length xs → AllText (take n xs) → until_nul (set xs n 0) ≡ take n xs
unfolding until_nul
until_nul-set n [] h a = absurd (omega arith)
until_nul-set zero (x ∷ xs) h a = refl
until_nul-set (suc n) (x ∷ xs) h (p, a) =
    if_cases (λ t. t ≡ x ∷ take n xs) (x == 0) (λ e. absurd (ground arith))
      λ _. ap (λ t. x ∷ t) (until_nul-set n xs (omega arith) a)

take-set :
    (n k : ℕ) (xs : List ℕ) (c : ℕ)
    → n + 1 ≡ k
    → n < length xs
    → take k (set xs n c) ≡ take n xs ++ c ∷ []
take-set n k [] c e h = absurd (omega arith)
take-set n zero (x ∷ xs) c e h = absurd (omega arith)
take-set zero (suc zero) (x ∷ xs) c e h = refl
take-set zero (suc (suc k)) (x ∷ xs) c e h = absurd (omega arith)
take-set (suc n) (suc k) (x ∷ xs) c e h =
    ap (λ t. x ∷ t) (take-set n k xs c (omega arith) (omega arith))

pub AllText-snoc : (xs : List ℕ) (c : ℕ) → 0 < c → AllText xs → AllText (xs ++ c ∷ [])
AllText-snoc [] c h a = (h, tt)
AllText-snoc (x ∷ xs) c h (p, a) = (p, AllText-snoc xs c h a)

pub length-pending :
    (s : Tty) → s.buffer_curr ≤ length s.buffer → length (pending s) ≡ s.buffer_curr
length-pending s h = omega (arith, length-take s.buffer_curr s.buffer)

pub take-front : (n : ℕ) (xs ys : List ℕ) → length xs ≡ n → take n (xs ++ ys) ≡ xs
take-front zero [] ys h = refl
take-front zero (x ∷ xs) ys h = absurd (omega arith)
take-front (suc n) [] ys h = absurd (omega arith)
take-front (suc n) (x ∷ xs) ys h = ap (λ t. x ∷ t) (take-front n xs ys (omega arith))

-- A step that adds `new` to the characters so far.
pub record Adds (new : List ℕ) (s t : Tty) : Type 0 where
  pub grows : so_far t ≡ so_far s ++ new
  pub valid : IsValid t

pub Adds-trans : (xs ys : List ℕ) (s t u : Tty) → Adds xs s t → Adds ys t u → Adds (xs ++ ys) s u
Adds-trans xs ys s t u a b = record {
  grows = b.grows ∙ ap (λ z. z ++ ys) a.grows ∙ append_assoc (so_far s) xs ys;
  valid = b.valid;
}

-- The state after a flush of a buffer that is in use: its line is printed.
unfoldable pub flushed : Tty → Tty
flushed s = record s {
  buffer = set s.buffer s.buffer_curr 0;
  buffer_curr = 0;
  printed = s.printed ++ until_nul (set s.buffer s.buffer_curr 0) ∷ [];
}

pub flushed_printed :
    (s : Tty)
    → s.buffer_curr < length s.buffer
    → AllText (pending s)
    → joined (flushed s).printed ≡ joined s.printed ++ without_mark (pending s)
unfolding flushed joined
flushed_printed s room text =
    joined-append s.printed (until_nul (set s.buffer s.buffer_curr 0) ∷ [])
    ∙ ap (λ t. joined s.printed ++ t)
        (append-nil (without_mark (until_nul (set s.buffer s.buffer_curr 0)))
          ∙ ap without_mark (until_nul-set s.buffer_curr s.buffer room text))

pub flushed-IsValid : (s : Tty) → 82 ≤ length s.buffer → IsValid (flushed s)
unfolding flushed
flushed-IsValid s room = record {
  room = omega (arith, length-set s.buffer s.buffer_curr 0);
  short = omega arith;
  no_nul = tt;
}

without_mark-short : (xs : List ℕ) → length xs ≤ line_long → without_mark xs ≡ xs
without_mark-short xs h =
    if_cases (λ t. t ≡ xs) (length xs == 81) (λ e. absurd (omega (arith, ==→eq (length xs) 81 e)))
      λ _. refl

pub flush-Adds : (s : Tty) → IsValid s → Adds [] s (flush s)
unfolding flush flushed
flush-Adds s v =
    if_cases (Adds [] s) (ltb 0 s.buffer_curr)
      (λ _. record {
        grows =
            append-nil (joined (flushed s).printed)
            ∙ flushed_printed s (omega (arith, v.room, v.short)) v.no_nul
            ∙ ap (λ t. joined s.printed ++ t)
                (without_mark-short (pending s)
                  (omega (arith, length-take s.buffer_curr s.buffer, v.short)))
            ∙ sym (append-nil (so_far s));
        valid = flushed-IsValid s v.room;
      })
      λ _. record { grows = sym (append-nil (so_far s)); valid = v }

pub flush_curr : (s : Tty) → (flush s).buffer_curr ≡ 0
unfolding flush
flush_curr s = ground arith

pub pending-put :
    (c : ℕ) (s : Tty) → s.buffer_curr < length s.buffer → pending (put c s) ≡ pending s ++ c ∷ []
unfolding put
pending-put c s h = take-set s.buffer_curr (s.buffer_curr + 1) s.buffer c refl h

pub put-Adds :
    (c : ℕ) (s : Tty) → IsValid s → s.buffer_curr < line_long → 0 < c → Adds (c ∷ []) s (put c s)
unfolding put
put-Adds c s v h p =
    let more = pending-put c s (omega (arith, v.room)) in
    record {
      grows =
          ap (λ t. joined s.printed ++ t) more
          ∙ sym (append_assoc (joined s.printed) (pending s) (c ∷ []));
      valid = record {
        room = omega (arith, length-set s.buffer s.buffer_curr c, v.room);
        short = omega arith;
        no_nul = subst AllText (sym more) (AllText-snoc (pending s) c p v.no_nul);
      };
    }
