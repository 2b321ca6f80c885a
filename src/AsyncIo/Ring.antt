-- ===== src/AsyncIo/Ring.antt =====
-- examples/25_async_io/main.c: what the ring holds, and what a read and a write make of it.
use linux_device_driver.Prelude.{
  ℕ, ◌+◌, ◌-◌, ◌%◌, ◌≤◌, ◌<◌, ◌≡◌, ◌⊎◌, refl, sym, ◌∙◌, ap, ap₂, true, false, List, ◌++◌,
  append-nil, append_assoc, slice, blit, length, length-blit, take-zero, slice-blit_self,
  slice-blit_apart, slice-append-slice, min, Bool-cases, leb, leb→le, arith, inl, inr,
}
use linux_device_driver.AsyncIo.Device.{buff_size, Ring}

-- The `n` bytes from `r` on, which go on at the front of the buffer.
unfoldable pub around : ℕ → ℕ → List ℕ → List ℕ
around r n b = let front = min n (buff_size - r) in slice r front b ++ slice 0 (n - front) b

-- What has been written and not been read yet, the oldest first.
abbrev pub contents : Ring → List ℕ
contents dev = around dev.read_cur dev.len dev.buff

pub record IsValid (dev : Ring) : Type 0 where
  pub size : length dev.buff ≡ buff_size
  pub full : dev.len ≤ buff_size
  pub reads : dev.read_cur < buff_size
  pub writes : dev.write_cur ≡ (dev.read_cur + dev.len) % buff_size

-- Where the bytes do not go on at the front.
around-straight : (r n : ℕ) (b : List ℕ) → r + n ≤ buff_size → around r n b ≡ slice r n b
unfolding around
around-straight r n b h =
    let front : min n (buff_size - r) ≡ n = omega arith in
    let none : n - n ≡ 0 = omega arith in
    ap (λ (k : ℕ). slice r k b ++ slice 0 (n - k) b) front
    ∙ ap (λ (k : ℕ). slice r n b ++ slice 0 k b) none
    ∙ ap (λ (ys : List ℕ). slice r n b ++ ys) (take-zero b)
    ∙ append-nil (slice r n b)

-- Where they do.
around-turned :
    (r n m : ℕ) (b : List ℕ)
    → r + n ≡ buff_size + m
    → r ≤ buff_size
    → around r n b ≡ slice r (buff_size - r) b ++ slice 0 m b
unfolding around
around-turned r n m b e h =
    let front : min n (buff_size - r) ≡ buff_size - r = omega arith in
    let rest : n - (buff_size - r) ≡ m = omega arith in
    ap (λ (k : ℕ). slice r k b ++ slice 0 (n - k) b) front
    ∙ ap (λ (k : ℕ). slice r (buff_size - r) b ++ slice 0 k b) rest

le_or_lt : (a b : ℕ) → (a ≤ b) ⊎ (b < a)
le_or_lt a b = split (Bool-cases (leb a b))
  where
    split : (leb a b ≡ true) ⊎ (leb a b ≡ false) → (a ≤ b) ⊎ (b < a)
    split (inl e) = inl (leb→le a b e)
    split (inr e) = inr (ground arith)

-- The first `c` bytes are taken away, no more than there are up to the end of the buffer.
module _ (r n c : ℕ) (b : List ℕ) (size : length b ≡ buff_size) (full : n ≤ buff_size)
    (low : r < buff_size) (few : c ≤ n) where
  short_of_end : r + c < buff_size → around r n b ≡ slice r c b ++ around (r + c) (n - c) b
  short_of_end h = split (le_or_lt (r + n) buff_size)
    where
      split :
          (r + n ≤ buff_size) ⊎ (buff_size < r + n)
          → around r n b ≡ slice r c b ++ around (r + c) (n - c) b
      split (inl s) =
          let whole : c + (n - c) ≡ n = omega arith in
          around-straight r n b s
          ∙ ap (λ (k : ℕ). slice r k b) (sym whole)
          ∙ sym (slice-append-slice b r c (n - c) (r + c) refl (omega arith))
          ∙ ap (λ (ys : List ℕ). slice r c b ++ ys)
              (sym (around-straight (r + c) (n - c) b (omega arith)))
      split (inr s) =
          let m = r + n - buff_size in
          let whole : c + (buff_size - (r + c)) ≡ buff_size - r = omega arith in
          around-turned r n m b (omega arith) (omega arith)
          ∙ ap (λ (k : ℕ). slice r k b ++ slice 0 m b) (sym whole)
          ∙ ap (λ (ys : List ℕ). ys ++ slice 0 m b)
              (sym (slice-append-slice b r c (buff_size - (r + c)) (r + c) refl (omega arith)))
          ∙ append_assoc (slice r c b) (slice (r + c) (buff_size - (r + c)) b) (slice 0 m b)
          ∙ ap (λ (ys : List ℕ). slice r c b ++ ys)
              (sym (around-turned (r + c) (n - c) m b (omega arith) (omega arith)))

  to_the_end : r + c ≡ buff_size → around r n b ≡ slice r c b ++ around 0 (n - c) b
  to_the_end h =
      let last : buff_size - r ≡ c = omega arith in
      around-turned r n (n - c) b (omega arith) (omega arith)
      ∙ ap (λ (k : ℕ). slice r k b ++ slice 0 (n - c) b) last
      ∙ ap (λ (ys : List ℕ). slice r c b ++ ys) (sym (around-straight 0 (n - c) b (omega arith)))

  pub around-read :
      r + c ≤ buff_size → around r n b ≡ slice r c b ++ around ((r + c) % buff_size) (n - c) b
  around-read inside = split (le_or_lt buff_size (r + c))
    where
      split :
          (buff_size ≤ r + c) ⊎ (r + c < buff_size)
          → around r n b ≡ slice r c b ++ around ((r + c) % buff_size) (n - c) b
      split (inl h) =
          let turn : (r + c) % buff_size ≡ 0 = omega arith in
          to_the_end (omega arith) ∙ ap (λ (k : ℕ). slice r c b ++ around k (n - c) b) (sym turn)
      split (inr h) =
          let stay : (r + c) % buff_size ≡ r + c = omega arith in
          short_of_end h ∙ ap (λ (k : ℕ). slice r c b ++ around k (n - c) b) (sym stay)

-- Bytes are put behind the last one, no more than there is room for up to the end of the buffer.
module _ (r n w : ℕ) (b bytes : List ℕ) (size : length b ≡ buff_size)
    (fits : n + length bytes ≤ buff_size) (low : r < buff_size) (some : n < buff_size)
    (inside : w + length bytes ≤ buff_size) where
  abbrev k : ℕ
  k = length bytes

  put_straight : w ≡ r + n → around r (n + k) (blit b w bytes) ≡ around r n b ++ bytes
  put_straight e =
      around-straight r (n + k) (blit b w bytes) (omega arith)
      ∙ sym (slice-append-slice (blit b w bytes) r n k w e (omega (arith, length-blit b w bytes)))
      ∙ ap₂ (λ (x y : List ℕ). x ++ y)
          (slice-blit_apart b w bytes r n (inr (omega arith))
            ∙ sym (around-straight r n b (omega arith)))
          (slice-blit_self b w bytes (omega arith))

  put_turned : r + n ≡ buff_size + w → around r (n + k) (blit b w bytes) ≡ around r n b ++ bytes
  put_turned e =
      around-turned r (n + k) (w + k) (blit b w bytes) (omega arith) (omega arith)
      ∙ ap₂ (λ (x y : List ℕ). x ++ y)
          (slice-blit_apart b w bytes r (buff_size - r) (inl (omega arith)))
          (sym (
              slice-append-slice (blit b w bytes) 0 w k w (omega arith)
                (omega (arith, length-blit b w bytes)))
            ∙ ap₂ (λ (x y : List ℕ). x ++ y) (slice-blit_apart b w bytes 0 w (inr (omega arith)))
                (slice-blit_self b w bytes (omega arith)))
      ∙ sym (append_assoc (slice r (buff_size - r) b) (slice 0 w b) bytes)
      ∙ ap (λ (ys : List ℕ). ys ++ bytes) (sym (around-turned r n w b e (omega arith)))

  pub around-write :
      w ≡ (r + n) % buff_size → around r (n + k) (blit b w bytes) ≡ around r n b ++ bytes
  around-write place = split (le_or_lt buff_size (r + n))
    where
      split :
          (buff_size ≤ r + n) ⊎ (r + n < buff_size)
          → around r (n + k) (blit b w bytes) ≡ around r n b ++ bytes
      split (inl h) = put_turned (omega arith)
      split (inr h) = put_straight (omega arith)
