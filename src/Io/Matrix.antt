-- ===== src/Io/Matrix.antt =====
-- tools/qemu/hw/ldd/io.c: the LED matrix as a memory, little endian at every width.
use native.Mathlib.Nat.{
  div-div-eq-div-mul, div-le_self, pow-suc, mul_assoc, div-eq_of_lt, pow-le-pow_right,
}
use linux_device_driver.Prelude.{
  ℕ, zero, suc, ◌+◌, ◌-◌, ◌*◌, ◌/◌, ◌%◌, ◌^◌, ◌<◌, ◌≤◌, ◌≢◌, ◌⊎◌, inl, inr, leb, ◌≡◌, refl, ◌∙◌,
  sym, ap, ap₂, List, [], ◌∷◌, if_cases, arith, get_or, set, length, length-set, bit_or,
}
use linux_device_driver.Prelude.Bits.{bit_or_shifted}
use linux_device_driver.Io.State.{Io, matrix_offset}
use linux_device_driver.Io.Device.{read_matrix, read, write_matrix, write}
use linux_device_driver.Io.Frame.{draw_panel-Frame}

-- Byte `i` of a value, counted from the lowest.
abbrev pub byte_of : ℕ → ℕ → ℕ
byte_of val i = val / 2 ^ (8 * i) % 2 ^ 8

get_or-set : (m : List ℕ) (i v : ℕ) → i < length m → get_or (set m i v) i 0 ≡ v
get_or-set [] i v h = absurd (omega arith)
get_or-set (x ∷ m) zero v h = refl
get_or-set (x ∷ m) (suc i) v h = get_or-set m i v (omega arith)

get_or-set_other : (m : List ℕ) (i j v : ℕ) → j ≢ i → get_or (set m i v) j 0 ≡ get_or m j 0
get_or-set_other [] i j v h = refl
get_or-set_other (x ∷ m) zero zero v h = absurd (omega arith)
get_or-set_other (x ∷ m) zero (suc j) v h = refl
get_or-set_other (x ∷ m) (suc i) zero v h = refl
get_or-set_other (x ∷ m) (suc i) (suc j) v h = get_or-set_other m i j v (omega arith)

length-write_matrix :
    (val first i n : ℕ) (m : List ℕ) → length (write_matrix val first i n m) ≡ length m
unfolding write_matrix
length-write_matrix val first i zero m = refl
length-write_matrix val first i (suc n) m =
    length-write_matrix val first (i + 1) n (set m (first + i) (byte_of val i))
    ∙ length-set m (first + i) (byte_of val i)

-- A byte outside the access is as it was.
write_matrix_other :
    (val first i n j : ℕ) (m : List ℕ)
    → (first + i ≤ j → first + i + n ≤ j)
    → get_or (write_matrix val first i n m) j 0 ≡ get_or m j 0
unfolding write_matrix
write_matrix_other val first i zero j m h = refl
write_matrix_other val first i (suc n) j m h =
    write_matrix_other val first (i + 1) n j (set m (first + i) (byte_of val i))
      (λ le. omega (arith, h (omega arith)))
    ∙ get_or-set_other m (first + i) j (byte_of val i)
        (λ e. absurd (omega (arith, h (omega arith))))

le_cases : (i j : ℕ) → i ≤ j → (i ≡ j) ⊎ (i < j)
le_cases i j h = ground arith

-- A byte inside the access is the value's.
write_matrix_at :
    (val first i n j : ℕ) (m : List ℕ)
    → i ≤ j
    → j < i + n
    → first + i + n ≤ length m
    → get_or (write_matrix val first i n m) (first + j) 0 ≡ byte_of val j
unfolding write_matrix
write_matrix_at val first i zero j m lo hi room = absurd (omega arith)
write_matrix_at val first i (suc n) j m lo hi room =
    let m' = set m (first + i) (byte_of val i) in
    elim (le_cases i j lo) [
      | inl e ↦
          write_matrix_other val first (i + 1) n (first + j) m' (λ le. absurd (omega arith))
          ∙ ap (λ k. get_or m' (first + k) 0) (sym e)
          ∙ get_or-set m (first + i) (byte_of val i) (omega arith)
          ∙ ap (byte_of val) e
      | inr lt ↦
          write_matrix_at val first (i + 1) n j m' (omega arith) (omega arith)
            (omega (arith, length-set m (first + i) (byte_of val i)))
    ]

pow_plus : (k n m : ℕ) → k + n ≡ m → 2 ^ n * 2 ^ k ≡ 2 ^ m
pow_plus zero n m e = let same : n ≡ m = omega arith in ap (λ p. 2 ^ p * 1) same ∙ omega arith
pow_plus (suc k) n m e =
    let same : suc (k + n) ≡ m = omega arith in
    omega (
      arith,
      ap (λ p. 2 ^ n * p) (pow-suc 2 k),
      pow-suc 2 (k + n),
      pow_plus k n (k + n) refl,
      ap (λ p. 2 ^ p) same,
      mul_assoc (2 ^ n) (2 ^ k) 2,
    )

-- The bytes of a value put together from the highest give it back.
shift_byte : (val i : ℕ) → val / 2 ^ (8 * (i + 1)) ≡ val / 2 ^ (8 * i) / 2 ^ 8
shift_byte val i = sym (
    div-div-eq-div-mul val (2 ^ (8 * i)) (2 ^ 8)
    ∙ ap (λ p. val / p) (pow_plus 8 (8 * i) (8 * (i + 1)) (omega arith)))

join_word : (w : ℕ) → w < 2 ^ 64 → bit_or (w / 2 ^ 8 * 2 ^ 8 % 2 ^ 64) (w % 2 ^ 8) ≡ w
join_word w h =
    let wrap : w / 2 ^ 8 * 2 ^ 8 % 2 ^ 64 ≡ w / 2 ^ 8 * 2 ^ 8 = omega arith in
    ap (λ t. bit_or t (w % 2 ^ 8)) wrap
    ∙ bit_or_shifted 8 (w / 2 ^ 8) (w % 2 ^ 8) (omega arith)
    ∙ omega arith

join_byte :
    (val i : ℕ)
    → val < 2 ^ 64
    → bit_or (val / 2 ^ (8 * (i + 1)) * 2 ^ 8 % 2 ^ 64) (byte_of val i) ≡ val / 2 ^ (8 * i)
join_byte val i h =
    let w = val / 2 ^ (8 * i) in
    ap (λ t. bit_or (t * 2 ^ 8 % 2 ^ 64) (w % 2 ^ 8)) (shift_byte val i)
    ∙ join_word w (omega (arith, div-le_self val (2 ^ (8 * i))))

read_matrix_bytes :
    (val first i : ℕ) (m : List ℕ)
    → val < 2 ^ 64
    → ((j : ℕ) → j < i → get_or m (first + j) 0 ≡ byte_of val j)
    → read_matrix m first i (val / 2 ^ (8 * i)) ≡ val
unfolding read_matrix
read_matrix_bytes val first zero m h b = omega arith
read_matrix_bytes val first (suc i) m h b =
    ap (read_matrix m first i) (
      ap₂ (λ (x y : ℕ). bit_or (x * 2 ^ 8 % 2 ^ 64) y) (ap (λ k. val / 2 ^ k) (omega arith))
        (b i (omega arith))
      ∙ join_byte val i h)
    ∙ read_matrix_bytes val first i m h (λ j lt. b j (omega arith))

word : (size : ℕ) → size ≤ 8 → 2 ^ (8 * size) ≤ 2 ^ 64
word size h = let fits : 8 * size ≤ 64 = omega arith in pow-le-pow_right (omega arith) fits

read_above :
    (addr size : ℕ) (t : Io)
    → matrix_offset ≤ addr
    → read addr size t ≡ read_matrix t.matrix (addr - matrix_offset) size 0
unfolding read
read_above addr size t h = ground arith

write_above :
    (addr val size : ℕ) (s : Io)
    → matrix_offset ≤ addr
    → (write addr val size s).matrix ≡ write_matrix val (addr - matrix_offset) 0 size s.matrix
unfolding write
write_above addr val size s h =
    let rows = write_matrix val (addr - matrix_offset) 0 size s.matrix in
    if_cases (λ (t : Io). t.matrix ≡ rows) (leb matrix_offset addr)
      (λ _. (draw_panel-Frame (record s { matrix = rows })).matrix_same) λ e. absurd (ground arith)

-- What is written to the matrix reads back at the same width: 1, 2, 4 or 8 bytes at any offset that
-- lets them fit.
pub read-write_matrix :
    (addr val size : ℕ) (s : Io)
    → matrix_offset ≤ addr
    → addr + size ≤ matrix_offset + length s.matrix
    → size ≤ 8
    → val < 2 ^ (8 * size)
    → read addr size (write addr val size s) ≡ val
read-write_matrix addr val size s lo hi w small =
    let first = addr - matrix_offset in
    read_above addr size (write addr val size s) lo
    ∙ ap (λ rows. read_matrix rows first size 0) (write_above addr val size s lo)
    ∙ ap (read_matrix (write_matrix val first 0 size s.matrix) first size)
        (sym (div-eq_of_lt small))
    ∙ read_matrix_bytes val first size (write_matrix val first 0 size s.matrix)
        (omega (arith, word size w))
        λ j lt.
          write_matrix_at val first 0 size j s.matrix (omega arith) (omega arith) (omega arith)
