-- ===== src/Seeking/Circle.antt =====
-- examples/12_seeking/fops.c: reads and seeks against the table as a circle of 16 entries.
use linux_device_driver.Prelude.{
  ℕ, ◌+◌, ◌-◌, ◌%◌, ◌^◌, ◌≡◌, ◌≤◌, ◌<◌, ◌⊎◌, inl, inr, refl, ◌∙◌, ap, Bool, not, List, [], ltb,
  ltb→lt, if_cases, drop, slice, length, get_elem?, min, arith, length-slice, true, false,
}
use linux_device_driver.Prelude.Access.{get_elem?-take, get_elem?-drop}
use linux_device_driver.Seeking.Device.{
  Off, pos, negsuc, add_off, to_s64, Whence, seek_set, seek_cur, seek_end, other, Ret, done, einval,
  hex_dict_len, read_at, read, erestartsys, efault, new_pos, settle, llseek,
}

-- The first `k` entries of the circle from `n` on.
abbrev pub InTurn : List ℕ → ℕ → ℕ → List ℕ → Type 0
InTurn buff n k out =
    (length out ≡ k) × ((j : ℕ) → j < k → get_elem? out j ≡ get_elem? buff ((n + j) % hex_dict_len))

-- What a read returns, by the lock and by what the memory of the caller takes, of `m` entries: up to the
-- last one of the circle. A failed read leaves the position.
abbrev pub Turns : List ℕ → Bool → ℕ → ℕ → ℕ → ℕ → Ret × List ℕ × Off → Type 0
Turns buff locked able count n m (done k, out, at) =
    (locked ≡ true)
    × (m ≤ able)
    × (k ≡ m)
    × (0 < count → 0 < k)
    × InTurn buff n k out
    × (at ≡ pos ((n + k) % hex_dict_len))
Turns buff locked able count n m (efault, out, at) =
    (locked ≡ true) × (able < m) × InTurn buff n able out × (at ≡ pos n)
Turns buff locked able count n m (erestartsys, out, at) =
    (locked ≡ false) × (out ≡ []) × (at ≡ pos n)
Turns buff locked able count n m (einval, out, at) = ⊥

slice-InTurn :
    (buff : List ℕ) (n k : ℕ)
    → length buff ≡ hex_dict_len
    → n % hex_dict_len + k ≤ hex_dict_len
    → InTurn buff n k (slice (n % hex_dict_len) k buff)
slice-InTurn buff n k size h =
    let at = n % hex_dict_len in
    (
      omega (arith, length-slice at k buff, size),
      λ j lt.
          let turn : at + j ≡ (n + j) % hex_dict_len = omega arith in
          get_elem?-take k (drop at buff) j lt
          ∙ get_elem?-drop buff at j (at + j) refl
          ∙ ap (get_elem? buff) turn,
    )

-- Of a table of 16 entries a read at a position that is not negative takes the circle in turn from there, at least one entry if
-- one is asked for, and never behind the table. It succeeds exactly when it has the lock and the memory
-- of the caller takes all of the entries; without the lock nothing is read, and on a fault the entries
-- that fit were read and the position stays. A negative position is refused.
pub read-Turns :
    (buff : List ℕ) (locked : Bool) (able count n : ℕ)
    → length buff ≡ hex_dict_len
    → Turns buff locked able count n
        (min count (hex_dict_len - n % hex_dict_len))
        (read buff locked able count (pos n))
      × (read buff locked able count (negsuc n) ≡ (einval, [], negsuc n))
unfolding read read_at
read-Turns buff locked able count n size =
    let at = n % hex_dict_len in
    let k = min count (hex_dict_len - at) in
    let P = Turns buff locked able count n k in
    (
      if_cases P (not locked) (λ u. (ground arith, refl, refl))
          λ l.
            if_cases P (ltb able k)
              (λ f.
                (ground arith, ground arith, slice-InTurn buff n able size (ground arith), refl))
              λ f.
                let on : (at + k) % hex_dict_len ≡ (n + k) % hex_dict_len = omega arith in
                (
                  ground arith,
                  ground arith,
                  refl,
                  λ h. omega arith,
                  slice-InTurn buff n k size (omega arith),
                  ap pos on,
                ),
      refl,
    )

-- Where a seek counts from.
abbrev pub base : Whence → ℕ → ℕ
base seek_cur f_pos = f_pos
base seek_end f_pos = hex_dict_len
base _ f_pos = 0

abbrev pub Lands : ℕ → Off → ℕ → Type 0
Lands from (pos b) r = (from + b < 2 ^ 63) × (r ≡ (from + b) % hex_dict_len)
Lands from (negsuc b) r = (b < from) × (r ≡ (from - (b + 1)) % hex_dict_len)

abbrev pub Misses : ℕ → Off → Type 0
Misses from (pos b) = 2 ^ 63 ≤ from + b
Misses from (negsuc b) = from ≤ b

-- What a seek returns: the entry of the circle where the sum lands, which is the new position, or a
-- refusal of a sum that is no position, which leaves the position alone.
abbrev pub Seeks : ℕ → Off → Whence → Ret × ℕ → Type 0
Seeks f_pos off whence (done r, p) = (p ≡ r) × (r < hex_dict_len) × Lands (base whence f_pos) off r
Seeks f_pos off whence (einval, p) =
    (p ≡ f_pos) × ((whence ≡ other) ⊎ Misses (base whence f_pos) off)
Seeks f_pos off whence (_, p) = ⊥

abbrev pub IsOff : Off → Type 0
IsOff (pos b) = b < 2 ^ 63
IsOff (negsuc b) = b < 2 ^ 63

sum-Seeks :
    (f_pos : ℕ) (off : Off) (whence : Whence)
    → base whence f_pos < 2 ^ 63
    → Seeks f_pos off whence (settle f_pos (to_s64 (add_off (base whence f_pos) off)))
unfolding settle to_s64 add_off
sum-Seeks f_pos (pos b) whence h =
    let from = base whence f_pos in
    if_cases (λ o. Seeks f_pos (pos b) whence (settle f_pos o)) (ltb (from + b) (2 ^ 63))
      (λ t. (refl, omega arith, (ltb→lt (from + b) (2 ^ 63) t, refl)))
      λ t. (refl, inr (ground arith))
sum-Seeks f_pos (negsuc b) whence h =
    let from = base whence f_pos in
    let P : Off → Type 0 = λ o. Seeks f_pos (negsuc b) whence (settle f_pos (to_s64 o)) in
    if_cases P (ltb b from)
      (λ t.
        if_cases (λ o. Seeks f_pos (negsuc b) whence (settle f_pos o))
          (ltb (from - (b + 1)) (2 ^ 63)) (λ _. (refl, omega arith, (ltb→lt b from t, refl)))
          λ u. absurd (ground arith))
      λ t. (refl, inr (ground arith))

set-Seeks : (f_pos : ℕ) (off : Off) → IsOff off → Seeks f_pos off seek_set (settle f_pos off)
unfolding settle
set-Seeks f_pos (pos b) w = (refl, omega arith, (omega arith, omega arith))
set-Seeks f_pos (negsuc b) w = (refl, inr (omega arith))

-- A seek by any 64-bit offset either lands on the sum of its base and the offset, taken around the
-- circle, and returns the new position, which is an entry of it; or, where the sum is negative or
-- does not fit, or the base is unknown, it is refused and leaves the position alone.
pub llseek-Seeks :
    (f_pos : ℕ) (off : Off) (whence : Whence)
    → f_pos < hex_dict_len
    → IsOff off
    → Seeks f_pos off whence (llseek f_pos off whence)
unfolding llseek new_pos settle
llseek-Seeks f_pos off seek_set h w = set-Seeks f_pos off w
llseek-Seeks f_pos off seek_cur h w = sum-Seeks f_pos off seek_cur (omega arith)
llseek-Seeks f_pos off seek_end h w = sum-Seeks f_pos off seek_end (omega arith)
llseek-Seeks f_pos off other h w = (refl, inl refl)
