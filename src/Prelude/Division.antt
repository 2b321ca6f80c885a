-- ===== src/Prelude/Division.antt =====
-- Quotients and remainders of positions by a size that is not a numeral.
use Prim.Native.Nat.{ℕ, ◌+◌, ◌*◌, ◌/◌, ◌%◌, ◌<◌}
use mathlib.Core.Path.{◌≡◌, ◌∙◌, ap}
use native.Mathlib.Omega.{arith}
use native.Mathlib.Nat.{
  add-mul-div_right, div-eq_of_lt, mod-add-div', add-mul-mod_self_right, mod-eq_of_lt,
}

-- Positions of one block.
pub same_block :
    (size p j : ℕ)
    → 0 < size
    → p % size + j < size
    → ((p + j) / size ≡ p / size) × ((p + j) % size ≡ p % size + j)
same_block size p j pos h =
    let whole : p + j ≡ p % size + j + p / size * size = omega (arith, mod-add-div' p size) in
    (
      ap (λ n. n / size) whole
          ∙ add-mul-div_right (p % size + j) (p / size) pos
          ∙ omega (arith, div-eq_of_lt h),
      ap (λ n. n % size) whole
          ∙ add-mul-mod_self_right (p % size + j) (p / size) size
          ∙ mod-eq_of_lt h,
    )
