-- ===== src/Prelude/Bits.antt =====
-- C's `&`, `|`, `^` and `~` on words, and the test of one bit, with their laws.
use Prim.Native.Nat.{
  ℕ, zero, suc, ◌+◌, ◌-◌, ◌*◌, ◌/◌, ◌%◌, ◌^◌, ◌≤◌, ◌<◌, min, max, bit_and, bit_or, bit_xor, digits,
  bitwise, differ, bit_and-bitwise, bit_or-bitwise, bit_xor-bitwise,
}
use mathlib.Core.Path.{◌≡◌, refl, ◌∙◌, ap, sym}
use mathlib.Core.Bool.{Bool, true, false, not, ◌&&◌, ◌||◌}
use native.Mathlib.Omega.{arith}
use native.Mathlib.Nat.{pow-suc}
use linux_device_driver.Prelude.Tests.{◌==◌}

-- `(v & (1u << i)) != 0`
unfoldable pub test_bit : ℕ → ℕ → Bool
test_bit v zero = v % 2 == 1
test_bit v (suc i) = test_bit (v / 2) i

pub test_bit-zero : (i : ℕ) → test_bit 0 i ≡ false
unfolding test_bit
test_bit-zero zero = refl
test_bit-zero (suc i) = test_bit-zero i

-- `~v` in a word of `w` bits
unfoldable pub bit_not : ℕ → ℕ → ℕ
bit_not zero v = 0
bit_not (suc w) v = bit_not w (v / 2) * 2 + (1 - v % 2)

-- `bitwise` has fuel for the first number: one step more, or any number of them, changes nothing.
module _ (z : ℕ → ℕ) (f : ℕ → ℕ → ℕ) (lone : (b : ℕ) → z b ≡ z (b / 2) * 2 + f 0 (b % 2)) where
  once_more : (b n a : ℕ) → a ≤ n → digits z f n a b ≡ digits z f (suc n) a b
  once_more b n zero enough = at_zero n
    where
      at_zero : (k : ℕ) → digits z f k 0 b ≡ digits z f (suc k) 0 b
      at_zero zero = refl
      at_zero (suc k) = refl
  once_more b (suc k) (suc a) enough =
      let tail = once_more (b / 2) k (suc a / 2) (omega arith) in
      ap (λ t. t * 2 + f (suc a % 2) (b % 2)) tail
  once_more b zero (suc a) enough = absurd (omega arith)

  any_more : (extra n m a b : ℕ) → a ≤ n → extra + n ≡ m → digits z f n a b ≡ digits z f m a b
  any_more zero n m a b enough sum = ap (λ k. digits z f k a b) (omega arith)
  any_more (suc extra) n m a b enough sum =
      once_more b n a enough ∙ any_more extra (suc n) m a b (omega arith) (omega arith)

  bitwise_step : (a b : ℕ) → bitwise z f a b ≡ bitwise z f (a / 2) (b / 2) * 2 + f (a % 2) (b % 2)
  bitwise_step zero b = lone b
  bitwise_step (suc a) b =
      let half = suc a / 2 in
      let used = any_more (a - half) half a half (b / 2) (omega arith) (omega arith) in
      ap (λ t. t * 2 + f (suc a % 2) (b % 2)) (sym used)

pub bit_and_step : (a b : ℕ) → bit_and a b ≡ bit_and (a / 2) (b / 2) * 2 + min (a % 2) (b % 2)
bit_and_step a b = omega (
  arith,
  bit_and-bitwise a b,
  bit_and-bitwise (a / 2) (b / 2),
  bitwise_step (λ y. 0) min (λ y. omega arith) a b,
)

pub bit_or_step : (a b : ℕ) → bit_or a b ≡ bit_or (a / 2) (b / 2) * 2 + max (a % 2) (b % 2)
bit_or_step a b = omega (
  arith,
  bit_or-bitwise a b,
  bit_or-bitwise (a / 2) (b / 2),
  bitwise_step (λ b. b) max (λ b. omega arith) a b,
)

pub bit_xor_step : (a b : ℕ) → bit_xor a b ≡ bit_xor (a / 2) (b / 2) * 2 + differ (a % 2) (b % 2)
bit_xor_step a b =
    bit_xor-bitwise a b
    ∙ bitwise_step (λ b. b) differ (λ b. omega arith) a b
    ∙ ap (λ k. k * 2 + differ (a % 2) (b % 2)) (sym (bit_xor-bitwise (a / 2) (b / 2)))

-- The lowest digit of each operation, and the digits above it.
differ-mod : (a b : ℕ) → a < 2 → b < 2 → differ a b ≡ (a + b) % 2
differ-mod zero b p q = omega arith
differ-mod (suc zero) zero p q = refl
differ-mod (suc zero) (suc zero) p q = refl
differ-mod (suc zero) (suc (suc b)) p q = absurd (omega arith)
differ-mod (suc (suc a)) b p q = absurd (omega arith)

bit_and_parts :
    (a b : ℕ)
    → (bit_and a b % 2 ≡ min (a % 2) (b % 2)) × (bit_and a b / 2 ≡ bit_and (a / 2) (b / 2))
bit_and_parts a b = omega (arith, bit_and_step a b)

bit_or_parts :
    (a b : ℕ) → (bit_or a b % 2 ≡ max (a % 2) (b % 2)) × (bit_or a b / 2 ≡ bit_or (a / 2) (b / 2))
bit_or_parts a b = omega (arith, bit_or_step a b)

bit_xor_parts :
    (a b : ℕ)
    → (bit_xor a b % 2 ≡ (a % 2 + b % 2) % 2) × (bit_xor a b / 2 ≡ bit_xor (a / 2) (b / 2))
bit_xor_parts a b =
    omega (arith, bit_xor_step a b, differ-mod (a % 2) (b % 2) (omega arith) (omega arith))

bit_not_parts :
    (w v : ℕ) → (bit_not (suc w) v % 2 ≡ 1 - v % 2) × (bit_not (suc w) v / 2 ≡ bit_not w (v / 2))
unfolding bit_not
bit_not_parts w v = omega arith

pub test_bit-bit_and : (i a b : ℕ) → test_bit (bit_and a b) i ≡ (test_bit a i && test_bit b i)
unfolding test_bit
test_bit-bit_and zero a b = ground (arith, bit_and_parts a b)
test_bit-bit_and (suc i) a b = rw ((bit_and_parts a b).1) (test_bit-bit_and i (a / 2) (b / 2))

pub test_bit-bit_or : (i a b : ℕ) → test_bit (bit_or a b) i ≡ (test_bit a i || test_bit b i)
unfolding test_bit
test_bit-bit_or zero a b = ground (arith, bit_or_parts a b)
test_bit-bit_or (suc i) a b = rw ((bit_or_parts a b).1) (test_bit-bit_or i (a / 2) (b / 2))

abbrev pub differs : Bool → Bool → Bool
differs true b = not b
differs false b = b

pub test_bit-bit_xor :
    (i a b : ℕ) → test_bit (bit_xor a b) i ≡ differs (test_bit a i) (test_bit b i)
unfolding test_bit
test_bit-bit_xor zero a b = ground (arith, bit_xor_parts a b)
test_bit-bit_xor (suc i) a b = rw ((bit_xor_parts a b).1) (test_bit-bit_xor i (a / 2) (b / 2))

pub test_bit-bit_not : (w i v : ℕ) → i < w → test_bit (bit_not w v) i ≡ not (test_bit v i)
unfolding test_bit
test_bit-bit_not zero i v h = absurd (omega arith)
test_bit-bit_not (suc w) zero v h = ground (arith, bit_not_parts w v)
test_bit-bit_not (suc w) (suc i) v h =
    rw ((bit_not_parts w v).1) (test_bit-bit_not w i (v / 2) (omega arith))

-- Words with the same bits are equal.
pub bits_ext :
    (w a b : ℕ) → a < 2 ^ w → b < 2 ^ w → ((i : ℕ) → i < w → test_bit a i ≡ test_bit b i) → a ≡ b
unfolding test_bit
bits_ext zero a b p q h = omega arith
bits_ext (suc w) a b p q h = omega (
  arith,
  low,
  bits_ext w (a / 2) (b / 2) (omega (arith, pow-suc 2 w)) (omega (arith, pow-suc 2 w))
      (λ i lt. h (suc i) (omega arith)),
)
  where
    low : a % 2 ≡ b % 2
    low = ground (arith, h 0 (omega arith))

bit_and-le_fuel : (n a b : ℕ) → a ≤ n → bit_and a b ≤ a
bit_and-le_fuel n zero b h = omega (arith, bit_and-bitwise 0 b)
bit_and-le_fuel zero (suc a) b h = absurd (omega arith)
bit_and-le_fuel (suc n) (suc a) b h =
    omega (arith, bit_and_step (suc a) b, bit_and-le_fuel n (suc a / 2) (b / 2) (omega arith))

pub bit_and-le_left : (a b : ℕ) → bit_and a b ≤ a
bit_and-le_left a b = bit_and-le_fuel a a b (omega arith)

pub bit_or-lt : (w a b : ℕ) → a < 2 ^ w → b < 2 ^ w → bit_or a b < 2 ^ w
bit_or-lt zero a b p q =
    let p' : a ≡ 0 = omega arith in let q' : b ≡ 0 = omega arith in rw (p', q') (omega arith)
bit_or-lt (suc w) a b p q = omega (
  arith,
  pow-suc 2 w,
  bit_or_step a b,
  bit_or-lt w (a / 2) (b / 2) (omega (arith, pow-suc 2 w)) (omega (arith, pow-suc 2 w)),
)

bit_and-comm_fuel : (n a b : ℕ) → a ≤ n → b ≤ n → bit_and a b ≡ bit_and b a
bit_and-comm_fuel zero a b p q =
    let p' : a ≡ 0 = omega arith in let q' : b ≡ 0 = omega arith in rw (p', q')
bit_and-comm_fuel (suc n) a b p q = omega (
  arith,
  bit_and_step a b,
  bit_and_step b a,
  bit_and-comm_fuel n (a / 2) (b / 2) (omega arith) (omega arith),
)

pub bit_and_comm : (a b : ℕ) → bit_and a b ≡ bit_and b a
bit_and_comm a b = bit_and-comm_fuel (a + b) a b (omega arith) (omega arith)

pub bit_and-le_right : (a b : ℕ) → bit_and a b ≤ b
bit_and-le_right a b = omega (arith, bit_and_comm a b, bit_and-le_left b a)

-- Masks of ones keep the lowest bits.
pub bit_and-zero : (a : ℕ) → bit_and a 0 ≡ 0
bit_and-zero a = omega (arith, bit_and-le_right a 0)

pub bit_and-one : (a : ℕ) → bit_and a 1 ≡ a % 2
bit_and-one a = omega (arith, bit_and_step a 1, bit_and-zero (a / 2))

pub bit_and_three : (a : ℕ) → bit_and a 3 ≡ a % 4
bit_and_three a = omega (arith, bit_and_step a 3, bit_and-one (a / 2))

pub bit_and_seven : (a : ℕ) → bit_and a 7 ≡ a % 8
bit_and_seven a = omega (arith, bit_and_step a 7, bit_and_three (a / 2))

bit_and_63 : (a : ℕ) → bit_and a 63 ≡ a % 64
bit_and_63 a = omega (
  arith,
  bit_and_step a 63,
  bit_and_step (a / 2) 31,
  bit_and_step (a / 2 / 2) 15,
  bit_and_seven (a / 2 / 2 / 2),
)

pub bit_and_255 : (a : ℕ) → bit_and a 255 ≡ a % 256
bit_and_255 a = omega (arith, bit_and_step a 255, bit_and_step (a / 2) 127, bit_and_63 (a / 2 / 2))

pub bit_not-lt : (w v : ℕ) → bit_not w v < 2 ^ w
unfolding bit_not
bit_not-lt zero v = omega arith
bit_not-lt (suc w) v = omega (arith, pow-suc 2 w, bit_not-lt w (v / 2))

bit_or-zero_fuel : (n a : ℕ) → a ≤ n → bit_or a 0 ≡ a
bit_or-zero_fuel zero a h = let z : a ≡ 0 = omega arith in rw z
bit_or-zero_fuel (suc n) zero h = refl
bit_or-zero_fuel (suc n) (suc a) h =
    omega (arith, bit_or_step (suc a) 0, bit_or-zero_fuel n (suc a / 2) (omega arith))

-- A word shifted up, with a smaller one in its free bits.
pub bit_or_shifted : (k a b : ℕ) → b < 2 ^ k → bit_or (a * 2 ^ k) b ≡ a * 2 ^ k + b
bit_or_shifted zero a b h =
    let z : b ≡ 0 = omega arith in
    rw z (omega (arith, bit_or-zero_fuel (a * 1) (a * 1) (omega arith)))
bit_or_shifted (suc k) a b h = omega (
  arith,
  pow-suc 2 k,
  twice,
  ap (λ t. bit_or t (b / 2)) half,
  bit_or_step (a * 2 ^ suc k) b,
  bit_or_shifted k a (b / 2) (omega (arith, pow-suc 2 k)),
)
  where
    twice : a * 2 ^ suc k ≡ a * 2 ^ k * 2
    twice = ap (λ p. a * p) (pow-suc 2 k) ∙ omega arith

    half : a * 2 ^ suc k / 2 ≡ a * 2 ^ k
    half = omega (arith, twice)
