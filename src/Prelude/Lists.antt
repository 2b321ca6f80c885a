-- ===== src/Prelude/Lists.antt =====
-- C arrays as lists measured and indexed by native numbers, under the library's names.
use Prim.Native.Nat.{ℕ, zero, suc, ◌+◌, ◌-◌, ◌≤◌, min}
use mathlib.Core.Path.{◌≡◌, refl, ap}
use mathlib.Core.Logic.{◌⊎◌, inl, inr}
use mathlib.Core.List.{List, [], ◌∷◌, ◌++◌, map}
use mathlib.Core.Option.{Option, none, some}
use native.Mathlib.Omega.{arith}

module _ {ℓ} {A : Type ℓ} where
  abbrev pub length : List A → ℕ
  length [] = 0
  length (x ∷ xs) = suc (length xs)

  abbrev pub get_elem? : List A → ℕ → Option A
  get_elem? [] i = none
  get_elem? (x ∷ xs) zero = some x
  get_elem? (x ∷ xs) (suc i) = get_elem? xs i

  abbrev pub get_or : List A → ℕ → A → A
  get_or [] i d = d
  get_or (x ∷ xs) zero d = x
  get_or (x ∷ xs) (suc i) d = get_or xs i d

  -- A write out of bounds changes nothing.
  abbrev pub set : List A → ℕ → A → List A
  set [] i v = []
  set (x ∷ xs) zero v = v ∷ xs
  set (x ∷ xs) (suc i) v = x ∷ set xs i v

  abbrev pub take : ℕ → List A → List A
  take zero xs = []
  take (suc n) [] = []
  take (suc n) (x ∷ xs) = x ∷ take n xs

  abbrev pub drop : ℕ → List A → List A
  drop zero xs = xs
  drop (suc n) [] = []
  drop (suc n) (x ∷ xs) = drop n xs

  abbrev pub replicate : ℕ → A → List A
  replicate zero a = []
  replicate (suc n) a = a ∷ replicate n a

  -- `memcpy(xs + i, ys, length ys)`: what falls past the end of `xs` is not written.
  abbrev pub blit : List A → ℕ → List A → List A
  blit [] i ys = []
  blit (x ∷ xs) zero [] = x ∷ xs
  blit (x ∷ xs) zero (y ∷ ys) = y ∷ blit xs zero ys
  blit (x ∷ xs) (suc i) ys = x ∷ blit xs i ys

  -- the `n` elements from index `i` on, as many as there are
  abbrev pub slice : ℕ → ℕ → List A → List A
  slice i n xs = take n (drop i xs)

module _ {ℓ} {A : Type ℓ} where
  pub length-append : (xs ys : List A) → length (xs ++ ys) ≡ length xs + length ys
  length-append [] ys = omega arith
  length-append (x ∷ xs) ys = omega (arith, length-append xs ys)

  pub length-set : (xs : List A) (i : ℕ) (v : A) → length (set xs i v) ≡ length xs
  length-set [] i v = refl
  length-set (x ∷ xs) zero v = refl
  length-set (x ∷ xs) (suc i) v = ap suc (length-set xs i v)

  pub length-take : (n : ℕ) (xs : List A) → length (take n xs) ≡ min n (length xs)
  length-take zero xs = omega arith
  length-take (suc n) [] = omega arith
  length-take (suc n) (x ∷ xs) = omega (arith, length-take n xs)

  pub length-drop : (n : ℕ) (xs : List A) → length (drop n xs) ≡ length xs - n
  length-drop zero xs = omega arith
  length-drop (suc n) [] = omega arith
  length-drop (suc n) (x ∷ xs) = omega (arith, length-drop n xs)

  pub length-slice : (i n : ℕ) (xs : List A) → length (slice i n xs) ≡ min n (length xs - i)
  length-slice i n xs = omega (arith, length-take n (drop i xs), length-drop i xs)

  pub length-replicate : (n : ℕ) (a : A) → length (replicate n a) ≡ n
  length-replicate zero a = refl
  length-replicate (suc n) a = ap suc (length-replicate n a)

  pub length-map {κ} : {B : Type κ} (xs : List A) (f : A → B) → length (map f xs) ≡ length xs
  length-map [] f = refl
  length-map (x ∷ xs) f = ap suc (length-map xs f)

  pub length-blit : (xs : List A) (i : ℕ) (ys : List A) → length (blit xs i ys) ≡ length xs
  length-blit [] i ys = refl
  length-blit (x ∷ xs) zero [] = refl
  length-blit (x ∷ xs) zero (y ∷ ys) = ap suc (length-blit xs zero ys)
  length-blit (x ∷ xs) (suc i) ys = ap suc (length-blit xs i ys)

  pub take-zero : (xs : List A) → take 0 xs ≡ []
  take-zero xs = refl

  pub take-all : (n : ℕ) (xs : List A) → length xs ≤ n → take n xs ≡ xs
  take-all zero [] h = refl
  take-all zero (x ∷ xs) h = absurd (omega arith)
  take-all (suc n) [] h = refl
  take-all (suc n) (x ∷ xs) h = ap (◌∷◌ x) (take-all n xs (omega arith))

  pub take-append-drop : (n : ℕ) (xs : List A) → take n xs ++ drop n xs ≡ xs
  take-append-drop zero xs = refl
  take-append-drop (suc n) [] = refl
  take-append-drop (suc n) (x ∷ xs) = ap (◌∷◌ x) (take-append-drop n xs)

  pub drop-nil : (n : ℕ) → drop {A = A} n [] ≡ []
  drop-nil zero = refl
  drop-nil (suc n) = refl

  pub take-nil : (n : ℕ) → take {A = A} n [] ≡ []
  take-nil zero = refl
  take-nil (suc n) = refl

  -- What was copied in is read back, where it fits.
  pub slice-blit_self :
      (xs : List A) (i : ℕ) (ys : List A)
      → i + length ys ≤ length xs
      → slice i (length ys) (blit xs i ys) ≡ ys
  slice-blit_self [] i [] h = ap (take 0) (drop-nil i)
  slice-blit_self [] i (y ∷ ys) h = absurd (omega arith)
  slice-blit_self (x ∷ xs) zero [] h = refl
  slice-blit_self (x ∷ xs) zero (y ∷ ys) h = ap (◌∷◌ y) (slice-blit_self xs zero ys (omega arith))
  slice-blit_self (x ∷ xs) (suc i) ys h = slice-blit_self xs i ys (omega arith)

  -- The copy leaves what stands before it and what stands behind it.
  pub take-blit : (xs : List A) (i : ℕ) (ys : List A) → take i (blit xs i ys) ≡ take i xs
  take-blit [] i ys = refl
  take-blit (x ∷ xs) zero ys = refl
  take-blit (x ∷ xs) (suc i) ys = ap (◌∷◌ x) (take-blit xs i ys)

  pub get_elem?-blit_out :
      (xs : List A) (i : ℕ) (ys : List A) (j : ℕ)
      → (j + 1 ≤ i) ⊎ (i + length ys ≤ j)
      → get_elem? (blit xs i ys) j ≡ get_elem? xs j
  get_elem?-blit_out [] i ys j h = refl
  get_elem?-blit_out (x ∷ xs) zero [] j h = refl
  get_elem?-blit_out (x ∷ xs) zero (y ∷ ys) zero h = absurd (omega arith)
  get_elem?-blit_out (x ∷ xs) zero (y ∷ ys) (suc j) h =
      get_elem?-blit_out xs zero ys j (inr (omega arith))
  get_elem?-blit_out (x ∷ xs) (suc i) ys zero h = refl
  get_elem?-blit_out (x ∷ xs) (suc i) ys (suc j) h = get_elem?-blit_out xs i ys j (omega arith)

  -- Two adjacent copies are one.
  pub get_elem?-blit_in :
      (xs : List A) (i : ℕ) (ys : List A) (j k : ℕ)
      → i + j ≡ k
      → j + 1 ≤ length ys
      → i + length ys ≤ length xs
      → get_elem? (blit xs i ys) k ≡ get_elem? ys j
  get_elem?-blit_in xs i [] j k e h r = absurd (omega arith)
  get_elem?-blit_in [] i (y ∷ ys) j k e h r = absurd (omega arith)
  get_elem?-blit_in (x ∷ xs) zero (y ∷ ys) zero zero e h r = refl
  get_elem?-blit_in (x ∷ xs) zero (y ∷ ys) zero (suc k) e h r = absurd (omega arith)
  get_elem?-blit_in (x ∷ xs) zero (y ∷ ys) (suc j) zero e h r = absurd (omega arith)
  get_elem?-blit_in (x ∷ xs) zero (y ∷ ys) (suc j) (suc k) e h r =
      get_elem?-blit_in xs zero ys j k (omega arith) (omega arith) (omega arith)
  get_elem?-blit_in (x ∷ xs) (suc i) (y ∷ ys) j zero e h r = absurd (omega arith)
  get_elem?-blit_in (x ∷ xs) (suc i) (y ∷ ys) j (suc k) e h r =
      get_elem?-blit_in xs i (y ∷ ys) j k (omega arith) h (omega arith)

  pub blit-blit :
      (xs : List A) (i j : ℕ) (ys zs : List A)
      → j ≡ i + length ys
      → blit (blit xs i ys) j zs ≡ blit xs i (ys ++ zs)
  blit-blit [] i j ys zs e = refl
  blit-blit (x ∷ xs) zero zero [] zs e = refl
  blit-blit (x ∷ xs) zero (suc j) [] zs e = absurd (omega arith)
  blit-blit (x ∷ xs) zero zero (y ∷ ys) zs e = absurd (omega arith)
  blit-blit (x ∷ xs) zero (suc j) (y ∷ ys) zs e =
      ap (◌∷◌ y) (blit-blit xs zero j ys zs (omega arith))
  blit-blit (x ∷ xs) (suc i) zero ys zs e = absurd (omega arith)
  blit-blit (x ∷ xs) (suc i) (suc j) ys zs e = ap (◌∷◌ x) (blit-blit xs i j ys zs (omega arith))

  pub blit-nil : (xs : List A) (i : ℕ) → blit xs i [] ≡ xs
  blit-nil [] i = refl
  blit-nil (x ∷ xs) zero = refl
  blit-nil (x ∷ xs) (suc i) = ap (◌∷◌ x) (blit-nil xs i)

  take-blit_before :
      (xs : List A) (i n : ℕ) (ys : List A) → n ≤ i → take n (blit xs i ys) ≡ take n xs
  take-blit_before xs i zero ys h = refl
  take-blit_before [] i (suc n) ys h = refl
  take-blit_before (x ∷ xs) zero (suc n) ys h = absurd (omega arith)
  take-blit_before (x ∷ xs) (suc i) (suc n) ys h =
      ap (◌∷◌ x) (take-blit_before xs i n ys (omega arith))

  drop-blit_behind :
      (xs : List A) (i j : ℕ) (ys : List A) → i + length ys ≤ j → drop j (blit xs i ys) ≡ drop j xs
  drop-blit_behind [] i j ys h = refl
  drop-blit_behind (x ∷ xs) zero j [] h = refl
  drop-blit_behind (x ∷ xs) zero zero (y ∷ ys) h = absurd (omega arith)
  drop-blit_behind (x ∷ xs) zero (suc j) (y ∷ ys) h = drop-blit_behind xs zero j ys (omega arith)
  drop-blit_behind (x ∷ xs) (suc i) zero ys h = absurd (omega arith)
  drop-blit_behind (x ∷ xs) (suc i) (suc j) ys h = drop-blit_behind xs i j ys (omega arith)

  -- A copy leaves every range that it does not meet.
  pub slice-blit_apart :
      (xs : List A) (i : ℕ) (ys : List A) (j n : ℕ)
      → (i + length ys ≤ j) ⊎ (j + n ≤ i)
      → slice j n (blit xs i ys) ≡ slice j n xs
  slice-blit_apart xs i ys j n (inl h) = ap (take n) (drop-blit_behind xs i j ys h)
  slice-blit_apart xs i ys zero n (inr h) = take-blit_before xs i n ys (omega arith)
  slice-blit_apart [] i ys (suc j) n (inr h) = refl
  slice-blit_apart (x ∷ xs) zero ys (suc j) n (inr h) = absurd (omega arith)
  slice-blit_apart (x ∷ xs) (suc i) ys (suc j) n (inr h) =
      slice-blit_apart xs i ys j n (inr (omega arith))

  -- Adjacent ranges make up one.
  pub slice-append-slice :
      (xs : List A) (i m n j : ℕ)
      → j ≡ i + m
      → i + m ≤ length xs
      → slice i m xs ++ slice j n xs ≡ slice i (m + n) xs
  slice-append-slice xs zero zero n j e h =
      let e' : j ≡ 0 = omega arith in let k : 0 + n ≡ n = omega arith in rw (e', k)
  slice-append-slice [] zero (suc m) n j e h = absurd (omega arith)
  slice-append-slice (x ∷ xs) zero (suc m) n zero e h = absurd (omega arith)
  slice-append-slice (x ∷ xs) zero (suc m) n (suc j) e h =
      let k : suc m + n ≡ suc (m + n) = omega arith in
      rw k (ap (◌∷◌ x) (slice-append-slice xs zero m n j (omega arith) (omega arith)))
  slice-append-slice [] (suc i) m n j e h = absurd (omega arith)
  slice-append-slice (x ∷ xs) (suc i) m n zero e h = absurd (omega arith)
  slice-append-slice (x ∷ xs) (suc i) m n (suc j) e h =
      slice-append-slice xs i m n j (omega arith) (omega arith)
