-- ===== src/Prelude/Access.antt =====
-- Elements of a list by their index, after the operations on lists.
use Prim.Native.Nat.{ℕ, zero, suc, ◌+◌, ◌≤◌, ◌<◌}
use mathlib.Core.Path.{◌≡◌, refl, ap, ap₂}
use mathlib.Core.Logic.{◌≢◌}
use mathlib.Core.List.{List, [], ◌∷◌, ◌++◌}
use mathlib.Core.Option.{Option, none, some}
use native.Mathlib.Omega.{arith}
use linux_device_driver.Prelude.Lists.{length, get_elem?, set, take, drop}

module _ {A : Type 0} where
  pub get_elem?-set :
      (xs : List A) (i : ℕ) (v : A) → i < length xs → get_elem? (set xs i v) i ≡ some v
  get_elem?-set [] i v h = absurd (omega arith)
  get_elem?-set (x ∷ xs) zero v h = refl
  get_elem?-set (x ∷ xs) (suc i) v h = get_elem?-set xs i v (omega arith)

  pub get_elem?-set_other :
      (xs : List A) (i j : ℕ) (v : A) → j ≢ i → get_elem? (set xs i v) j ≡ get_elem? xs j
  get_elem?-set_other [] i j v h = refl
  get_elem?-set_other (x ∷ xs) zero zero v h = absurd (omega arith)
  get_elem?-set_other (x ∷ xs) zero (suc j) v h = refl
  get_elem?-set_other (x ∷ xs) (suc i) zero v h = refl
  get_elem?-set_other (x ∷ xs) (suc i) (suc j) v h = get_elem?-set_other xs i j v (omega arith)

  pub get_elem?-in : (xs : List A) (i : ℕ) → i < length xs → (x : A) × (get_elem? xs i ≡ some x)
  get_elem?-in [] i h = absurd (omega arith)
  get_elem?-in (x ∷ xs) zero h = (x, refl)
  get_elem?-in (x ∷ xs) (suc i) h = get_elem?-in xs i (omega arith)

  pub get_elem?-out : (xs : List A) (i : ℕ) → length xs ≤ i → get_elem? xs i ≡ none
  get_elem?-out [] i h = refl
  get_elem?-out (x ∷ xs) zero h = absurd (omega arith)
  get_elem?-out (x ∷ xs) (suc i) h = get_elem?-out xs i (omega arith)

pub get_elem?-take :
    {A : Type 0} (n : ℕ) (xs : List A) (j : ℕ) → j < n → get_elem? (take n xs) j ≡ get_elem? xs j
get_elem?-take zero xs j h = absurd (omega arith)
get_elem?-take (suc n) [] j h = refl
get_elem?-take (suc n) (x ∷ xs) zero h = refl
get_elem?-take (suc n) (x ∷ xs) (suc j) h = get_elem?-take n xs j (omega arith)

pub get_elem?-drop :
    {A : Type 0} (xs : List A) (i j k : ℕ) → i + j ≡ k → get_elem? (drop i xs) j ≡ get_elem? xs k
get_elem?-drop xs zero j k e = let same : j ≡ k = omega arith in ap (get_elem? xs) same
get_elem?-drop [] (suc i) j k e = refl
get_elem?-drop (x ∷ xs) (suc i) j zero e = absurd (omega arith)
get_elem?-drop (x ∷ xs) (suc i) j (suc k) e = get_elem?-drop xs i j k (omega arith)

pub drop-drop : {A : Type 0} (n m k : ℕ) (xs : List A) → n + m ≡ k → drop m (drop n xs) ≡ drop k xs
drop-drop zero m k xs e = let same : m ≡ k = omega arith in ap (λ i. drop i xs) same
drop-drop (suc n) m zero xs e = absurd (omega arith)
drop-drop (suc n) zero (suc k) [] e = refl
drop-drop (suc n) (suc m) (suc k) [] e = refl
drop-drop (suc n) m (suc k) (x ∷ xs) e = drop-drop n m k xs (omega arith)

pub drop-all : {A : Type 0} (n : ℕ) (xs : List A) → length xs ≤ n → drop n xs ≡ []
drop-all zero [] h = refl
drop-all zero (x ∷ xs) h = absurd (omega arith)
drop-all (suc n) [] h = refl
drop-all (suc n) (x ∷ xs) h = drop-all n xs (omega arith)

-- A list that another begins with, and what is left of that one.
abbrev out_of : ℕ → Option ℕ → ℕ
out_of d none = d
out_of d (some x) = x

pub append-drop :
    (xs ys : List ℕ)
    → ((j : ℕ) → j < length xs → get_elem? xs j ≡ get_elem? ys j)
    → xs ++ drop (length xs) ys ≡ ys
append-drop [] ys h = refl
append-drop (x ∷ xs) [] h = let e = h 0 (omega arith) in absurd (cc)
append-drop (x ∷ xs) (y ∷ ys) h =
    ap₂ (λ (a : ℕ) (rest : List ℕ). a ∷ rest) (ap (out_of x) (h 0 (omega arith)))
      (append-drop xs ys (λ j lt. h (suc j) (omega arith)))
