-- ===== src/Netdev/Threads.antt =====
-- examples/30_netdev/main.c: what the threads still have to do, added up.
use linux_device_driver.Prelude.{
  ℕ, zero, suc, ◌+◌, ◌≡◌, ap, Option, none, some, List, [], ◌∷◌, ◌++◌, get_elem?, set, arith,
}
use linux_device_driver.Netdev.Device.{Task}

abbrev pub sum : (Task → ℕ) → List Task → ℕ
sum f [] = 0
sum f (t ∷ ts) = f t + sum f ts

abbrev pub sum_all : (Task → ℕ) → List (List Task) → ℕ
sum_all f [] = 0
sum_all f (ts ∷ tss) = sum f ts + sum_all f tss

pub sum-append : (f : Task → ℕ) (ts us : List Task) → sum f (ts ++ us) ≡ sum f ts + sum f us
sum-append f [] us = omega arith
sum-append f (t ∷ ts) us = omega (arith, sum-append f ts us)

-- A thread that has other things to do than before.
pub sum_all-set :
    (f : Task → ℕ) (tss : List (List Task)) (i : ℕ) (old new : List Task)
    → get_elem? tss i ≡ some old
    → sum_all f (set tss i new) + sum f old ≡ sum_all f tss + sum f new
sum_all-set f [] i old new e = absurd (cc)
sum_all-set f (ts ∷ tss) zero old new e =
    let same : sum f ts ≡ sum f old = ap (some_sum f) e in omega arith
  where
    some_sum : (Task → ℕ) → Option (List Task) → ℕ
    some_sum f none = 0
    some_sum f (some us) = sum f us
sum_all-set f (ts ∷ tss) (suc i) old new e = omega (arith, sum_all-set f tss i old new e)

-- A thread that goes on: its next task is done, and others have come before the rest.
pub sum_all-next :
    (f : Task → ℕ) (tss : List (List Task)) (i : ℕ) (t : Task) (ts us : List Task)
    → get_elem? tss i ≡ some (t ∷ ts)
    → sum_all f (set tss i (us ++ ts)) + f t ≡ sum_all f tss + sum f us
sum_all-next f tss i t ts us e =
    omega (arith, sum_all-set f tss i (t ∷ ts) (us ++ ts) e, sum-append f us ts)

-- A thread that had nothing to do, and takes a call.
pub sum_all-call :
    (f : Task → ℕ) (tss : List (List Task)) (i : ℕ) (us : List Task)
    → get_elem? tss i ≡ some []
    → sum_all f (set tss i (us ++ [])) ≡ sum_all f tss + sum f us
sum_all-call f tss i us e = omega (arith, sum_all-set f tss i [] (us ++ []) e, sum-append f us [])
