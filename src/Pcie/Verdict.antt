-- ===== src/Pcie/Verdict.antt =====
-- tools/qemu/hw/ldd/pcie.c: what the first loop of a transfer finds in the descriptors.
use linux_device_driver.Prelude.{
  ℕ, suc, ◌+◌, ◌*◌, ◌^◌, ◌%◌, ◌≤◌, ◌<◌, ◌≡◌, refl, true, false, some, List, [], ◌∷◌, arith,
  if_cases, length, get_elem?, take,
}
use linux_device_driver.Pcie.State.{Pcie}
use linux_device_driver.Pcie.Transfer.{Desc, Checked, bad, total, is_bad, check_descs}

unfoldable pub sum_len : List Desc → ℕ
sum_len [] = 0
sum_len (d ∷ ds) = d.len + sum_len ds

-- A descriptor as the specification wants it.
pub record IsGood (seg : ℕ) (d : Desc) : Type 0 where
  pub some_bytes : 0 < d.len
  pub within_seg : d.len ≤ seg
  pub no_flags : d.flags ≡ 0

abbrev pub AllGood : ℕ → List Desc → Type 0
AllGood seg [] = Unit {0}
AllGood seg (d ∷ ds) = IsGood seg d × AllGood seg ds

IsGood-of : (ps : Pcie) (d : Desc) → is_bad ps d ≡ false → IsGood ps.max_seg d
IsGood-of ps d h = ground arith

not-IsGood_of : (ps : Pcie) (d : Desc) → is_bad ps d ≡ true → ¬ IsGood ps.max_seg d
not-IsGood_of ps d h g = ground arith

sum_len-le :
    (ps : Pcie) (ds : List Desc) → AllGood ps.max_seg ds → sum_len ds ≤ length ds * ps.max_seg
unfolding sum_len
sum_len-le ps [] g = omega arith
sum_len-le ps (d ∷ ds) g = grind (arith, sum_len-le ps ds g.1)

-- What the first loop may answer: the sum of the lengths if every descriptor is good, or the index
-- of the first that is not.
abbrev pub Verdict : Pcie → ℕ → ℕ → List Desc → Checked → Type 0
Verdict ps i sum ds (total t) = AllGood ps.max_seg ds × (t ≡ sum + sum_len ds)
Verdict ps i sum ds (bad j) =
    (k : ℕ) × (d : Desc) × (j ≡ i + k)
    × AllGood ps.max_seg (take k ds)
    × (get_elem? ds k ≡ some d)
    × (¬ IsGood ps.max_seg d)

Verdict-cons :
    (ps : Pcie) (i sum : ℕ) (d : Desc) (ds : List Desc) (c : Checked)
    → IsGood ps.max_seg d
    → Verdict ps (i + 1) (sum + d.len) ds c
    → Verdict ps i sum (d ∷ ds) c
unfolding sum_len
Verdict-cons ps i sum d ds (total t) g (gs, e) = ((g, gs), omega arith)
Verdict-cons ps i sum d ds (bad j) g (k, x, e, gs, at, n) = (suc k, x, omega arith, (g, gs), at, n)

-- Short of a sum that wraps at 64 bits the first loop answers so.
pub check_descs-Verdict :
    (ps : Pcie) (i sum : ℕ) (ds : List Desc)
    → sum + length ds * ps.max_seg < 2 ^ 64
    → Verdict ps i sum ds (check_descs ps i sum ds)
unfolding check_descs sum_len
check_descs-Verdict ps i sum [] h = (tt, omega arith)
check_descs-Verdict ps i sum (d ∷ ds) h =
    if_cases (Verdict ps i sum (d ∷ ds)) (is_bad ps d)
      (λ b. (0, d, omega arith, tt, refl, not-IsGood_of ps d b))
      λ b.
        let g = IsGood-of ps d b in
        Verdict-cons ps i sum d ds _ g
          (rw (wrap g) (check_descs-Verdict ps (i + 1) (sum + d.len) ds (room g)))
  where
    room : IsGood ps.max_seg d → sum + d.len + length ds * ps.max_seg < 2 ^ 64
    room g = grind arith

    wrap : IsGood ps.max_seg d → (sum + d.len) % 2 ^ 64 ≡ sum + d.len
    wrap g = omega (arith, room g)
