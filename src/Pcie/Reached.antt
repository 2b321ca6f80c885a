-- ===== src/Pcie/Reached.antt =====
-- tools/qemu/hw/ldd/pcie.c: which segments the second loop of a transfer reaches, and where it stops.
use linux_device_driver.Prelude.{
  ℕ, suc, ◌+◌, ◌^◌, ◌%◌, ◌≤◌, ◌≡◌, ◌⊎◌, if◌then◌else◌, refl, subst, Bool, true, false, not, some,
  List, [], ◌∷◌, arith, if_cases, inl, inr, get_elem?, take, slice,
}
use linux_device_driver.Pcie.State.{Pcie, Bus}
use linux_device_driver.Pcie.Transfer.{
  Desc, dma_ok, to_guest, payload, move_segment, count_bytes, copy_descs, blame,
}

-- A device with 64 address bits, or not, reaches the `len` bytes from `addr` on: with 32 of them the
-- end, as a number of 64 bits, is to be at or below 4 GiB.
abbrev pub Reaches : Bool → ℕ → ℕ → Type 0
Reaches dma64 addr len = (dma64 ≡ true) ⊎ ((addr + len) % 2 ^ 64 ≤ 2 ^ 32)

abbrev pub AllReach : Bool → List Desc → Type 0
AllReach dma64 [] = Unit {0}
AllReach dma64 (d ∷ ds) = Reaches dma64 d.addr d.len × AllReach dma64 ds

pub dma_ok-Reaches :
    (ps : Pcie) (addr len : ℕ) → dma_ok ps addr len ≡ true → Reaches ps.dma64 addr len
unfolding dma_ok
dma_ok-Reaches ps addr len h = ground arith

pub not-Reaches :
    (ps : Pcie) (addr len : ℕ) → dma_ok ps addr len ≡ false → ¬ Reaches ps.dma64 addr len
unfolding dma_ok
not-Reaches ps addr len h (inl e) = ground arith
not-Reaches ps addr len h (inr e) = ground arith

module _ {Ram : Type 0} (bus : Bus Ram) where
  -- The bus refuses a segment, in the direction of the transfer.
  abbrev pub Fails : Bool → Desc → Type 0
  Fails out d =
      (ram : Ram) × (bytes : List ℕ) × ((out ≡ true) × ((bus.dma_write ram d.addr bytes).0 ≡ false)
        ⊎ (out ≡ false) × ((bus.dma_read ram d.addr bytes).0 ≡ false))

  -- How the second loop ends, from segment `i` on: it has reached every segment and reports success, or
  -- it stops at the first that it cannot reach or that the bus refuses, and blames it.
  abbrev pub Copied : Bool → Bool → ℕ → List Desc → ℕ × Pcie × Ram → Type 0
  Copied out dma64 i ds t =
      (t.0 ≡ 0) × AllReach dma64 ds
      ⊎ (k : ℕ) × (d : Desc) × (t.0 ≡ 5)
        × (t.1.regs.err_desc ≡ i + k)
        × AllReach dma64 (take k ds)
        × (get_elem? ds k ≡ some d)
        × ((¬ Reaches dma64 d.addr d.len) ⊎ Fails out d)

  abbrev Moved : Bool → Bool → Desc → Bool × Pcie × Ram → Type 0
  Moved out dma64 d (true, ps, ram) =
      Reaches dma64 d.addr d.len × (to_guest ps ≡ out) × (ps.dma64 ≡ dma64)
  Moved out dma64 d (false, ps, ram) = (¬ Reaches dma64 d.addr d.len) ⊎ Fails out d

  write_out-Moved :
      (ok : Bool) (ps : Pcie) (ram ram' : Ram) (bytes : List ℕ) (d : Desc)
      → (bus.dma_write ram d.addr bytes).0 ≡ ok
      → to_guest ps ≡ true
      → Reaches ps.dma64 d.addr d.len
      → Moved (to_guest ps) ps.dma64 d (ok, ps, ram')
  write_out-Moved true ps ram ram' bytes d e g r = (r, refl, refl)
  write_out-Moved false ps ram ram' bytes d e g r = inr (ram, bytes, inl (g, e))

  read_in-Moved :
      (ok : Bool) (ps : Pcie) (ram : Ram) (bytes mem : List ℕ) (d : Desc)
      → (bus.dma_read ram d.addr bytes).0 ≡ ok
      → to_guest ps ≡ false
      → Reaches ps.dma64 d.addr d.len
      → Moved (to_guest ps) ps.dma64 d (ok, record ps { mem = mem }, ram)
  read_in-Moved true ps ram bytes mem d e g r = (r, refl, refl)
  read_in-Moved false ps ram bytes mem d e g r = inr (ram, bytes, inr (g, e))

  move_segment-Moved :
      (ps : Pcie) (ram : Ram) (off : ℕ) (d : Desc)
      → Moved (to_guest ps) ps.dma64 d (move_segment bus ps ram off d)
  unfolding move_segment
  move_segment-Moved ps ram off d =
      let P = Moved (to_guest ps) ps.dma64 d in
      if_cases P (not (dma_ok ps d.addr d.len))
        (λ u. inl (not-Reaches ps d.addr d.len (ground arith)))
        λ u.
          let r = dma_ok-Reaches ps d.addr d.len (ground arith) in
          if_cases P (to_guest ps)
            (λ g. write_out-Moved _ ps ram _ (payload ps off d.len) d refl g r)
            (λ g. read_in-Moved _ ps ram (slice off d.len ps.mem) _ d refl g r)

  Copied-cons :
      (out dma64 : Bool) (i : ℕ) (d : Desc) (ds : List Desc) (t : ℕ × Pcie × Ram)
      → Reaches dma64 d.addr d.len
      → Copied out dma64 (i + 1) ds t
      → Copied out dma64 i (d ∷ ds) t
  Copied-cons out dma64 i d ds t r (inl (z, rs)) = inl (z, (r, rs))
  Copied-cons out dma64 i d ds t r (inr (k, x, c, e, rs, at, why)) =
      inr (suc k, x, c, omega arith, (r, rs), at, why)

  -- What the loop makes of a segment that was moved, or not.
  step-Copied :
      (out dma64 : Bool) (i : ℕ) (d : Desc) (ds : List Desc) (t : Bool × Pcie × Ram)
      (next : Pcie → Ram → ℕ × Pcie × Ram)
      → Moved out dma64 d t
      → ((ps : Pcie) (ram : Ram)
          → to_guest ps ≡ out
          → ps.dma64 ≡ dma64
          → Copied out dma64 (i + 1) ds (next ps ram))
      → Copied out dma64 i
          (d ∷ ds)
          (if t.0 then next (count_bytes d.len t.1) t.2 else (5, blame i t.1, t.2))
  unfolding count_bytes blame
  step-Copied out dma64 i d ds (true, ps, ram) next (r, g, w) more =
      Copied-cons out dma64 i d ds (next (count_bytes d.len ps) ram) r
        (more (count_bytes d.len ps) ram g w)
  step-Copied out dma64 i d ds (false, ps, ram) next why more =
      inr (0, d, refl, omega arith, tt, refl, why)

  pub copy_descs-Copied :
      (out dma64 : Bool) (i off : ℕ) (ds : List Desc) (ps : Pcie) (ram : Ram)
      → to_guest ps ≡ out
      → ps.dma64 ≡ dma64
      → Copied out dma64 i ds (copy_descs bus i off ds ps ram)
  unfolding copy_descs
  copy_descs-Copied out dma64 i off [] ps ram g w = inl (refl, tt)
  copy_descs-Copied out dma64 i off (d ∷ ds) ps ram g w =
      step-Copied out dma64 i d ds (move_segment bus ps ram off d)
        (copy_descs bus (i + 1) ((off + d.len) % 2 ^ 32) ds)
        (subst (λ b. Moved b dma64 d (move_segment bus ps ram off d)) g
          (subst (λ b. Moved (to_guest ps) b d (move_segment bus ps ram off d)) w
            (move_segment-Moved ps ram off d)))
        λ ps' ram' g' w'.
          copy_descs-Copied out dma64 (i + 1) ((off + d.len) % 2 ^ 32) ds ps' ram' g' w'

  pub Copied-AllReach :
      (out dma64 : Bool) (i : ℕ) (ds : List Desc) (t : ℕ × Pcie × Ram)
      → Copied out dma64 i ds t
      → t.0 ≡ 0
      → AllReach dma64 ds
  Copied-AllReach out dma64 i ds t (inl (z, r)) h = r
  Copied-AllReach out dma64 i ds t (inr (k, x, c, _, _, _, _)) h = absurd (omega (arith, c, h))
