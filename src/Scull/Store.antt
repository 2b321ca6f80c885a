-- ===== src/Scull/Store.antt =====
-- examples/03_scull_basic/fops.c: a loop of writes fills the device with the bytes.
use native.Mathlib.Nat.{mod-lt}
use linux_device_driver.Prelude.{
  ℕ, zero, suc, ◌+◌, ◌-◌, ◌/◌, ◌≡◌, ◌≤◌, ◌<◌, ◌⊎◌, inl, inr, ◌∙◌, sym, ap, subst, true, none, List,
  length, get_elem?, drop, arith, length-drop,
}
use linux_device_driver.Prelude.Access.{get_elem?-in, get_elem?-drop, drop-drop}
use linux_device_driver.Scull.Device.{Dev, Ret, done, efault, enomem, erestartsys, write}
use linux_device_driver.Scull.Blocks.{cell, IsValid}
use linux_device_driver.Scull.Cells.{Shows, Keeps, Wrote}
use linux_device_driver.Scull.Write.{write-Wrote}
use linux_device_driver.Scull.Loops.{
  identity_user, identity-UserLaws, count_of, write_all, IsServed, write-IsServed,
}

pub side : (q pos : ℕ) → (q < pos) ⊎ (pos ≤ q)
side q pos = ground arith

module _ (block_size : ℕ) where
  -- The device shows the first `n` of the bytes and nothing behind them.
  pub record Holds (bytes : List ℕ) (n : ℕ) (dev : Dev) : Type 0 where
    pub front : (q : ℕ) → q < n → cell block_size dev q ≡ get_elem? bytes q
    pub back : (q : ℕ) → n ≤ q → cell block_size dev q ≡ none
    pub valid : IsValid block_size dev

  -- One write of a loop that has `pos` bytes behind it.
  abbrev Advanced : List ℕ → ℕ → Ret × ℕ × Dev → Type 0
  Advanced bytes pos (r, pos', dev') =
      (pos' ≡ pos + count_of r)
      × (pos + count_of r ≤ length bytes)
      × (pos < length bytes → 0 < count_of r)
      × Holds bytes (pos + count_of r) dev'

  front_of :
      (bytes : List ℕ) (pos n q : ℕ) (dev dev' : Dev)
      → pos ≤ length bytes
      → Holds bytes pos dev
      → Shows block_size dev' pos (drop pos bytes) n
      → Keeps block_size true dev dev' pos n
      → q < pos + n
      → (q < pos) ⊎ (pos ≤ q)
      → cell block_size dev' q ≡ get_elem? bytes q
  front_of bytes pos n q dev dev' le h shows keeps lt (inl before) = elim (keeps q (inl before)) [
    | inl same ↦ same ∙ h.front q before
    | inr (_, _, _, gone) ↦
        let (x, there) = get_elem?-in bytes q (omega arith) in
        let seen = h.front q before in absurd (cc)
  ]
  front_of bytes pos n q dev dev' le h shows keeps lt (inr behind) =
      let back : pos + (q - pos) ≡ q = omega arith in
      ap (cell block_size dev') (sym back)
      ∙ shows (q - pos) (omega arith)
      ∙ get_elem?-drop bytes pos (q - pos) q back

  module _ (some_bytes : 0 < block_size) where
    write-Advanced :
        (bytes : List ℕ) (pos : ℕ) (dev : Dev) (t : Ret × ℕ × Dev)
        → pos ≤ length bytes
        → Holds bytes pos dev
        → IsServed t.0
        → Wrote block_size (pos / block_size + 1) pos (drop pos bytes) dev t
          × IsValid block_size t.2
        → Advanced bytes pos t
    write-Advanced bytes pos dev (done n, pos', dev') le h _ ((count, moved, shows, keeps), v) = (
      moved,
      omega (arith, count, length-drop pos bytes),
      λ lt. omega (arith, count, length-drop pos bytes, mod-lt pos some_bytes),
      record {
        front = λ q lt. front_of bytes pos n q dev dev' le h shows keeps lt (side q pos);
        back = λ q le'. elim (keeps q (inr le')) [
          | inl same ↦ same ∙ h.back q (omega arith)
          | inr (_, lt, _, _) ↦ absurd (omega arith)
        ];
        valid = v;
      },
    )
    write-Advanced bytes pos dev (enomem, pos', dev') le h _ ((_, short, _), v) =
        absurd (omega arith)
    write-Advanced bytes pos dev (efault, pos', dev') le h s w = elim s [ ]
    write-Advanced bytes pos dev (erestartsys, pos', dev') le h s w = elim s [ ]

    pub write_all-Holds :
        (fuel pos : ℕ) (bytes : List ℕ) (dev : Dev)
        → pos ≤ length bytes
        → length bytes ≤ pos + fuel
        → Holds bytes pos dev
        → Holds bytes (length bytes) (write_all block_size fuel (drop pos bytes) pos dev)
    unfolding write_all
    write_all-Holds zero pos bytes dev le enough h =
        let all : pos ≡ length bytes = omega arith in subst (λ n. Holds bytes n dev) all h
    write_all-Holds (suc fuel) pos bytes dev le enough h =
        let rest = drop pos bytes in
        let (r, pos', dev') =
          write block_size identity_user true (pos / block_size + 1) rest pos dev in
        let (moved, within, goes, h') =
          write-Advanced bytes pos dev (r, pos', dev') le h
            (write-IsServed block_size (pos / block_size + 1) rest pos dev)
            (write-Wrote block_size identity_user (identity-UserLaws block_size) some_bytes
              (pos / block_size + 1) pos rest true dev h.valid) in
        subst (λ xs. Holds bytes (length bytes) (write_all block_size fuel xs pos' dev'))
          (sym (drop-drop pos (count_of r) pos' bytes (sym moved)))
          (write_all-Holds fuel pos' bytes dev' (omega (arith, moved, within))
            (grind (arith, moved, within, goes)) (subst (λ n. Holds bytes n dev') (sym moved) h'))
