-- ===== src/Scull/Write.antt =====
-- examples/03_scull_basic/fops.c: `scull_write` on each of its returns.
use native.Mathlib.Nat.{mod-lt}
use linux_device_driver.Prelude.{
  ℕ, ◌+◌, ◌-◌, ◌/◌, ◌%◌, ◌≡◌, ◌≤◌, ◌<◌, ◌⊎◌, inl, inr, refl, ◌∙◌, sym, subst, Bool, not, some, List,
  if_cases, length, get_elem?, set, take, arith, length-set,
}
use linux_device_driver.Prelude.Access.{get_elem?-in}
use linux_device_driver.Scull.Device.{Block, Dev, Ret, grow, fill, write_block, write}
use linux_device_driver.Scull.Blocks.{
  get_block-get_elem?, cell, IsValid, AllBlocks-set, AllBlocks-at, grow-Grown,
}
use linux_device_driver.Scull.Cells.{
  UserLaws, fill-Filled, taken, Keeps, length-part, updated-Shows, updated-Keeps, Wrote,
}

module _ (block_size : ℕ) (from_user : List ℕ → Bool × List ℕ)
    (laws : UserLaws block_size from_user) (some_bytes : 0 < block_size) where
  abbrev W : ℕ → ℕ → List ℕ → Dev → Ret × ℕ × Dev → Type 0
  W free pos bytes dev t = Wrote block_size free pos bytes dev t × IsValid block_size t.2

  -- The same, of a device that shows the same bytes as `dev`.
  Keeps-from :
      (ok : Bool) (dev grown dev' : Dev) (pos n m : ℕ)
      → ((q : ℕ) → cell block_size grown q ≡ cell block_size dev q)
      → n ≡ m
      → Keeps block_size ok grown dev' pos n
      → Keeps block_size ok dev dev' pos m
  Keeps-from ok dev grown dev' pos n m cells e k q o =
      elim (k q (subst (λ x. (q < pos) ⊎ (pos + x ≤ q)) (sym e) o)) [
        | inl same ↦ inl (same ∙ cells q)
        | inr (a, b, c, d) ↦ inr (a, b, c, sym (cells q) ∙ d)
      ]

  write_block-Wrote :
      (free pos : ℕ) (bytes : List ℕ) (dev grown : Dev) (b : Block)
      → IsValid block_size grown
      → ((q : ℕ) → cell block_size grown q ≡ cell block_size dev q)
      → pos / block_size < length grown.block_list
      → get_elem? grown.block_list (pos / block_size) ≡ some b
      → W free pos bytes dev (write_block block_size from_user (some b) bytes pos grown)
  unfolding write_block
  write_block-Wrote free pos bytes dev grown b v cells room found =
      let part = take (block_size - pos % block_size) bytes in
      let (ok, b') = fill block_size from_user b (pos % block_size) part in
      let len = length-part block_size pos bytes in
      let filled =
        fill-Filled block_size from_user laws b (pos % block_size) part
          (AllBlocks-at block_size grown.block_list (pos / block_size) v.blocks found)
          (omega (arith, len, mod-lt pos some_bytes)) in
      let dev' = record grown { block_list = set grown.block_list (pos / block_size) b' } in
      let keeps =
        updated-Keeps block_size from_user laws some_bytes pos bytes grown b b' ok room found
          filled in
      let shows =
        updated-Shows block_size from_user laws some_bytes pos bytes grown b b' ok room found
          filled in
      let valid : IsValid block_size dev' = record {
        counted = v.counted ∙ sym (length-set grown.block_list (pos / block_size) b');
        blocks =
            AllBlocks-set block_size grown.block_list (pos / block_size) b' filled.whole v.blocks;
      } in
      if_cases (W free pos bytes dev) ok
        (λ e. (
          (
            len,
            refl,
            λ j lt. shows e j (omega (arith, len)),
            subst (λ o. Keeps block_size o dev dev' pos (length part)) e
                (Keeps-from ok dev grown dev' pos _ _ cells (sym len) keeps),
          ),
          valid,
        ))
        λ e. (
          (
            refl,
            subst (λ o. Keeps block_size o dev dev' pos (taken block_size pos bytes)) e
                (Keeps-from ok dev grown dev' pos _ _ cells refl keeps),
          ),
          valid,
        )

  -- On a valid device a write takes bytes up to the end of its block: it puts them at the position,
  -- returns their count and moves on by it. Every other byte stays, but those of the block before the
  -- position that were not written so far may become visible. After a fault the position and the bytes
  -- outside the range are as they were. A write fails for memory only if fewer blocks are free than
  -- are missing, and then changes no byte; interrupted it changes nothing. The device stays valid.
  pub write-Wrote :
      (free pos : ℕ) (bytes : List ℕ) (locked : Bool) (dev : Dev)
      → IsValid block_size dev
      → W free pos bytes dev (write block_size from_user locked free bytes pos dev)
  unfolding write
  write-Wrote free pos bytes locked dev v =
      let need = pos / block_size + 1 - dev.block_counter in
      let (ok, grown) = grow block_size need free dev in
      let g = grow-Grown block_size need free dev v in
      if_cases (W free pos bytes dev) (not locked) (λ _. ((refl, refl), v))
        λ _.
          if_cases (W free pos bytes dev) ok
            (λ e.
              let room : pos / block_size < length grown.block_list =
                omega (arith, g.enough e, v.counted) in
              let (b, found) = get_elem?-in grown.block_list (pos / block_size) room in
              subst (λ o. W free pos bytes dev (write_block block_size from_user o bytes pos grown))
                (sym (get_block-get_elem? grown.block_list (pos / block_size) ∙ found))
                (write_block-Wrote free pos bytes dev grown b g.valid g.cells_same room found))
            λ short. ((refl, g.short short, g.cells_same), g.valid)
