-- ===== src/Scull/Read.antt =====
-- examples/03_scull_basic/fops.c: `scull_read` on each of its returns.
use linux_device_driver.Prelude.{
  ℕ, ◌+◌, ◌-◌, ◌/◌, ◌%◌, ◌≡◌, ◌≤◌, ◌<◌, ◌⊎◌, inl, inr, refl, ◌∙◌, sym, ap, ap₂, subst, Bool, true,
  false, ltb, Option, none, some, List, [], leb, if_cases, length, get_elem?, drop, arith, min,
  length-slice, slice,
}
use linux_device_driver.Prelude.Access.{get_elem?-take, get_elem?-drop}
use linux_device_driver.Scull.Device.{
  Block, Dev, Ret, done, efault, erestartsys, enomem, read_block, read,
}
use linux_device_driver.Scull.Blocks.{
  get_block-get_elem?, block_cell, cell, IsValid, AllBlocks-get_elem?, IsBlock?,
}
use linux_device_driver.Prelude.Division.{same_block}

module _ (block_size : ℕ) where
  -- The first `n` bytes from `pos` on, all of them written.
  abbrev pub Shows : Dev → ℕ → ℕ → List ℕ → Type 0
  Shows dev pos n out =
      (length out ≡ n) × ((j : ℕ) → j < n → get_elem? out j ≡ cell block_size dev (pos + j))

  -- What a read does, on each of its returns, by the lock and by what the memory of the caller takes: it
  -- copies out the written bytes from `pos` on, at least one if one is asked for and the byte at `pos`
  -- is written; or it fails and leaves the position as it was.
  abbrev pub Reads : Bool → ℕ → ℕ → ℕ → Dev → Ret × List ℕ × ℕ → Type 0
  Reads locked able count pos dev (done n, out, pos') =
      (pos' ≡ pos + n)
      × (n ≤ count)
      × Shows dev pos n out
      × (n ≡ 0 → (count ≡ 0) ⊎ (cell block_size dev pos ≡ none))
      × (locked ≡ true)
      × (n ≤ able)
  Reads locked able count pos dev (efault, out, pos') =
      (pos' ≡ pos) × (locked ≡ true) × (able < count) × Shows dev pos able out
  Reads locked able count pos dev (erestartsys, out, pos') =
      (pos' ≡ pos) × (locked ≡ false) × (out ≡ [])
  Reads locked able count pos dev (enomem, out, pos') = ⊥

  visible : (b : Block) (k : ℕ) → k < b.offset → block_cell (some b) k ≡ get_elem? b.data_bytes k
  visible b k h = ground arith

  located :
      (pos j : ℕ) (dev : Dev)
      → 0 < block_size
      → pos % block_size + j < block_size
      → cell block_size dev (pos + j)
        ≡ block_cell (get_elem? dev.block_list (pos / block_size)) (pos % block_size + j)
  located pos j dev some_bytes h =
      let (block, off) = same_block block_size pos j some_bytes h in
      ap₂ (λ (t k : ℕ). block_cell (get_elem? dev.block_list t) k) block off

  -- The first bytes of what a block holds from `pos` on.
  slice-Shows :
      (pos n : ℕ) (dev : Dev) (b : Block)
      → 0 < block_size
      → get_elem? dev.block_list (pos / block_size) ≡ some b
      → IsBlock? block_size (some b)
      → pos % block_size + n ≤ b.offset
      → Shows dev pos n (slice (pos % block_size) n b.data_bytes)
  slice-Shows pos n dev b some_bytes found v h =
      let at = pos % block_size in
      (
        length-slice at n b.data_bytes ∙ omega (arith, v.size, v.written),
        λ j lt.
            get_elem?-take n (drop at b.data_bytes) j lt
            ∙ get_elem?-drop b.data_bytes at j (at + j) refl
            ∙ sym (
                located pos j dev some_bytes (omega (arith, v.written))
                ∙ ap (λ o. block_cell o (at + j)) found
                ∙ visible b (at + j) (omega arith)),
      )

  read_block-Reads :
      (able count pos : ℕ) (dev : Dev) (o : Option Block)
      → 0 < block_size
      → get_elem? dev.block_list (pos / block_size) ≡ o
      → IsBlock? block_size o
      → Reads true able count pos dev (read_block block_size o (pos % block_size) count able pos)
  unfolding read_block
  read_block-Reads able count pos dev none some_bytes found _ = (
    omega arith,
    omega arith,
    (refl, λ j lt. absurd (omega arith)),
    λ _. inr (ap (λ o. block_cell o (pos % block_size)) found),
    refl,
    omega arith,
  )
  read_block-Reads able count pos dev (some b) some_bytes found v =
      let at = pos % block_size in
      let n = min count (b.offset - at) in
      let P = Reads true able count pos dev in
      if_cases P (leb b.offset at)
        (λ h. (
          omega arith,
          omega arith,
          (refl, λ j lt. absurd (omega arith)),
          λ _. inr (ap (λ o. block_cell o at) found ∙ ground arith),
          refl,
          omega arith,
        ))
        λ h.
          if_cases P (ltb able n)
            (λ f. (
              refl,
              refl,
              ground arith,
              slice-Shows pos able dev b some_bytes found v (ground arith),
            ))
            λ f. (
              refl,
              omega arith,
              slice-Shows pos n dev b some_bytes found v (ground arith),
              λ z. inl (ground arith),
              refl,
              ground arith,
            )

  -- On a valid device with blocks of at least one byte a read that succeeds copies out written bytes from the position on, in order, as many
  -- as it returns and at most as many as were asked for, and moves on by them; it returns 0 only if
  -- none were asked for or the byte at the position is not written. It fails only if it does not get
  -- the lock, with nothing copied out, or if the memory of the caller takes fewer bytes than were asked
  -- for, with the written bytes that fit copied out; and then the position stays.
  pub read-Reads :
      (locked : Bool) (able count pos : ℕ) (dev : Dev)
      → 0 < block_size
      → IsValid block_size dev
      → Reads locked able count pos dev (read block_size locked able count pos dev)
  unfolding read
  read-Reads false able count pos dev some_bytes v = (refl, refl, refl)
  read-Reads true able count pos dev some_bytes v =
      let at = pos / block_size in
      subst
        (λ o.
          Reads true able count pos dev (read_block block_size o (pos % block_size) count able pos))
        (sym (get_block-get_elem? dev.block_list at))
        (read_block-Reads able count pos dev (get_elem? dev.block_list at) some_bytes refl
          (AllBlocks-get_elem? block_size dev.block_list at v.blocks))
