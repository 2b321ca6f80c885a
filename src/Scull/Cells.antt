-- ===== src/Scull/Cells.antt =====
-- examples/03_scull_basic/fops.c: what a write and a read do to the bytes of the device.
use native.Mathlib.Nat.{mod-lt, mod-add-div'}
use linux_device_driver.Prelude.{
  ℕ, ◌+◌, ◌-◌, ◌*◌, ◌/◌, ◌%◌, ◌≡◌, ◌≢◌, ◌≤◌, ◌<◌, ◌⊎◌, inl, inr, refl, ◌∙◌, sym, ap, ap₂, Bool,
  true, false, none, some, List, ltb, if◌then◌else◌, if_cases, length, get_elem?, set, take, arith,
  min, max, length-take, length-blit, get_elem?-blit_out, get_elem?-blit_in,
}
use linux_device_driver.Prelude.Access.{get_elem?-set, get_elem?-set_other, get_elem?-take}
use linux_device_driver.Prelude.Division.{same_block}
use linux_device_driver.Scull.Device.{Block, Dev, Ret, done, erestartsys, enomem, efault, fill}
use linux_device_driver.Scull.Blocks.{block_cell, cell, IsBlock}

eq_cases : (a b : ℕ) → (a ≡ b) ⊎ (a ≢ b)
eq_cases a b = ground arith

module _ (block_size : ℕ) where
  -- A count of the bytes that a write at `pos` takes: up to the end of the block.
  abbrev pub taken : ℕ → List ℕ → ℕ
  taken pos bytes = min (length bytes) (block_size - pos % block_size)

  -- The `n` bytes from `pos` on are the first of `bytes`.
  abbrev pub Shows : Dev → ℕ → List ℕ → ℕ → Type 0
  Shows dev pos bytes n = (j : ℕ) → j < n → cell block_size dev (pos + j) ≡ get_elem? bytes j

  -- From `dev` to `dev'` the bytes but the `n` from `pos` on stay; if all is well, those of the block
  -- before `pos` that were not written may become visible.
  abbrev pub Keeps : Bool → Dev → Dev → ℕ → ℕ → Type 0
  Keeps ok dev dev' pos n =
      (q : ℕ)
      → (q < pos) ⊎ (pos + n ≤ q)
      → (cell block_size dev' q ≡ cell block_size dev q)
        ⊎ ((ok ≡ true)
            × (q < pos)
            × (q / block_size ≡ pos / block_size)
            × (cell block_size dev q ≡ none))

  pub length-part :
      (pos : ℕ) (bytes : List ℕ)
      → length (take (block_size - pos % block_size) bytes) ≡ taken pos bytes
  length-part pos bytes = omega (arith, length-take (block_size - pos % block_size) bytes)

  -- What a write does, on each of its returns.
  abbrev pub Wrote : ℕ → ℕ → List ℕ → Dev → Ret × ℕ × Dev → Type 0
  Wrote free pos bytes dev (done n, pos', dev') =
      (n ≡ taken pos bytes) × (pos' ≡ pos + n) × Shows dev' pos bytes n × Keeps true dev dev' pos n
  Wrote free pos bytes dev (efault, pos', dev') =
      (pos' ≡ pos) × Keeps false dev dev' pos (taken pos bytes)
  Wrote free pos bytes dev (enomem, pos', dev') =
      (pos' ≡ pos)
      × (free < pos / block_size + 1 - dev.block_counter)
      × ((q : ℕ) → cell block_size dev' q ≡ cell block_size dev q)
  Wrote free pos bytes dev (erestartsys, pos', dev') = (pos' ≡ pos) × (dev' ≡ dev)

module _ (block_size : ℕ) (from_user : List ℕ → Bool × List ℕ) where
  -- `copy_from_user` fills the destination to its end, and with the user's bytes if it succeeds.
  pub record UserLaws : Type 0 where
    pub length-from_user : (bytes : List ℕ) → length ((from_user bytes).1) ≡ length bytes
    pub from_user_lem : (bytes : List ℕ) → (from_user bytes).0 ≡ true → (from_user bytes).1 ≡ bytes

  -- What a copy into a block does to its bytes: those of the range are the new ones, and outside it a
  -- byte is as it was, or is one before the range that was not written so far.
  pub record Filled (b : Block) (at : ℕ) (part : List ℕ) (ok : Bool) (b' : Block) : Type 0 where
    pub whole : IsBlock block_size b'
    pub inside :
        ok ≡ true → (j : ℕ) → j < length part → block_cell (some b') (at + j) ≡ get_elem? part j
    pub outside :
        (k : ℕ)
        → (k < at) ⊎ (at + length part ≤ k)
        → (block_cell (some b') k ≡ block_cell (some b) k)
          ⊎ ((ok ≡ true) × (k < at) × (block_cell (some b) k ≡ none))

  module _ (laws : UserLaws) where
    pub fill-Filled :
        (b : Block) (at : ℕ) (part : List ℕ)
        → IsBlock block_size b
        → at + length part ≤ block_size
        → let (ok, b') = fill block_size from_user b at part in Filled b at part ok b'
    unfolding fill
    fill-Filled b at part v h =
        let (ok, landed) = from_user part in
        let len = laws.length-from_user part in
        let whole = length-blit b.data_bytes at landed ∙ v.size in
        record {
          whole = record {
            size = whole;
            written =
                if_cases (λ n. n ≤ block_size) ok (λ _. omega (arith, v.written)) λ _. v.written;
          };
          inside = λ e j lt.
              let edge = if ok then max b.offset (at + length part) else b.offset in
              if_cases (λ c. c ≡ get_elem? part j) (ltb (at + j) edge)
                (λ _.
                  get_elem?-blit_in b.data_bytes at landed j (at + j) refl (omega arith)
                    (omega (arith, v.size))
                  ∙ ap (λ xs. get_elem? xs j) (laws.from_user_lem part e))
                λ n. absurd (ground arith);
          outside = λ k o.
              let same = get_elem?-blit_out b.data_bytes at landed k (ground arith) in
              ground (arith, same);
        }

    module _ (some_bytes : 0 < block_size) where
      module _ (pos : ℕ) (bytes : List ℕ) (dev : Dev) (b b' : Block) (ok : Bool)
          (room : pos / block_size < length dev.block_list)
          (found : get_elem? dev.block_list (pos / block_size) ≡ some b)
          (filled : Filled b
            (pos % block_size)
            (take (block_size - pos % block_size) bytes)
            ok
            b') where
        abbrev pub updated : Dev
        updated = record dev { block_list = set dev.block_list (pos / block_size) b' }

        at_block : get_elem? updated.block_list (pos / block_size) ≡ some b'
        at_block = get_elem?-set dev.block_list (pos / block_size) b' room

        pub updated-Shows :
            ok ≡ true → Shows block_size updated pos bytes (taken block_size pos bytes)
        updated-Shows e j lt =
            let at = pos % block_size in
            let below = mod-lt pos some_bytes in
            let (block, off) = same_block block_size pos j some_bytes (omega arith) in
            ap₂ (λ (t k : ℕ). block_cell (get_elem? updated.block_list t) k) block off
            ∙ ap (λ o. block_cell o (at + j)) at_block
            ∙ filled.inside e j (omega (arith, length-part block_size pos bytes))
            ∙ get_elem?-take (block_size - at) bytes j (omega arith)

        order :
            (q : ℕ)
            → q / block_size ≡ pos / block_size
            → q % block_size < pos % block_size
            → q < pos
        order q same lt = omega (
          arith,
          mod-add-div' q block_size,
          mod-add-div' pos block_size,
          ap (λ t. t * block_size) same,
        )

        side :
            (q : ℕ)
            → q / block_size ≡ pos / block_size
            → (q < pos) ⊎ (pos + taken block_size pos bytes ≤ q)
            → (q % block_size < pos % block_size)
              ⊎ (pos % block_size + length (take (block_size - pos % block_size) bytes)
                  ≤ q % block_size)
        side q same (inl lt) = inl (
            omega (
              arith,
              mod-add-div' q block_size,
              mod-add-div' pos block_size,
              ap (λ t. t * block_size) same,
            ))
        side q same (inr le) = inr (
            omega (
              arith,
              mod-add-div' q block_size,
              mod-add-div' pos block_size,
              ap (λ t. t * block_size) same,
              length-part block_size pos bytes,
            ))

        pub updated-Keeps : Keeps block_size ok dev updated pos (taken block_size pos bytes)
        updated-Keeps q o = elim (eq_cases (q / block_size) (pos / block_size)) [
          | inr apart ↦ inl (
              ap (λ c. block_cell c (q % block_size))
                (get_elem?-set_other dev.block_list (pos / block_size) (q / block_size) b' apart))
          | inl same ↦
              let old : cell block_size dev q ≡ block_cell (some b) (q % block_size) =
                ap (λ t. block_cell (get_elem? dev.block_list t) (q % block_size)) same
                ∙ ap (λ c. block_cell c (q % block_size)) found in
              let new : cell block_size updated q ≡ block_cell (some b') (q % block_size) =
                ap (λ t. block_cell (get_elem? updated.block_list t) (q % block_size)) same
                ∙ ap (λ c. block_cell c (q % block_size)) at_block in
              elim (filled.outside (q % block_size) (side q same o)) [
                | inl e ↦ inl (new ∙ e ∙ sym old)
                | inr (g, lt, gone) ↦ inr (g, order q same lt, same, old ∙ gone)
              ]
        ]
