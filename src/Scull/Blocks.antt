-- ===== src/Scull/Blocks.antt =====
-- examples/03_scull_basic/fops.c: the block list under growth and update.
use linux_device_driver.Prelude.{
  ℕ, zero, suc, ◌+◌, ◌-◌, ◌/◌, ◌%◌, ◌≡◌, ◌≤◌, ◌<◌, refl, ◌∙◌, ap, subst, Bool, true, false, Option,
  none, some, List, [], ◌∷◌, ◌++◌, ltb, ◌==◌, if◌then◌else◌, if_cases, length, get_elem?, set,
  arith, length-replicate, length-append,
}
use linux_device_driver.Scull.Device.{Block, Dev, get_block, zero_block, grow}

-- The loop of `scull_get_block` finds the block of that index.
pub get_block-get_elem? : (bs : List Block) (nr : ℕ) → get_block bs nr ≡ get_elem? bs nr
unfolding get_block
get_block-get_elem? [] nr = refl
get_block-get_elem? (b ∷ bs) zero = refl
get_block-get_elem? (b ∷ bs) (suc nr) =
    let back : suc nr - 1 ≡ nr = omega arith in
    if_cases (λ o. o ≡ get_elem? bs nr) (suc nr == 0) (λ e. absurd (ground arith))
      λ _. ap (get_block bs) back ∙ get_block-get_elem? bs nr

-- The byte at an offset of a block, if it was written.
abbrev pub block_cell : Option Block → ℕ → Option ℕ
block_cell none at = none
block_cell (some b) at = if ltb at b.offset then get_elem? b.data_bytes at else none

module _ (block_size : ℕ) where
  -- The byte at a position of the device, if it was written.
  abbrev pub cell : Dev → ℕ → Option ℕ
  cell dev q = block_cell (get_elem? dev.block_list (q / block_size)) (q % block_size)

  -- A block is a page, and is written up to some place in it.
  pub record IsBlock (b : Block) : Type 0 where
    pub size : length b.data_bytes ≡ block_size
    pub written : b.offset ≤ block_size

  abbrev pub AllBlocks : List Block → Type 0
  AllBlocks [] = Unit {0}
  AllBlocks (b ∷ bs) = IsBlock b × AllBlocks bs

  pub record IsValid (dev : Dev) : Type 0 where
    pub counted : dev.block_counter ≡ length dev.block_list
    pub blocks : AllBlocks dev.block_list

  zero_block-IsBlock : IsBlock (zero_block block_size)
  zero_block-IsBlock = record { size = length-replicate block_size 0; written = omega arith }

  AllBlocks-append : (bs cs : List Block) → AllBlocks bs → AllBlocks cs → AllBlocks (bs ++ cs)
  AllBlocks-append [] cs h k = k
  AllBlocks-append (b ∷ bs) cs (h, hs) k = (h, AllBlocks-append bs cs hs k)

  pub AllBlocks-set :
      (bs : List Block) (i : ℕ) (b : Block) → IsBlock b → AllBlocks bs → AllBlocks (set bs i b)
  AllBlocks-set [] i b k h = tt
  AllBlocks-set (x ∷ bs) zero b k (h, hs) = (k, hs)
  AllBlocks-set (x ∷ bs) (suc i) b k (h, hs) = (h, AllBlocks-set bs i b k hs)

  abbrev pub IsBlock? : Option Block → Type 0
  IsBlock? none = Unit {0}
  IsBlock? (some b) = IsBlock b

  pub AllBlocks-get_elem? : (bs : List Block) (i : ℕ) → AllBlocks bs → IsBlock? (get_elem? bs i)
  AllBlocks-get_elem? [] i h = tt
  AllBlocks-get_elem? (x ∷ bs) zero (h, hs) = h
  AllBlocks-get_elem? (x ∷ bs) (suc i) (h, hs) = AllBlocks-get_elem? bs i hs

  pub AllBlocks-at :
      (bs : List Block) (i : ℕ) {b : Block} → AllBlocks bs → get_elem? bs i ≡ some b → IsBlock b
  AllBlocks-at bs i h e = subst IsBlock? e (AllBlocks-get_elem? bs i h)

  append_zero-cell :
      (bs : List Block) (k at : ℕ)
      → block_cell (get_elem? (bs ++ zero_block block_size ∷ []) k) at
        ≡ block_cell (get_elem? bs k) at
  append_zero-cell [] zero at = ground arith
  append_zero-cell [] (suc k) at = refl
  append_zero-cell (b ∷ bs) zero at = refl
  append_zero-cell (b ∷ bs) (suc k) at = append_zero-cell bs k at

  -- Growth adds blocks that show no bytes; if it succeeds, the blocks that were missing are there.
  pub record Grown (need free : ℕ) (ok : Bool) (dev dev' : Dev) : Type 0 where
    pub cells_same : (q : ℕ) → cell dev' q ≡ cell dev q
    pub valid : IsValid dev'
    pub short : ok ≡ false → free < need
    pub enough : ok ≡ true → length dev'.block_list ≡ length dev.block_list + need

  pub grow-Grown :
      (need free : ℕ) (dev : Dev)
      → IsValid dev
      → let (ok, dev') = grow block_size need free dev in Grown need free ok dev dev'
  unfolding grow
  grow-Grown zero free dev v = record {
    cells_same = λ q. refl;
    valid = v;
    short = λ e. cc;
    enough = λ _. omega arith;
  }
  grow-Grown (suc need) zero dev v = record {
    cells_same = λ q. refl;
    valid = v;
    short = λ _. omega arith;
    enough = λ e. cc;
  }
  grow-Grown (suc need) (suc free) dev v =
      let bs = dev.block_list ++ zero_block block_size ∷ [] in
      let more : Dev = record { block_counter = dev.block_counter + 1; block_list = bs } in
      let longer = length-append dev.block_list (zero_block block_size ∷ []) in
      let g = grow-Grown need free more (record {
        counted = omega (arith, v.counted, longer);
        blocks =
            AllBlocks-append dev.block_list (zero_block block_size ∷ []) v.blocks
              (zero_block-IsBlock, tt);
      }) in
      record {
        cells_same =
            λ q. g.cells_same q ∙ append_zero-cell dev.block_list (q / block_size) (q % block_size);
        valid = g.valid;
        short = λ e. omega (arith, g.short e);
        enough = λ e. omega (arith, g.enough e, longer);
      }
