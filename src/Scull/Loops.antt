-- ===== src/Scull/Loops.antt =====
-- examples/03_scull_basic/fops.c: programs that call `write` and `read` in a loop, such as `cp`, each
-- call carrying on where the one before it stopped.
use linux_device_driver.Prelude.{
  ℕ, zero, suc, ◌+◌, ◌-◌, ◌/◌, ◌%◌, refl, Bool, true, Option, none, some, List, [], ◌++◌, ◌==◌,
  if◌then◌else◌, if_cases, leb, ltb, min, arith, drop,
}
use linux_device_driver.Scull.Device.{
  Block, Dev, Ret, done, enomem, read_block, read, fill, grow, get_block, write_block, write,
}
use linux_device_driver.Scull.Cells.{UserLaws}

abbrev pub identity_user : List ℕ → Bool × List ℕ
identity_user bytes = (true, bytes)

pub identity-UserLaws : (block_size : ℕ) → UserLaws block_size identity_user
identity-UserLaws block_size = record {
  length-from_user = λ bs. refl;
  from_user_lem = λ bs e. refl;
}

abbrev pub count_of : Ret → ℕ
count_of (done n) = n
count_of _ = 0

-- With a lock that is free and a user who has the bytes a write can only run out of memory.
abbrev pub IsServed : Ret → Type 0
IsServed (done n) = Unit {0}
IsServed enomem = Unit {0}
IsServed _ = ⊥

abbrev pub IsDone : Ret → Type 0
IsDone (done n) = Unit {0}
IsDone _ = ⊥

module _ (block_size : ℕ) where
  -- Write until all bytes are taken. There is memory for the blocks that each call needs.
  unfoldable pub write_all : ℕ → List ℕ → ℕ → Dev → Dev
  write_all zero bytes pos dev = dev
  write_all (suc fuel) bytes pos dev =
      let (r, pos', dev') =
        write block_size identity_user true (pos / block_size + 1) bytes pos dev in
      write_all fuel (drop (count_of r) bytes) pos' dev'

  -- Read `count` bytes at a time until nothing comes, into memory that takes them.
  unfoldable pub read_all : ℕ → ℕ → ℕ → Dev → List ℕ
  read_all zero count pos dev = []
  read_all (suc fuel) count pos dev =
      let (r, out, pos') = read block_size true count count pos dev in
      let rest = read_all fuel count pos' dev in if count_of r == 0 then [] else out ++ rest

  write_block-IsServed :
      (o : Option Block) (bytes : List ℕ) (pos : ℕ) (dev : Dev)
      → IsServed ((write_block block_size identity_user o bytes pos dev).0)
  unfolding write_block fill
  write_block-IsServed none bytes pos dev = tt
  write_block-IsServed (some b) bytes pos dev = tt

  pub write-IsServed :
      (free : ℕ) (bytes : List ℕ) (pos : ℕ) (dev : Dev)
      → IsServed ((write block_size identity_user true free bytes pos dev).0)
  unfolding write
  write-IsServed free bytes pos dev =
      let (ok, grown) = grow block_size (pos / block_size + 1 - dev.block_counter) free dev in
      if_cases (λ (t : Ret × ℕ × Dev). IsServed t.0) ok
        (λ _. write_block-IsServed (get_block grown.block_list (pos / block_size)) bytes pos grown)
        λ _. tt

  read_block-IsDone :
      (o : Option Block) (toffset count pos : ℕ)
      → IsDone ((read_block block_size o toffset count count pos).0)
  unfolding read_block
  read_block-IsDone none toffset count pos = tt
  read_block-IsDone (some b) toffset count pos =
      if_cases (λ (t : Ret × List ℕ × ℕ). IsDone t.0) (leb b.offset toffset) (λ _. tt)
        λ _.
          if_cases (λ (t : Ret × List ℕ × ℕ). IsDone t.0)
            (ltb count (min count (b.offset - toffset))) (λ lt. absurd (ground arith)) λ _. tt

  pub read-IsDone :
      (count pos : ℕ) (dev : Dev) → IsDone ((read block_size true count count pos dev).0)
  unfolding read
  read-IsDone count pos dev =
      read_block-IsDone (get_block dev.block_list (pos / block_size)) (pos % block_size) count pos
