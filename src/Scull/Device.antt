-- ===== src/Scull/Device.antt =====
-- examples/03_scull_basic/fops.c: the block list and the operations of a file.
use linux_device_driver.Prelude.{
  ℕ, zero, suc, ◌+◌, ◌-◌, ◌/◌, ◌%◌, Bool, true, false, not, Option, none, some, List, [], ◌∷◌, ◌++◌,
  leb, ltb, ◌==◌, if◌then◌else◌, length, take, replicate, blit, slice, set, min, max,
}

-- `struct scull_block`: how far its data is written, and the data.
pub record Block : Type 0 where
  pub offset : ℕ
  pub data_bytes : List ℕ

-- `struct scull_dev`, without the mutex, which every operation holds from its first to its last
-- access.
pub record Dev : Type 0 where
  pub block_counter : ℕ
  pub block_list : List Block

-- What a call returns: a count of bytes, or an error.
pub data Ret : Type 0 where
  done : ℕ → Ret
  erestartsys enomem efault : Ret

-- `init_scull_dev`
abbrev pub init_dev : Dev
init_dev = record { block_counter = 0; block_list = [] }

-- `scull_get_block`: the loop stops at the block where the count is 0.
unfoldable pub get_block : List Block → ℕ → Option Block
get_block [] nr = none
get_block (b ∷ bs) nr = let rest = get_block bs (nr - 1) in if nr == 0 then some b else rest

unfoldable pub trim : Dev → Dev
trim dev = record { block_counter = 0; block_list = [] }

-- `scull_open`: whether the file is write only, and whether the lock was taken.
unfoldable pub open_dev : Bool → Bool → Dev → Ret × Dev
unfolding trim
open_dev write_only locked dev =
    if write_only
    then (if locked then (done 0, trim dev) else (erestartsys, dev))
    else (done 0, dev)

-- The blocks are `block_size` bytes (`SCULL_BLOCK_SIZE`, the size of a page). `from_user` is
-- `copy_from_user`: whether all bytes were there, and what stands in the destination after it.
module _ (block_size : ℕ) where
  -- `kzalloc_obj(*pblock)`
  abbrev pub zero_block : Block
  zero_block = record { offset = 0; data_bytes = replicate block_size 0 }

  -- `scull_read` at `pos` for `count` bytes: what it returns, the bytes it copied out, the new
  -- position. The memory of the caller takes `able` bytes at most, and a copy of more fails after these.
  unfoldable pub read_block : Option Block → ℕ → ℕ → ℕ → ℕ → Ret × List ℕ × ℕ
  read_block none toffset count able pos = (done 0, [], pos)
  read_block (some b) toffset count able pos =
      let n = min count (b.offset - toffset) in
      if leb b.offset toffset
      then (done 0, [], pos)
      else if ltb able n
      then (efault, slice toffset able b.data_bytes, pos)
      else (done n, slice toffset n b.data_bytes, pos + n)

  unfoldable pub read : Bool → ℕ → ℕ → ℕ → Dev → Ret × List ℕ × ℕ
  unfolding read_block get_block
  read locked able count pos dev =
      if locked
      then read_block (get_block dev.block_list (pos / block_size)) (pos % block_size) count able
          pos
      else (erestartsys, [], pos)

  -- The loop of `scull_write`, of as many rounds as blocks are missing; there is memory for `free`
  -- blocks.
  unfoldable pub grow : ℕ → ℕ → Dev → Bool × Dev
  grow zero free dev = (true, dev)
  grow (suc need) zero dev = (false, dev)
  grow (suc need) (suc free) dev = grow need free (record {
    block_counter = dev.block_counter + 1;
    block_list = dev.block_list ++ zero_block ∷ [];
  })

  module _ (from_user : List ℕ → Bool × List ℕ) where
    unfoldable pub fill : Block → ℕ → List ℕ → Bool × Block
    fill b toffset bytes =
        let (ok, landed) = from_user bytes in
        (
          ok,
          record {
            offset = if ok then max b.offset (toffset + length bytes) else b.offset;
            data_bytes = blit b.data_bytes toffset landed;
          },
        )

    unfoldable pub write_block : Option Block → List ℕ → ℕ → Dev → Ret × ℕ × Dev
    unfolding fill
    write_block none bytes pos dev = (enomem, pos, dev)
    write_block (some b) bytes pos dev =
        let part = take (block_size - pos % block_size) bytes in
        let (ok, b') = fill b (pos % block_size) part in
        let dev' = record dev { block_list = set dev.block_list (pos / block_size) b' } in
        if ok then (done (length part), pos + length part, dev') else (efault, pos, dev')

    -- `scull_write` at `pos`: what it returns, the new position, the device.
    unfoldable pub write : Bool → ℕ → List ℕ → ℕ → Dev → Ret × ℕ × Dev
    unfolding grow write_block get_block
    write locked free bytes pos dev =
        let tblock = pos / block_size in
        let (grown, dev') = grow (tblock + 1 - dev.block_counter) free dev in
        if not locked
        then (erestartsys, pos, dev)
        else if grown
        then write_block (get_block dev'.block_list tblock) bytes pos dev'
        else (enomem, pos, dev')
