-- ===== src/Dma/Calls.antt =====
-- examples/27_dma/main.c: `dma_read` and `dma_write`.
use linux_device_driver.Prelude.{
  ℕ, ◌+◌, ◌-◌, Bool, not, Option, none, some, List, [], leb, ◌==◌, if◌then◌else◌, take, length,
  blit, min,
}
use linux_device_driver.Pcie.State.{ldd_mem_size}
use linux_device_driver.Dma.Device.{
  Host, Machine, Luck, Ret, done, enospc, enodev, efault, erestartsys, to_device, from_device,
  dma_xfer,
}

-- The count that a read or write comes down to, and what it returns before the lock is taken.
abbrev pub clamp : ℕ → ℕ → ℕ → ℕ
clamp count pos chunk = min count (min (ldd_mem_size - pos) chunk)

-- What befalls a call: whether the lock is taken, the transfer, and whether the copy faults, with the bytes
-- that landed before it does.
pub record CallLuck : Type 0 where
  pub locked : Bool
  pub xfer : Luck
  pub fault : Option (List ℕ)

-- A call's return value, the file position, the machine, and the bytes that are given to the user.
pub record Result (Ram : Type 0) : Type 0 where
  pub ret : Ret
  pub pos : ℕ
  pub machine : Machine Ram
  pub given : List ℕ

abbrev pub answer : {Ram : Type 0} → Ret → ℕ → Machine Ram → Result Ram
answer r pos m = record { ret = r; pos = pos; machine = m; given = [] }

module _ {Ram : Type 0} (host : Host Ram) where
  -- The end of `dma_read`: the copy to the user, if the transfer went well.
  unfoldable pub deliver : Option (List ℕ) → ℕ → ℕ → Ret × Machine Ram → Result Ram
  deliver (some landed) pos count (done k, m) = record {
    ret = efault;
    pos = pos;
    machine = m;
    given = landed;
  }
  deliver none pos count (done k, m) = record {
    ret = done count;
    pos = pos + count;
    machine = m;
    given = take count m.dma.buf;
  }
  deliver fault pos count (r, m) = answer r pos m

  unfoldable pub read_locked : CallLuck → ℕ → ℕ → Machine Ram → Result Ram
  unfolding deliver
  read_locked luck count pos m =
      if m.dma.removed
      then answer enodev pos m
      else deliver luck.fault pos count (dma_xfer host luck.xfer pos count from_device m)

  unfoldable pub dma_read : CallLuck → ℕ → ℕ → Machine Ram → Result Ram
  unfolding read_locked
  dma_read luck count pos m =
      if leb ldd_mem_size pos
      then answer (done 0) pos m
      else if clamp count pos m.dma.chunk == 0
      then answer (done 0) pos m
      else if not luck.locked
      then answer erestartsys pos m
      else read_locked luck (clamp count pos m.dma.chunk) pos m

  abbrev pub filled : List ℕ → Machine Ram → Machine Ram
  filled bytes m = record m { dma = record m.dma { buf = blit m.dma.buf 0 bytes } }

  unfoldable pub wrote : ℕ → ℕ → Ret × Machine Ram → Result Ram
  wrote pos count (done k, m) = answer (done count) (pos + count) m
  wrote pos count (r, m) = answer r pos m

  unfoldable pub write_filled : Option (List ℕ) → Luck → List ℕ → ℕ → Machine Ram → Result Ram
  unfolding wrote
  write_filled (some landed) luck bytes pos m = answer efault pos (filled landed m)
  write_filled none luck bytes pos m =
      wrote pos (length bytes) (dma_xfer host luck pos (length bytes) to_device (filled bytes m))

  unfoldable pub write_locked : CallLuck → List ℕ → ℕ → Machine Ram → Result Ram
  unfolding write_filled
  write_locked luck bytes pos m =
      if m.dma.removed then answer enodev pos m else write_filled luck.fault luck.xfer bytes pos m

  unfoldable pub dma_write : CallLuck → List ℕ → ℕ → Machine Ram → Result Ram
  unfolding write_locked
  dma_write luck request pos m =
      let count = clamp (length request) pos m.dma.chunk in
      if leb ldd_mem_size pos
      then answer enospc pos m
      else if count == 0
      then answer (done 0) pos m
      else if not luck.locked
      then answer erestartsys pos m
      else write_locked luck (take count request) pos m
