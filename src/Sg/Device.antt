-- ===== src/Sg/Device.antt =====
-- examples/28_dma_sg/main.c, main.h: the driver of ldd-pcie that moves the user's pages themselves. What its
-- transfer, its handler and its structure have in common with examples/27_dma is taken from there.
use linux_device_driver.Prelude.{
  ℕ, ◌+◌, ◌-◌, ◌*◌, ◌/◌, Bool, Option, false, not, List, [], ◌∷◌, ◌++◌, ltb, leb, ◌==◌,
  if◌then◌else◌, length, min,
}
use linux_device_driver.Pcie.State.{ldd_mem_size}
use linux_device_driver.Pcie.Transfer.{Desc}
use linux_device_driver.Dma.Device.{
  Host, Machine, Ret, done, enospc, enodev, efault, erestartsys, Dir, to_device, from_device,
  encode_desc, iowrites, table_writes, start_writes, wait, settle,
}

abbrev pub page_size : ℕ
page_size = 4096

-- `struct dma_sg_dev`. The fields that it shares with `struct dma_dev` stand in the machine's `dma`, whose
-- `chunk` and `buf` mean nothing here.
pub record Sg : Type 0 where
  pub max_desc : ℕ
  pub last_pages : ℕ
  pub last_segs : ℕ
  pub last_descs : ℕ

pub record SgMachine (Ram : Type 0) : Type 0 where
  pub base : Machine Ram
  pub sg : Sg

-- What befalls a transfer: what `pin_user_pages_fast` returns, a number of pages or an error; the errors of
-- the table and of the mapping, `done 0` for none; the mapped segments, by address and length, and
-- how many there were before the mapping; the device's clock at the start, and the time that it reaches
-- before the wait times out, if it goes on at all.
pub record SgLuck : Type 0 where
  pub pinned : Ret
  pub table : Ret
  pub mapping : Ret
  pub segs : List Desc
  pub orig_nents : ℕ
  pub now : ℕ
  pub reached : Option ℕ

-- The descriptors, as they are stored one after the other.
unfoldable pub encode_table : List Desc → List ℕ
unfolding encode_desc
encode_table [] = []
encode_table (d ∷ ds) = encode_desc d.addr d.len ++ encode_table ds

-- DIV_ROUND_UP(offset + count, PAGE_SIZE)
abbrev pub pages_of : ℕ → ℕ → ℕ
pages_of offset count = (offset + count + (page_size - 1)) / page_size

-- A call's return value, the file position and the machine, once the lock is given back.
abbrev pub advance : {Ram : Type 0} → ℕ → Ret × SgMachine Ram → Ret × ℕ × SgMachine Ram
advance pos (done k, m) = (done k, pos + k, m)
advance pos (r, m) = (r, pos, m)

abbrev pub behind : Dir → Ret
behind to_device = enospc
behind from_device = done 0

-- The count that a call comes down to.
abbrev pub clamp_sg : ℕ → ℕ → ℕ → ℕ → ℕ
clamp_sg count pos offset max_desc =
    min count (min (ldd_mem_size - pos) (max_desc * page_size - offset))

module _ {Ram : Type 0} (host : Host Ram) where
  -- `dma_sg_run`, up to the wait
  unfoldable pub launch_run : ℕ → ℕ → ℕ → Dir → Machine Ram → Machine Ram
  unfolding iowrites
  launch_run now nents pos dir m =
      let (ps', ram') =
        iowrites host now
          (table_writes host m.dma.desc_bus nents pos ++ start_writes host dir m.dma.xor) m.ps
          m.ram in
      record { dma = record m.dma { completed = false }; ps = ps'; ram = ram' }

  unfoldable pub dma_sg_run : SgLuck → ℕ → ℕ → Dir → Machine Ram → Ret × Machine Ram
  unfolding launch_run wait settle
  dma_sg_run luck nents pos dir m =
      settle host luck.now (wait host luck.reached (launch_run luck.now nents pos dir m))

  -- The end of `dma_sg_xfer`.
  unfoldable pub moved : ℕ → Sg → Ret × Machine Ram → Ret × SgMachine Ram
  moved count sg (done k, m) = (done count, record { base = m; sg = sg })
  moved count sg (r, m) = (r, record { base = m; sg = sg })

  -- With the pages mapped: the descriptors, the fields for sysfs, and the run.
  unfoldable pub xfer_mapped : SgLuck → ℕ → ℕ → ℕ → Dir → SgMachine Ram → Ret × SgMachine Ram
  unfolding encode_table dma_sg_run moved
  xfer_mapped luck npages count pos dir m =
      let nents = length luck.segs in
      let ram' = host.store m.base.ram m.base.dma.desc_bus (encode_table luck.segs) in
      let sg' = record m.sg {
        last_pages = npages;
        last_segs = luck.orig_nents;
        last_descs = nents;
      } in
      moved count sg' (dma_sg_run luck nents pos dir (record m.base { ram = ram' }))

  -- With `npages` pages pinned.
  unfoldable pub xfer_pinned :
      Ret → Ret → SgLuck → ℕ → ℕ → ℕ → Dir → SgMachine Ram → Ret × SgMachine Ram
  unfolding xfer_mapped
  xfer_pinned (done k) (done j) luck npages count pos dir m =
      xfer_mapped luck npages count pos dir m
  xfer_pinned (done k) err luck npages count pos dir m = (err, m)
  xfer_pinned err mapping luck npages count pos dir m = (err, m)

  unfoldable pub xfer_at : Ret → SgLuck → ℕ → ℕ → ℕ → Dir → SgMachine Ram → Ret × SgMachine Ram
  unfolding xfer_pinned
  xfer_at (done pinned) luck offset count pos dir m =
      if pinned == 0
      then (efault, m)
      else if ltb pinned (pages_of offset count)
      then xfer_pinned luck.table luck.mapping luck pinned (pinned * page_size - offset) pos dir m
      else xfer_pinned luck.table luck.mapping luck (pages_of offset count) count pos dir m
  xfer_at err luck offset count pos dir m = (err, m)

  -- `dma_sg_xfer`, of a buffer that begins `offset` bytes into a page
  unfoldable pub dma_sg_xfer : SgLuck → ℕ → ℕ → ℕ → Dir → SgMachine Ram → Ret × SgMachine Ram
  unfolding xfer_at
  dma_sg_xfer luck offset count pos dir m = xfer_at luck.pinned luck offset count pos dir m

  -- `dma_sg_rw`, where `locked` is whether the lock is taken
  unfoldable pub dma_sg_rw :
      Bool → SgLuck → ℕ → ℕ → ℕ → Dir → SgMachine Ram → Ret × ℕ × SgMachine Ram
  unfolding dma_sg_xfer
  dma_sg_rw locked luck offset count pos dir m =
      let n = clamp_sg count pos offset m.sg.max_desc in
      if leb ldd_mem_size pos
      then (behind dir, pos, m)
      else if n == 0
      then (done 0, pos, m)
      else if not locked
      then (erestartsys, pos, m)
      else if m.base.dma.removed
      then (enodev, pos, m)
      else advance pos (dma_sg_xfer luck offset n pos dir m)
