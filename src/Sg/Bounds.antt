-- ===== src/Sg/Bounds.antt =====
-- examples/28_dma_sg/main.c: the table of descriptors and the array of pages are never overrun.
use linux_device_driver.Prelude.{
  ℕ, ◌-◌, ◌*◌, ◌≤◌, ◌<◌, ◌≡◌, refl, sym, subst, Bool, not, length, ltb, leb, ◌==◌, if_cases,
  Bool-cases, inl, inr, min, arith,
}
use linux_device_driver.Pcie.State.{ldd_mem_size}
use linux_device_driver.Dma.Device.{
  Host, Machine, Ret, done, enomem, etimedout, eio, enospc, enodev, efault, erestartsys, Dir,
}
use linux_device_driver.Sg.Guarded.{guarded, at-same}
use linux_device_driver.Sg.Device.{
  Sg, SgMachine, SgLuck, page_size, pages_of, moved, xfer_mapped, xfer_pinned, xfer_at, dma_sg_xfer,
  dma_sg_rw, clamp_sg, advance, dma_sg_run, encode_table,
}

-- What the last transfer took fits in the table and in the array, which have `max_desc` places.
pub record IsWithin (sg : Sg) : Type 0 where
  pub pages : sg.last_pages ≤ sg.max_desc
  pub descs : sg.last_descs ≤ sg.max_desc

module _ {Ram : Type 0} (host : Host Ram) where
  moved_lem : (count : ℕ) (sg : Sg) (r : Ret × Machine Ram) → (moved host count sg r).1.sg ≡ sg
  unfolding moved
  moved_lem count sg (done k, m) = refl
  moved_lem count sg (enomem, m) = refl
  moved_lem count sg (etimedout, m) = refl
  moved_lem count sg (eio, m) = refl
  moved_lem count sg (enospc, m) = refl
  moved_lem count sg (enodev, m) = refl
  moved_lem count sg (efault, m) = refl
  moved_lem count sg (erestartsys, m) = refl

  mapped-IsWithin :
      (luck : SgLuck) (npages count pos : ℕ) (dir : Dir) (m : SgMachine Ram)
      → npages ≤ m.sg.max_desc
      → length luck.segs ≤ npages
      → IsWithin (xfer_mapped host luck npages count pos dir m).1.sg
  unfolding xfer_mapped
  mapped-IsWithin luck npages count pos dir m p d =
      let ram' = host.store m.base.ram m.base.dma.desc_bus (encode_table luck.segs) in
      let sg' = record m.sg {
        last_pages = npages;
        last_segs = luck.orig_nents;
        last_descs = length luck.segs;
      } in
      subst IsWithin
        (sym (
          moved_lem count sg'
            (dma_sg_run host luck (length luck.segs) pos dir (record m.base { ram = ram' }))))
        (record { pages = p; descs = omega arith })

  pinned-IsWithin :
      (t p : Ret) (luck : SgLuck) (npages count pos : ℕ) (dir : Dir) (m : SgMachine Ram)
      → IsWithin m.sg
      → npages ≤ m.sg.max_desc
      → length luck.segs ≤ npages
      → IsWithin (xfer_pinned host t p luck npages count pos dir m).1.sg
  unfolding xfer_pinned
  pinned-IsWithin (done k) (done j) luck npages count pos dir m w a b =
      mapped-IsWithin luck npages count pos dir m a b
  pinned-IsWithin t p luck npages count pos dir m w a b = w

  at-IsWithin :
      (p : Ret) (luck : SgLuck) (offset count pos : ℕ) (dir : Dir) (m : SgMachine Ram)
      → IsWithin m.sg
      → pages_of offset count ≤ m.sg.max_desc
      → ((k : ℕ) → p ≡ done k → length luck.segs ≤ min k (pages_of offset count))
      → IsWithin (xfer_at host p luck offset count pos dir m).1.sg
  unfolding xfer_at
  at-IsWithin (done k) luck offset count pos dir m w a few =
      if_cases (λ (r : Ret × SgMachine Ram). IsWithin r.1.sg) (k == 0) (λ _. w)
        λ _.
          if_cases (λ (r : Ret × SgMachine Ram). IsWithin r.1.sg) (ltb k (pages_of offset count))
            (λ less.
              pinned-IsWithin luck.table luck.mapping luck k (k * page_size - offset) pos dir m w
                (ground arith) (omega (arith, few k refl)))
            λ _.
              pinned-IsWithin luck.table luck.mapping luck (pages_of offset count) count pos dir m w
                a (omega (arith, few k refl))
  at-IsWithin p luck offset count pos dir m w a few = w

  advance_sg : (pos : ℕ) (r : Ret × SgMachine Ram) → (advance pos r).2.sg ≡ r.1.sg
  advance_sg pos (done k, m) = refl
  advance_sg pos (enomem, m) = refl
  advance_sg pos (etimedout, m) = refl
  advance_sg pos (eio, m) = refl
  advance_sg pos (enospc, m) = refl
  advance_sg pos (enodev, m) = refl
  advance_sg pos (efault, m) = refl
  advance_sg pos (erestartsys, m) = refl

  rw-IsWithin :
      (locked : Bool) (luck : SgLuck) (offset count pos : ℕ) (dir : Dir) (m : SgMachine Ram)
      → IsWithin m.sg
      → offset < page_size
      → (let n = clamp_sg count pos offset m.sg.max_desc in
          (k : ℕ) → luck.pinned ≡ done k → length luck.segs ≤ min k (pages_of offset n))
      → IsWithin (dma_sg_rw host locked luck offset count pos dir m).2.sg
  unfolding dma_sg_rw dma_sg_xfer
  rw-IsWithin locked luck offset count pos dir m w o few =
      let n = clamp_sg count pos offset m.sg.max_desc in
      let Within = λ (r : Ret × ℕ × SgMachine Ram). IsWithin r.2.sg in
      if_cases Within (leb ldd_mem_size pos) (λ _. w)
        λ _.
          if_cases Within (n == 0) (λ _. w)
            λ z.
              if_cases Within (not locked) (λ _. w)
                λ _.
                  if_cases Within m.base.dma.removed (λ _. w)
                    λ _.
                      subst IsWithin
                        (sym (advance_sg pos (dma_sg_xfer host luck offset n pos dir m)))
                        (at-IsWithin luck.pinned luck offset n pos dir m w (ground arith) few)

  -- A call does what it does on a guarded host if its transfer does.
  rw-same :
      (locked : Bool) (luck : SgLuck) (offset count pos : ℕ) (dir : Dir) (m : SgMachine Ram)
      → (let n = clamp_sg count pos offset m.sg.max_desc in
          let safe = guarded host m.base.dma.desc_bus (m.sg.max_desc * 16) in
          0 < n
          → dma_sg_xfer safe luck offset n pos dir m ≡ dma_sg_xfer host luck offset n pos dir m)
      → dma_sg_rw
          (guarded host m.base.dma.desc_bus (m.sg.max_desc * 16))
          locked
          luck
          offset
          count
          pos
          dir
          m
        ≡ dma_sg_rw host locked luck offset count pos dir m
  unfolding dma_sg_rw
  rw-same locked luck offset count pos dir m same =
      let n = clamp_sg count pos offset m.sg.max_desc in
      elim (Bool-cases (n == 0)) [ inl z ↦ ground arith | inr z ↦ rw (same (ground arith)) refl ]

  -- A call asks for no more pages than the array has room for, and whatever it returns, has used no more,
  -- and has stored descriptors only in the table and no more of them than it has room for: on a host that
  -- refuses to store anything else the call does the same. This is so also where it moves less than it
  -- was asked for, because only some pages could be pinned. It is asked that the transfer before was
  -- within these bounds, that the buffer begins within a page, and that the table of segments has no
  -- more of them than there are pages in use.
  pub dma_sg_rw-IsWithin :
      (locked : Bool) (luck : SgLuck) (offset count pos : ℕ) (dir : Dir) (m : SgMachine Ram)
      → IsWithin m.sg
      → offset < page_size
      → (let n = clamp_sg count pos offset m.sg.max_desc in
          (k : ℕ) → luck.pinned ≡ done k → length luck.segs ≤ min k (pages_of offset n))
      → (let n = clamp_sg count pos offset m.sg.max_desc in
          let safe = guarded host m.base.dma.desc_bus (m.sg.max_desc * 16) in
          (0 < n → pages_of offset n ≤ m.sg.max_desc)
          × IsWithin (dma_sg_rw host locked luck offset count pos dir m).2.sg
          × (dma_sg_rw safe locked luck offset count pos dir m
              ≡ dma_sg_rw host locked luck offset count pos dir m))
  dma_sg_rw-IsWithin locked luck offset count pos dir m w o few = (
    λ h. omega arith,
    rw-IsWithin locked luck offset count pos dir m w o few,
    rw-same locked luck offset count pos dir m λ h.
        unfold dma_sg_xfer in
        at-same host m.base.dma.desc_bus (m.sg.max_desc * 16) luck.pinned luck offset
          (clamp_sg count pos offset m.sg.max_desc) pos dir m refl λ k e. omega (arith, few k e),
  )
