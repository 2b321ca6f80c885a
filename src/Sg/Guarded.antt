-- ===== src/Sg/Guarded.antt =====
-- examples/28_dma_sg/main.c: what a call stores, against a host that refuses to store elsewhere.
use linux_device_driver.Prelude.{
  ℕ, ◌*◌, ◌≤◌, ◌≡◌, refl, ◌∙◌, ap, Option, none, some, List, [], ◌∷◌, length, ◌&&◌, leb, ◌==◌, ◌-◌,
  if◌then◌else◌, arith,
}
use linux_device_driver.Pcie.State.{Pcie}
use linux_device_driver.Dma.Device.{
  Host, Machine, Ret, done, enomem, etimedout, eio, enospc, enodev, efault, erestartsys, Dir,
  to_device, from_device, iowrites, dma_handler, wait, settle,
}
use linux_device_driver.Sg.Device.{
  Sg, SgMachine, SgLuck, page_size, pages_of, moved, xfer_mapped, xfer_pinned, xfer_at, launch_run,
  dma_sg_run, encode_table,
}
use linux_device_driver.Sg.Table.{length-encode_table}

-- A host that stores only at `table`, and only what fits in `size` bytes.
abbrev pub guarded : {Ram : Type 0} → Host Ram → ℕ → ℕ → Host Ram
guarded host table size = record {
  bus = host.bus;
  store =
      λ ram a bytes. if a == table && leb (length bytes) size then host.store ram a bytes else ram;
  load = host.load;
}

module _ {Ram : Type 0} (host : Host Ram) (table size : ℕ) where
  abbrev safe : Host Ram
  safe = guarded host table size

  iowrites-same :
      (now : ℕ) (ws : List (ℕ × ℕ)) (ps : Pcie) (ram : Ram)
      → iowrites safe now ws ps ram ≡ iowrites host now ws ps ram
  unfolding iowrites
  iowrites-same now [] ps ram = refl
  iowrites-same now ((a, val) ∷ ws) ps ram = iowrites-same now ws _ _

  wait-same : (reached : Option ℕ) (m : Machine Ram) → wait safe reached m ≡ wait host reached m
  unfolding wait dma_handler
  wait-same none m = refl
  wait-same (some t) m = refl

  run-same :
      (luck : SgLuck) (nents pos : ℕ) (dir : Dir) (m : Machine Ram)
      → dma_sg_run safe luck nents pos dir m ≡ dma_sg_run host luck nents pos dir m
  unfolding dma_sg_run settle launch_run iowrites
  run-same luck nents pos to_device m = ap (settle host luck.now) (wait-same luck.reached _)
  run-same luck nents pos from_device m = ap (settle host luck.now) (wait-same luck.reached _)

  moved-same :
      (count : ℕ) (sg : Sg) (r : Ret × Machine Ram) → moved safe count sg r ≡ moved host count sg r
  unfolding moved
  moved-same count sg (done k, m) = refl
  moved-same count sg (enomem, m) = refl
  moved-same count sg (etimedout, m) = refl
  moved-same count sg (eio, m) = refl
  moved-same count sg (enospc, m) = refl
  moved-same count sg (enodev, m) = refl
  moved-same count sg (efault, m) = refl
  moved-same count sg (erestartsys, m) = refl

  -- What fits at the table is stored.
  store-same :
      (ram : Ram) (a : ℕ) (bytes : List ℕ)
      → a ≡ table
      → length bytes ≤ size
      → safe.store ram a bytes ≡ host.store ram a bytes
  store-same ram a bytes e h = ground arith

  mapped-same :
      (luck : SgLuck) (npages count pos : ℕ) (dir : Dir) (m : SgMachine Ram)
      → m.base.dma.desc_bus ≡ table
      → length luck.segs * 16 ≤ size
      → xfer_mapped safe luck npages count pos dir m ≡ xfer_mapped host luck npages count pos dir m
  unfolding xfer_mapped
  mapped-same luck npages count pos dir m e h =
      let sg' = record m.sg {
        last_pages = npages;
        last_segs = luck.orig_nents;
        last_descs = length luck.segs;
      } in
      let nents = length luck.segs in
      let ram0 = safe.store m.base.ram m.base.dma.desc_bus (encode_table luck.segs) in
      moved-same count sg' _
      ∙ ap (moved host count sg') (run-same luck nents pos dir (record m.base { ram = ram0 }))
      ∙ ap
          (λ ram'.
            moved host count sg'
              (dma_sg_run host luck nents pos dir (record m.base { ram = ram' })))
          (store-same m.base.ram m.base.dma.desc_bus (encode_table luck.segs) e
            (omega (arith, length-encode_table luck.segs)))

  pinned-same :
      (t p : Ret) (luck : SgLuck) (npages count pos : ℕ) (dir : Dir) (m : SgMachine Ram)
      → m.base.dma.desc_bus ≡ table
      → length luck.segs * 16 ≤ size
      → xfer_pinned safe t p luck npages count pos dir m
        ≡ xfer_pinned host t p luck npages count pos dir m
  unfolding xfer_pinned
  pinned-same (done k) (done j) luck npages count pos dir m e h =
      mapped-same luck npages count pos dir m e h
  pinned-same t p luck npages count pos dir m e h = refl

  pub at-same :
      (p : Ret) (luck : SgLuck) (offset count pos : ℕ) (dir : Dir) (m : SgMachine Ram)
      → m.base.dma.desc_bus ≡ table
      → ((k : ℕ) → p ≡ done k → length luck.segs * 16 ≤ size)
      → xfer_at safe p luck offset count pos dir m ≡ xfer_at host p luck offset count pos dir m
  unfolding xfer_at
  at-same (done k) luck offset count pos dir m e h =
      let fits = h k refl in
      rw
        (
          pinned-same luck.table luck.mapping luck k (k * page_size - offset) pos dir m e fits,
          pinned-same luck.table luck.mapping luck (pages_of offset count) count pos dir m e fits,
        )
        refl
  at-same p luck offset count pos dir m e h = refl
