-- ===== src/Sg/RoundTrip.antt =====
-- examples/28_dma_sg/main.c with tools/qemu/hw/ldd/pcie.c: what is written from some pages can be read into
-- others.
use linux_device_driver.Prelude.{
  ℕ, ◌+◌, ◌*◌, ◌<◌, ◌≡◌, refl, sym, ◌∙◌, ap, ap₂, Bool, true, false, List, [], ◌∷◌, ◌==◌, ltb,
  if◌then◌else◌, length, length-append, length-replicate, replicate, blit, slice, slice-blit_self,
  bit_and, arith, subst,
}
use linux_device_driver.Pcie.Transfer.{Desc, payload, dma_ok}
use linux_device_driver.Pcie.Verdict.{sum_len, AllGood}
use linux_device_driver.Pcie.Copy.{gather, Apart, Away}
use linux_device_driver.Dma.Device.{Host, Machine, Ret, done, Dir, to_device, from_device}
use linux_device_driver.Dma.Finished.{IsReady, SameDevice, settled}
use linux_device_driver.Dma.Transfers.{HostLaws}
use linux_device_driver.Sg.Device.{
  SgMachine, SgLuck, pages_of, moved, xfer_mapped, xfer_pinned, xfer_at, dma_sg_xfer, dma_sg_rw,
  clamp_sg, advance,
}
use linux_device_driver.Sg.Started.{reached_same}
use linux_device_driver.Sg.Transfers.{
  CanRun, run_lem, started, begun, sent_lem, fetched_lem, started-IsReady, started-SameDevice,
}

-- All pages of the buffer are pinned, and there are a table and a mapping.
pub record IsPinned (luck : SgLuck) (offset count : ℕ) : Type 0 where
  pub pages : luck.pinned ≡ done (pages_of offset count)
  pub table : luck.table ≡ done 0
  pub mapping : luck.mapping ≡ done 0

both_false :
    {A : Type 0} (x y z : A) (a b : Bool)
    → a ≡ false
    → b ≡ false
    → (if a then x else if b then y else z) ≡ z
both_false x y z a b e f = ground arith

module _ {Ram : Type 0} (host : Host Ram) (laws : HostLaws host) where
  open laws use {bus_laws}
  open bus_laws use {peek}

  length-peek : (ram : Ram) (a n : ℕ) → length (peek ram a n) ≡ n
  length-peek ram a n =
      let zeros = replicate n 0 in
      ap length (
        ap (peek ram a) (sym (length-replicate n 0))
        ∙ sym (bus_laws.dma_read_lem ram a zeros (laws.works.reads ram a zeros)))
      ∙ bus_laws.length-dma_read ram a zeros
      ∙ length-replicate n 0

  length-gather :
      (ram : Ram) (ds : List Desc) → length (gather host.bus bus_laws ram ds) ≡ sum_len ds
  unfolding gather sum_len
  length-gather ram [] = refl
  length-gather ram (d ∷ ds) = omega (
    arith,
    length-append (peek ram d.addr d.len) (gather host.bus bus_laws ram ds),
    length-peek ram d.addr d.len,
    length-gather ram ds,
  )

  -- The machine after a transfer.
  abbrev after :
      (dir : Dir) (m : SgMachine Ram) (luck : SgLuck) (npages pos count t : ℕ)
      → CanRun host bus_laws m.base luck pos count t
      → SgMachine Ram
  after dir m luck npages pos count t c = record {
    base = record {
      dma = record m.base.dma { int_status = 1; completed = true };
      ps = settled (started host laws dir m.base luck pos count t c).0;
      ram = (started host laws dir m.base luck pos count t c).1;
    };
    sg = record m.sg {
      last_pages = npages;
      last_segs = luck.orig_nents;
      last_descs = length luck.segs;
    };
  }

  mapped_lem :
      (dir : Dir) (m : SgMachine Ram) (luck : SgLuck) (npages pos count t : ℕ)
      (c : CanRun host bus_laws m.base luck pos count t)
      → xfer_mapped host luck npages count pos dir m
        ≡ (done count, after dir m luck npages pos count t c)
  unfolding xfer_mapped moved
  mapped_lem dir m luck npages pos count t c =
      let sg' = record m.sg {
        last_pages = npages;
        last_segs = luck.orig_nents;
        last_descs = length luck.segs;
      } in
      ap (moved host count sg') (run_lem host laws dir m.base luck pos count t c)

  pinned_lem :
      (dir : Dir) (m : SgMachine Ram) (luck : SgLuck) (offset pos count t : ℕ)
      (c : CanRun host bus_laws m.base luck pos count t)
      → 0 < count
      → IsPinned luck offset count
      → dma_sg_xfer host luck offset count pos dir m
        ≡ (done count, after dir m luck (pages_of offset count) pos count t c)
  unfolding dma_sg_xfer xfer_at xfer_pinned
  pinned_lem dir m luck offset pos count t c some p =
      let n = pages_of offset count in
      let some_pages : (n == 0) ≡ false = ground arith in
      let enough : ltb n n ≡ false = ground arith in
      ap (λ (r : Ret). xfer_at host r luck offset count pos dir m) p.pages
      ∙ both_false _ _ _ (n == 0) (ltb n n) some_pages enough
      ∙ ap₂ (λ (a b : Ret). xfer_pinned host a b luck n count pos dir m) p.table p.mapping
      ∙ mapped_lem dir m luck n pos count t c

  rw_lem :
      (dir : Dir) (m : SgMachine Ram) (luck : SgLuck) (offset count n pos t : ℕ)
      (c : CanRun host bus_laws m.base luck pos n t)
      → n ≡ clamp_sg count pos offset m.sg.max_desc
      → 0 < n
      → m.base.dma.removed ≡ false
      → IsPinned luck offset n
      → dma_sg_rw host true luck offset count pos dir m
        ≡ (done n, pos + n, after dir m luck (pages_of offset n) pos n t c)
  unfolding dma_sg_rw
  rw_lem dir m luck offset count n pos t c e some here p =
      let k = clamp_sg count pos offset m.sg.max_desc in
      let begins : dma_sg_rw host true luck offset count pos dir m
          ≡ advance pos (dma_sg_xfer host luck offset k pos dir m) =
        ground arith in
      begins
      ∙ ap (λ (j : ℕ). advance pos (dma_sg_xfer host luck offset j pos dir m)) (sym e)
      ∙ ap (advance pos) (pinned_lem dir m luck offset pos n t c some p)

  -- A transfer that can be made is one that can be made after another one, too.
  later :
      (m n : Machine Ram) (luck : SgLuck) (pos count t : ℕ)
      → IsReady n.ps
      → SameDevice m.ps n.ps
      → n.dma.desc_bus ≡ m.dma.desc_bus
      → CanRun host bus_laws m luck pos count t
      → CanRun host bus_laws n luck pos count t
  unfolding dma_ok
  later m n luck pos count t r s e c = record {
    ready = r;
    reached = c.reached;
    late = omega (arith, c.late, s.latency_same);
    some_segs = c.some_segs;
    few_segs = omega (arith, c.few_segs, s.max_desc_same);
    words = c.words;
    good = subst (λ (k : ℕ). AllGood k luck.segs) (sym s.max_seg_same) c.good;
    covers = c.covers;
    within_mem = c.within_mem;
    aligned = omega (arith, c.aligned, e);
    table_word = omega (arith, c.table_word, e);
    table_reached = ground arith;
    segs_reached = reached_same m.ps n.ps luck.segs (sym s.dma64_same) c.segs_reached;
    apart =
        subst (λ (k : ℕ). Away host.bus bus_laws k (length luck.segs * 16) luck.segs) (sym e)
          c.apart;
  }

  -- With no XOR set the device sends what is in its memory.
  plain_payload :
      (m : Machine Ram) (luck : SgLuck) (pos count t : ℕ)
      (c : CanRun host bus_laws m luck pos count t)
      → m.dma.xor ≡ 0
      → payload (begun host laws from_device m luck pos count t c) pos count
        ≡ slice pos count m.ps.mem
  unfolding payload
  plain_payload m luck pos count t c z =
      let none : bit_and (bit_and m.dma.xor 255) 255 ≡ 0 =
        ap (λ (k : ℕ). bit_and (bit_and k 255) 255) z in
      ground arith

  -- What the two calls return and leave.
  abbrev pub BothSg :
      List ℕ
      → List Desc
      → ℕ
      → ℕ
      → SgMachine Ram
      → Ret × ℕ × SgMachine Ram
      → Ret × ℕ × SgMachine Ram
      → Type 0
  BothSg bytes segs pos n m w r =
      (w.0 ≡ done n)
      × (w.1 ≡ pos + n)
      × (w.2.base.ps.mem ≡ blit m.base.ps.mem pos bytes)
      × (r.0 ≡ done n)
      × (r.1 ≡ pos + n)
      × (gather host.bus bus_laws r.2.base.ram segs ≡ bytes)
      × (r.2.base.ps.mem ≡ w.2.base.ps.mem)
      × IsReady r.2.base.ps

  -- With the device ready, the pages of both buffers pinned and mapped to segments that the device reaches, and
  -- no XOR set: a write to /dev/dma_sg takes as many bytes as reach neither behind the on-board memory
  -- nor behind what the descriptors hold, and puts the bytes of its segments there, one segment after the
  -- other; and a read of as many bytes at the same position, into segments that lie apart, which may be
  -- cut in another way, leaves these bytes in them, with the memory kept and the device ready again.
  pub dma_sg_read-dma_sg_write :
      (m : SgMachine Ram) (wl rl : SgLuck) (w_offset r_offset count pos n t1 t2 : ℕ)
      → m.base.dma.removed ≡ false
      → m.base.dma.xor ≡ 0
      → n ≡ clamp_sg count pos w_offset m.sg.max_desc
      → n ≡ clamp_sg n pos r_offset m.sg.max_desc
      → 0 < n
      → IsPinned wl w_offset n
      → IsPinned rl r_offset n
      → CanRun host bus_laws m.base wl pos n t1
      → CanRun host bus_laws m.base rl pos n t2
      → Apart host.bus bus_laws rl.segs
      → (let w = dma_sg_rw host true wl w_offset count pos to_device m in
          let r = dma_sg_rw host true rl r_offset n pos from_device w.2 in
          BothSg (gather host.bus bus_laws m.base.ram wl.segs) rl.segs pos n m w r)
  dma_sg_read-dma_sg_write m wl rl w_offset r_offset count pos n t1 t2 here z e1 e2 some p1 p2 c1 c2
        a =
      let bytes = gather host.bus bus_laws m.base.ram wl.segs in
      let m1 = after to_device m wl (pages_of w_offset n) pos n t1 c1 in
      let c2' : CanRun host bus_laws m1.base rl pos n t2 =
        later m.base m1.base rl pos n t2 (started-IsReady host laws to_device m.base wl pos n t1 c1)
          (started-SameDevice host laws to_device m.base wl pos n t1 c1) refl c2 in
      let m2 = after from_device m1 rl (pages_of r_offset n) pos n t2 c2' in
      let sent = sent_lem host laws m.base wl pos n t1 c1 in
      let fetched = fetched_lem host laws m1.base rl pos n t2 c2' a in
      let size : length bytes ≡ n = length-gather m.base.ram wl.segs ∙ c1.covers in
      let same =
        fetched.1
        ∙ plain_payload m1.base rl pos n t2 c2' z
        ∙ ap (slice pos n) sent
        ∙ ap (λ (k : ℕ). slice pos k (blit m.base.ps.mem pos bytes)) (sym size)
        ∙ slice-blit_self m.base.ps.mem pos bytes
            (omega (arith, size, c1.within_mem, c1.ready.valid.size)) in
      subst
        (λ (w : Ret × ℕ × SgMachine Ram).
          BothSg bytes rl.segs pos n m w (dma_sg_rw host true rl r_offset n pos from_device w.2))
        (sym (rw_lem to_device m wl w_offset count n pos t1 c1 e1 some here p1))
        (subst (BothSg bytes rl.segs pos n m (done n, pos + n, m1))
          (sym (rw_lem from_device m1 rl r_offset n n pos t2 c2' e2 some here p2))
          (
            refl,
            refl,
            sent,
            refl,
            refl,
            same,
            fetched.0,
            started-IsReady host laws from_device m1.base rl pos n t2 c2',
          ))
