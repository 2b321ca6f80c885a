-- ===== src/Sg/Transfers.antt =====
-- examples/28_dma_sg/main.c with tools/qemu/hw/ldd/pcie.c: a transfer over the user's pages, from the table to
-- the result.
use linux_device_driver.Prelude.{
  ℕ, ◌+◌, ◌*◌, ◌%◌, ◌^◌, ◌≤◌, ◌<◌, ◌≡◌, ◌⊎◌, refl, sym, ◌∙◌, ap, ap₂, true, false, some, List, [],
  ◌∷◌, ◌++◌, length, blit, bit_and, arith, subst, inl, inr,
}
use linux_device_driver.Pcie.State.{Pcie, BusLaws, ldd_mem_size}
use linux_device_driver.Pcie.Transfer.{Desc, start, dma_ok, payload}
use linux_device_driver.Pcie.Irq.{update_irq}
use linux_device_driver.Prelude.Bits.{bit_and_255}
use linux_device_driver.Pcie.Invariant.{IsValid, start-IsValid}
use linux_device_driver.Pcie.Verdict.{sum_len, AllGood}
use linux_device_driver.Pcie.Checks.{descs_of}
use linux_device_driver.Pcie.Copy.{gather, Apart, Away}
use linux_device_driver.Pcie.Engine.{start_to_device, start-to_guest}
use linux_device_driver.Dma.Device.{Host, Machine, done, Dir, to_device, from_device, wait, settle}
use linux_device_driver.Dma.Setup.{set_up_table, ready_to_start, iowrites-table_writes}
use linux_device_driver.Dma.Finished.{
  IsReady, SameDevice, started_lem, settled, wait_lem, settled-IsReady,
}
use linux_device_driver.Dma.Transfers.{HostLaws, SameDevice-trans, same-IsRealizable}
use linux_device_driver.Sg.Device.{SgLuck, encode_table, launch_run, dma_sg_run}
use linux_device_driver.Sg.Table.{AllWords, AllReached, length-encode_table}
use linux_device_driver.Sg.Started.{descs_lem, start_zero, reached_same}

module _ (dir : Dir) (xor desc_bus count pos : ℕ) (ps : Pcie) where
  -- The device as the last write starts it.
  abbrev pub at_start : Pcie
  at_start = ready_to_start dir xor (set_up_table desc_bus count pos ps)

  at_start-IsValid : IsValid ps → desc_bus < 2 ^ 64 → desc_bus % 16 ≡ 0 → IsValid at_start
  at_start-IsValid v a b = valid_for dir v a b
    where
      valid_for :
          (d : Dir)
          → IsValid ps
          → desc_bus < 2 ^ 64
          → desc_bus % 16 ≡ 0
          → IsValid (ready_to_start d xor (set_up_table desc_bus count pos ps))
      valid_for to_device v a b = ground arith
      valid_for from_device v a b = ground (arith, bit_and_255 (bit_and xor 255))

  at_start-SameDevice : SameDevice ps at_start
  at_start-SameDevice = ground arith

settled-SameDevice : (ps : Pcie) → SameDevice ps (settled ps)
unfolding update_irq
settled-SameDevice ps = ground arith

-- A transfer over the segments that can be made: the device is ready and reaches the table and the segments,
-- which lie apart from it; there are no more of them than the device takes, each of a length that it
-- takes, and together they have `count` bytes; the range lies in the on-board memory; and the clock
-- goes on until the device is done.
pub record CanRun {Ram : Type 0} (host : Host Ram) (bus_laws : BusLaws host.bus) (m : Machine Ram)
    (luck : SgLuck) (pos count t : ℕ) : Type 0 where
  pub ready : IsReady m.ps
  pub reached : luck.reached ≡ some t
  pub late : luck.now + m.ps.latency_us ≤ t
  pub some_segs : 0 < length luck.segs
  pub few_segs : length luck.segs ≤ m.ps.max_desc
  pub words : AllWords luck.segs
  pub good : AllGood m.ps.max_seg luck.segs
  pub covers : sum_len luck.segs ≡ count
  pub within_mem : pos + count ≤ ldd_mem_size
  pub aligned : m.dma.desc_bus % 16 ≡ 0
  pub table_word : m.dma.desc_bus < 2 ^ 64
  pub table_reached : dma_ok m.ps m.dma.desc_bus (length luck.segs * 16) ≡ true
  pub segs_reached : AllReached m.ps luck.segs
  pub apart : Away host.bus bus_laws m.dma.desc_bus (length luck.segs * 16) luck.segs

module _ {Ram : Type 0} (host : Host Ram) (laws : HostLaws host) where
  open laws use {bus_laws}
  open bus_laws use {peek}

  -- The table is stored next to the segments, not in them.
  gather-store :
      (ram : Ram) (a : ℕ) (bytes : List ℕ) (ds : List Desc)
      → Away host.bus bus_laws a (length bytes) ds
      → gather host.bus bus_laws (host.store ram a bytes) ds ≡ gather host.bus bus_laws ram ds
  unfolding gather
  gather-store ram a bytes [] w = refl
  gather-store ram a bytes (d ∷ ds) (w, ws) =
      ap₂ (λ (x : List ℕ) (y : List ℕ). x ++ y)
        (laws.store_apart ram a bytes d.addr d.len (other_way w)) (gather-store ram a bytes ds ws)
    where
      other_way :
          (d.addr + d.len ≤ a) ⊎ (a + length bytes ≤ d.addr)
          → (a + length bytes ≤ d.addr) ⊎ (d.addr + d.len ≤ a)
      other_way (inl x) = inr x
      other_way (inr x) = inl x

  module _ (dir : Dir) (m : Machine Ram) (luck : SgLuck) (pos count t : ℕ)
      (c : CanRun host bus_laws m luck pos count t) where
    abbrev pub with_table : Ram
    with_table = host.store m.ram m.dma.desc_bus (encode_table luck.segs)

    abbrev pub begun : Pcie
    begun = at_start dir m.dma.xor m.dma.desc_bus (length luck.segs) pos m.ps

    abbrev pub started : Pcie × Ram
    started = start host.bus luck.now begun with_table

    stored : peek with_table m.dma.desc_bus (length luck.segs * 16) ≡ encode_table luck.segs
    stored =
        ap (peek with_table m.dma.desc_bus) (sym (length-encode_table luck.segs))
        ∙ laws.store_lem m.ram m.dma.desc_bus (encode_table luck.segs)

    table_lem : descs_of host.bus begun with_table ≡ luck.segs
    table_lem =
        descs_lem host.bus bus_laws laws.works luck.segs begun with_table refl stored c.words

    started_zero : started.0.regs.result ≡ 0
    unfolding dma_ok
    started_zero =
        start_zero host.bus bus_laws laws.works luck.now luck.segs begun with_table
          c.ready.bus_master c.some_segs c.few_segs refl stored c.words c.good
          (omega (arith, c.within_mem, c.covers)) c.table_reached
          (reached_same m.ps begun luck.segs refl c.segs_reached)

    -- What the wait leaves, and what `dma_sg_run` returns then.
    pub run_lem :
        dma_sg_run host luck (length luck.segs) pos dir (record m { ram = with_table }) ≡ (
          done 0,
          record {
            dma = record m.dma { int_status = 1; completed = true };
            ps = settled started.0;
            ram = started.1;
          },
        )
    unfolding dma_sg_run launch_run settle
    run_lem =
        let s = started_lem host.bus luck.now begun with_table in
        let m' : Machine Ram = record {
          dma = record m.dma { completed = false };
          ps = started.0;
          ram = started.1;
        } in
        let launched =
          iowrites-table_writes host luck.now m.dma.desc_bus (length luck.segs) pos dir m.dma.xor
            m.ps with_table c.ready.idle c.table_word c.aligned
            (omega (arith, c.few_segs, c.ready.realizable.desc_high))
            (omega (arith, c.within_mem)) in
        ap
          (λ (r : Pcie × Ram). settle host luck.now (
            wait host luck.reached
              (record { dma = record m.dma { completed = false }; ps = r.0; ram = r.1 })))
          launched
        ∙ ap (λ (o : _). settle host luck.now (wait host o m')) c.reached
        ∙ ap (settle host luck.now) (
            wait_lem host (luck.now + m.ps.latency_us) t m' s.1 c.late started_zero
              (s.2 ∙ c.ready.quiet) (s.3 ∙ c.ready.unmasked))

    device_same : SameDevice m.ps started.0
    device_same =
        SameDevice-trans m.ps begun started.0
          (at_start-SameDevice dir m.dma.xor m.dma.desc_bus (length luck.segs) pos m.ps)
          (started_lem host.bus luck.now begun with_table).0

    pub started-SameDevice : SameDevice m.ps (settled started.0)
    started-SameDevice =
        SameDevice-trans m.ps started.0 (settled started.0) device_same
          (settled-SameDevice started.0)

    begun-IsValid : IsValid begun
    begun-IsValid =
        at_start-IsValid dir m.dma.xor m.dma.desc_bus (length luck.segs) pos m.ps c.ready.valid
          c.table_word c.aligned

    pub started-IsReady : IsReady (settled started.0)
    started-IsReady =
        settled-IsReady started.0 (start-IsValid host.bus luck.now begun with_table begun-IsValid)
          (same-IsRealizable m.ps started.0 device_same c.ready.realizable)
          (device_same.master_same ∙ c.ready.bus_master)
          ((started_lem host.bus luck.now begun with_table).3 ∙ c.ready.unmasked)

    kept : gather host.bus bus_laws with_table luck.segs ≡ gather host.bus bus_laws m.ram luck.segs
    kept = gather-store m.ram m.dma.desc_bus (encode_table luck.segs) luck.segs (
        subst (λ (k : ℕ). Away host.bus bus_laws m.dma.desc_bus k luck.segs)
          (sym (length-encode_table luck.segs)) c.apart)

  -- A transfer to the device: the bytes of the segments, one after the other, stand at `pos`.
  pub sent_lem :
      (m : Machine Ram) (luck : SgLuck) (pos count t : ℕ)
      (c : CanRun host bus_laws m luck pos count t)
      → (settled (started to_device m luck pos count t c).0).mem
        ≡ blit m.ps.mem pos (gather host.bus bus_laws m.ram luck.segs)
  unfolding update_irq
  sent_lem m luck pos count t c =
      let ps = begun to_device m luck pos count t c in
      let ram = with_table to_device m luck pos count t c in
      let s =
        start_to_device host.bus bus_laws luck.now ps ram
          (begun-IsValid to_device m luck pos count t c)
          (same-IsRealizable m.ps ps
            (at_start-SameDevice to_device m.dma.xor m.dma.desc_bus (length luck.segs) pos m.ps)
            c.ready.realizable)
          refl (started_zero to_device m luck pos count t c) in
      s.2
      ∙ ap (λ (ds : List Desc). blit m.ps.mem pos (gather host.bus bus_laws ram ds))
          (table_lem to_device m luck pos count t c)
      ∙ ap (blit m.ps.mem pos) (kept to_device m luck pos count t c)

  -- A transfer from the device: the on-board memory stays, and the segments hold what is sent.
  pub fetched_lem :
      (m : Machine Ram) (luck : SgLuck) (pos count t : ℕ)
      (c : CanRun host bus_laws m luck pos count t)
      → Apart host.bus bus_laws luck.segs
      → ((settled (started from_device m luck pos count t c).0).mem ≡ m.ps.mem)
        × (gather host.bus bus_laws (started from_device m luck pos count t c).1 luck.segs
            ≡ payload (begun from_device m luck pos count t c) pos count)
  unfolding update_irq
  fetched_lem m luck pos count t c w =
      let ps = begun from_device m luck pos count t c in
      let ram = with_table from_device m luck pos count t c in
      let table = table_lem from_device m luck pos count t c in
      let ram' = (started from_device m luck pos count t c).1 in
      let s =
        start-to_guest host.bus bus_laws luck.now ps ram
          (begun-IsValid from_device m luck pos count t c)
          (same-IsRealizable m.ps ps
            (at_start-SameDevice from_device m.dma.xor m.dma.desc_bus (length luck.segs) pos m.ps)
            c.ready.realizable)
          refl (subst (Apart host.bus bus_laws) (sym table) w)
          (started_zero from_device m luck pos count t c) in
      (
        s.1,
        ap (gather host.bus bus_laws ram') (sym table)
            ∙ s.2
            ∙ ap (λ (ds : List Desc). payload ps pos (sum_len ds)) table
            ∙ ap (payload ps pos) c.covers,
      )
