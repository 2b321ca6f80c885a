-- ===== src/Sg/Tests.antt =====
-- examples/28_dma_sg: the theorems at a device of 1 MiB, with a buffer of two segments written and read back
-- into one of three.
use linux_device_driver.Prelude.{
  ℕ, ◌*◌, ◌≤◌, ◌<◌, ◌≡◌, refl, sym, ap, inr, true, some, List, [], ◌∷◌, min, arith,
}
use linux_device_driver.Pcie.Transfer.{Desc, dma_ok}
use linux_device_driver.Pcie.Machine.{realized}
use linux_device_driver.Pcie.TotalRam.{Memory}
use linux_device_driver.Pcie.Copy.{gather}
use linux_device_driver.Pcie.Verdict.{IsGood, sum_len}
use linux_device_driver.Dma.Device.{Ret, done, to_device, from_device}
use linux_device_driver.Dma.Plain.{plain, plain-HostLaws, probed, probed-IsAlive}
use linux_device_driver.Sg.Device.{SgMachine, SgLuck, pages_of, dma_sg_rw}
use linux_device_driver.Sg.Transfers.{CanRun}
use linux_device_driver.Sg.Guarded.{guarded}
use linux_device_driver.Sg.Bounds.{IsWithin, dma_sg_rw-IsWithin}
use linux_device_driver.Sg.RoundTrip.{BothSg, IsPinned, dma_sg_read-dma_sg_write}

abbrev probed_sg : SgMachine Memory
probed_sg = record {
  base = probed;
  sg = record { max_desc = 256; last_pages = 0; last_segs = 0; last_descs = 0 };
}

abbrev seg : ℕ → ℕ → Desc
seg a n = record { addr = a; len = n; flags = 0 }

abbrev calm : List Desc → SgLuck
calm segs = record {
  pinned = done 1;
  table = done 0;
  mapping = done 0;
  segs = segs;
  orig_nents = 3;
  now = 5;
  reached = some 200;
}

abbrev out : List Desc
out = seg 0x20000 4 ∷ seg 0x30000 6 ∷ []

abbrev back : List Desc
back = seg 0x40000 1 ∷ seg 0x50000 1 ∷ seg 0x60000 8 ∷ []

seg-IsGood : (a n : ℕ) → 0 < n → n ≤ 65536 → IsGood 65536 (seg a n)
seg-IsGood a n h k = record { some_bytes = h; within_seg = k; no_flags = refl }

calm-IsPinned : (segs : List Desc) (offset : ℕ) → offset ≡ 0x100 → IsPinned (calm segs) offset 10
calm-IsPinned segs offset e = record {
  pages = ap (λ (k : ℕ). done (pages_of k 10)) (sym e);
  table = refl;
  mapping = refl;
}

out-CanRun : CanRun plain plain-HostLaws.bus_laws probed (calm out) 0x40 10 200
unfolding realized dma_ok sum_len
out-CanRun = record {
  ready = probed-IsAlive.ready;
  reached = refl;
  late = omega arith;
  some_segs = omega arith;
  few_segs = omega arith;
  words = ((omega arith, omega arith, refl), ((omega arith, omega arith, refl), tt));
  good = (
    seg-IsGood _ _ (omega arith) (omega arith),
    (seg-IsGood _ _ (omega arith) (omega arith), tt),
  );
  covers = refl;
  within_mem = omega arith;
  aligned = refl;
  table_word = omega arith;
  table_reached = refl;
  segs_reached = (refl, (refl, tt));
  apart = (inr (omega arith), (inr (omega arith), tt));
}

back-CanRun : CanRun plain plain-HostLaws.bus_laws probed (calm back) 0x40 10 200
unfolding realized dma_ok sum_len
back-CanRun = record {
  ready = probed-IsAlive.ready;
  reached = refl;
  late = omega arith;
  some_segs = omega arith;
  few_segs = omega arith;
  words = (
    (omega arith, omega arith, refl),
    ((omega arith, omega arith, refl), ((omega arith, omega arith, refl), tt)),
  );
  good = (
    seg-IsGood _ _ (omega arith) (omega arith),
    (seg-IsGood _ _ (omega arith) (omega arith), (seg-IsGood _ _ (omega arith) (omega arith), tt)),
  );
  covers = refl;
  within_mem = omega arith;
  aligned = refl;
  table_word = omega arith;
  table_reached = refl;
  segs_reached = (refl, (refl, (refl, tt)));
  apart = (inr (omega arith), (inr (omega arith), (inr (omega arith), tt)));
}

-- The buffer that is written begins 0x100 bytes into a page.
dma_sg_read-dma_sg_write_example :
    (let w = dma_sg_rw plain true (calm out) 0x100 10 0x40 to_device probed_sg in
      let r = dma_sg_rw plain true (calm back) 0x100 10 0x40 from_device w.2 in
      BothSg plain plain-HostLaws
        (gather plain.bus plain-HostLaws.bus_laws probed_sg.base.ram out)
        back
        0x40
        10
        probed_sg
        w
        r)
dma_sg_read-dma_sg_write_example =
    dma_sg_read-dma_sg_write plain plain-HostLaws probed_sg (calm out) (calm back) 0x100 0x100 10
      0x40 10 200 200 refl refl (omega arith) (omega arith) (omega arith)
      (calm-IsPinned out 0x100 refl) (calm-IsPinned back 0x100 refl) out-CanRun back-CanRun
      ((inr (omega arith), (inr (omega arith), tt)), ((inr (omega arith), tt), (tt, tt)))

abbrev number : Ret → ℕ
number (done k) = k
number r = 0

-- A buffer that begins at the end of a page, of which one page of two can be pinned.
abbrev short_luck : SgLuck
short_luck = record (calm (seg 0x20000 4 ∷ [])) { pinned = done 1 }

dma_sg_rw-IsWithin_example :
    (0 < 10 → pages_of 0xffc 10 ≤ 256)
    × IsWithin (dma_sg_rw plain true short_luck 0xffc 10 0x40 to_device probed_sg).2.sg
    × (dma_sg_rw
          (guarded plain probed.dma.desc_bus (256 * 16))
          true
          short_luck
          0xffc
          10
          0x40
          to_device
          probed_sg
        ≡ dma_sg_rw plain true short_luck 0xffc 10 0x40 to_device probed_sg)
dma_sg_rw-IsWithin_example =
    dma_sg_rw-IsWithin plain true short_luck 0xffc 10 0x40 to_device probed_sg
      (record { pages = omega arith; descs = omega arith }) (omega arith) few
  where
    few : (k : ℕ) → done 1 ≡ done k → 1 ≤ min k 2
    few k e = let same : 1 ≡ k = ap number e in omega arith
