-- ===== src/Block/Contents.antt =====
-- examples/29_block_device/main.c: what requests do to the disk's contents.
use linux_device_driver.Prelude.{
  ℕ, ◌+◌, ◌*◌, ◌%◌, ◌^◌, ◌≤◌, ◌<◌, ◌≡◌, ◌≢◌, refl, sym, subst, ◌∙◌, ap, Bool, true, false, List, [],
  ◌∷◌, ◌++◌, length, slice, blit, blit-nil, blit-blit, length-blit, length-append,
  slice-append-slice, slice-blit_self, arith,
}
use linux_device_driver.Block.Device.{
  ok, notsupp, read, write, Memdisk, Segment, Bio, Outcome, past, offset_of, memdisk_transfer,
  go_on, behind, walk, segments_of, flat, queue_rq_simple,
}

-- Each segment is a number of whole sectors.
abbrev pub Whole : List Segment → Type 0
Whole [] = Unit
Whole (v ∷ vs) = (length v % 512 ≡ 0) × Whole vs

-- `size` is that of the contents, and the range of `n` bytes from a sector on lies inside.
abbrev pub Within : ℕ → ℕ → Memdisk → Type 0
Within sector n dev =
    (dev.size ≡ length dev.bytes) × (dev.size < 2 ^ 63) × (sector * 512 + n ≤ dev.size)

module _ (sector : ℕ) (v : Segment) (dev : Memdisk) (w : Within sector (length v) dev) where
  write_lem : memdisk_transfer true sector v dev ≡ record {
    disk = record dev { bytes = blit dev.bytes (sector * 512) v };
    memory = v;
    status = ok;
  }
  unfolding memdisk_transfer
  write_lem = let e : offset_of sector ≡ sector * 512 = omega arith in ground (arith, e)

  read_lem :
      memdisk_transfer false sector v dev
      ≡ record { disk = dev; memory = slice (sector * 512) (length v) dev.bytes; status = ok }
  unfolding memdisk_transfer
  read_lem = let e : offset_of sector ≡ sector * 512 = omega arith in ground (arith, e)

-- What a write of segments leaves, and where their bytes go.
abbrev pub written : ℕ → List Segment → Memdisk → Outcome (List Segment)
written sector vs dev = record {
  disk = record dev { bytes = blit dev.bytes (sector * 512) (flat vs) };
  memory = vs;
  status = ok;
}

walk-write :
    (sector : ℕ) (vs : List Segment) (dev : Memdisk)
    → Whole vs
    → Within sector (length (flat vs)) dev
    → walk ok true sector vs dev ≡ written sector vs dev
unfolding walk
walk-write sector [] dev a w =
    ap (λ (bs : List ℕ). record { disk = record dev { bytes = bs }; memory = []; status = ok })
      (sym (blit-nil dev.bytes (sector * 512)))
walk-write sector (v ∷ vs) dev a w =
    let total = length-append v (flat vs) in
    let here : Within sector (length v) dev = (w.0, w.1, omega arith) in
    let dev' = record dev { bytes = blit dev.bytes (sector * 512) v } in
    let len = length-blit dev.bytes (sector * 512) v in
    let next : past sector v * 512 ≡ sector * 512 + length v = omega arith in
    let ih = walk-write (past sector v) vs dev' a.1 (omega arith, w.1, omega arith) in
    ap
      (λ (r : Outcome Segment).
        go_on r.status (behind r.memory (walk ok true (past sector v) vs r.disk))
          (record { disk = r.disk; memory = r.memory ∷ vs; status = r.status }))
      (write_lem sector v dev here)
    ∙ ap (behind v) ih
    ∙ ap
        (λ (bs : List ℕ). record { disk = record dev { bytes = bs }; memory = v ∷ vs; status = ok })
        (blit-blit dev.bytes (sector * 512) (past sector v * 512) v (flat vs) next)

-- A read of segments.
abbrev pub Fetched : ℕ → List Segment → Memdisk → Outcome (List Segment) → Type 0
Fetched sector vs dev o =
    (o.disk ≡ dev)
    × (flat o.memory ≡ slice (sector * 512) (length (flat vs)) dev.bytes)
    × (o.status ≡ ok)

walk-read :
    (sector : ℕ) (vs : List Segment) (dev : Memdisk)
    → Whole vs
    → Within sector (length (flat vs)) dev
    → Fetched sector vs dev (walk ok false sector vs dev)
unfolding walk
walk-read sector [] dev a w = (refl, refl, refl)
walk-read sector (v ∷ vs) dev a w =
    let total = length-append v (flat vs) in
    let here : Within sector (length v) dev = (w.0, w.1, omega arith) in
    let next : past sector v * 512 ≡ sector * 512 + length v = omega arith in
    let ih = walk-read (past sector v) vs dev a.1 (w.0, w.1, omega arith) in
    subst
      (λ (r : Outcome Segment). Fetched sector (v ∷ vs) dev (
        go_on r.status (behind r.memory (walk ok false (past sector v) vs r.disk))
          (record { disk = r.disk; memory = r.memory ∷ vs; status = r.status })))
      (sym (read_lem sector v dev here))
      (
        ih.0,
        ap (λ (bs : List ℕ). slice (sector * 512) (length v) dev.bytes ++ bs) ih.1
            ∙ slice-append-slice dev.bytes (sector * 512) (length v) (length (flat vs))
                (past sector v * 512) next (omega arith)
            ∙ ap (λ (n : ℕ). slice (sector * 512) n dev.bytes) (sym total),
        ih.2,
      )

start_ok :
    (d : Bool) (sector : ℕ) (vs : List Segment) (dev : Memdisk)
    → vs ≢ []
    → walk notsupp d sector vs dev ≡ walk ok d sector vs dev
unfolding walk
start_ok d sector [] dev h = absurd (h refl)
start_ok d sector (v ∷ vs) dev h = refl

-- A write request and then a read request at the same position, each of one or more segments of whole
-- sectors, of as many bytes in all, divided into bios and segments in any way, inside the disk: both are
-- completed with OK. The write puts its segments' bytes one behind the other at the position and leaves
-- the rest of the disk; the read leaves the disk and fetches those bytes.
pub queue_rq_simple-round_trip :
    (pos : ℕ) (ws rs : List Bio) (dev : Memdisk)
    → flat (segments_of ws) ≢ []
    → flat (segments_of rs) ≢ []
    → Whole (flat (segments_of ws))
    → Whole (flat (segments_of rs))
    → length (flat (flat (segments_of rs))) ≡ length (flat (flat (segments_of ws)))
    → Within pos (length (flat (flat (segments_of ws)))) dev
    → (let w = queue_rq_simple (record { pos = pos; op = write; bios = ws }) dev in
        let r = queue_rq_simple (record { pos = pos; op = read; bios = rs }) w.disk in
        (w.status ≡ ok)
        × (w.disk
            ≡ record dev { bytes = blit dev.bytes (pos * 512) (flat (flat (segments_of ws))) })
        × (r.status ≡ ok)
        × (r.disk ≡ w.disk)
        × (flat r.memory ≡ flat (flat (segments_of ws))))
unfolding queue_rq_simple
queue_rq_simple-round_trip pos ws rs dev some_w some_r aw ar same w =
    let vs = flat (segments_of ws) in
    let us = flat (segments_of rs) in
    let bytes = flat vs in
    let dev' = record dev { bytes = blit dev.bytes (pos * 512) bytes } in
    let len = length-blit dev.bytes (pos * 512) bytes in
    let put = start_ok true pos vs dev some_w ∙ walk-write pos vs dev aw w in
    let disk = ap (λ (o : Outcome (List Segment)). o.disk) put in
    let got : Fetched pos us (walk notsupp true pos vs dev).disk
        (walk notsupp false pos us (walk notsupp true pos vs dev).disk) =
      subst (λ k. Fetched pos us k (walk notsupp false pos us k)) (sym disk)
        (subst (Fetched pos us dev') (sym (start_ok false pos us dev' some_r))
          (walk-read pos us dev' ar (omega arith, w.1, omega arith))) in
    (
      ap (λ (o : Outcome (List Segment)). o.status) put,
      disk,
      got.2,
      got.0,
      got.1
          ∙ ap (λ (k : Memdisk). slice (pos * 512) (length (flat us)) k.bytes) disk
          ∙ ap (λ (n : ℕ). slice (pos * 512) n (blit dev.bytes (pos * 512) bytes)) same
          ∙ slice-blit_self dev.bytes (pos * 512) bytes (omega arith),
    )
