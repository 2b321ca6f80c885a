-- ===== src/Block/Walks.antt =====
-- examples/29_block_device/main.c: a request walked segment by segment, and bio by bio.
use linux_device_driver.Prelude.{
  ℕ, ◌≡◌, ◌≢◌, refl, sym, ◌∙◌, ap, Bool, true, false, List, [], ◌∷◌, ◌++◌, if◌then◌else◌,
}
use linux_device_driver.Block.Device.{
  Status, ok, ioerr, notsupp, Op, read, write, other, Memdisk, Segment, Bio, Request, Outcome,
  is_write, past, memdisk_transfer, go_on, behind, walk, memdisk_xfer_bio, segments_of, flat,
  go_on_bios, walk_bios, untouched, memdisk_rw, queue_rq_simple, queue_rq_full,
}

-- The sector behind some segments.
abbrev pub after : ℕ → List Segment → ℕ
after sector [] = sector
after sector (v ∷ vs) = after (past sector v) vs

-- Bios that cover consecutive sectors from one on, each with a segment at least.
abbrev pub Follow : ℕ → List Bio → Type 0
Follow sector [] = Unit
Follow sector (b ∷ bs) =
    (b.sector ≡ sector) × (b.segments ≢ []) × Follow (after sector b.segments) bs

-- The outcome of a walk with that of the rest, which is not begun after an error.
abbrev then_walk :
    Outcome (List Segment)
    → List Segment
    → (Memdisk → Outcome (List Segment))
    → Outcome (List Segment)
then_walk r ws more =
    go_on r.status
      (record {
        disk = (more r.disk).disk;
        memory = r.memory ++ (more r.disk).memory;
        status = (more r.disk).status;
      })
      (record { disk = r.disk; memory = r.memory ++ ws; status = r.status })

behind-go_on :
    (v : Segment) (st : Status) (x y : Outcome (List Segment))
    → behind v (go_on st x y) ≡ go_on st (behind v x) (behind v y)
behind-go_on v ok x y = refl
behind-go_on v ioerr x y = refl
behind-go_on v notsupp x y = refl

-- One transfer before a walk that is cut in two.
one_more :
    (st : Status) (v : Segment) (dev : Memdisk) (vs ws : List Segment)
    (x y : Outcome (List Segment)) (more : Memdisk → Outcome (List Segment))
    → x ≡ then_walk y ws more
    → go_on st (behind v x) (record { disk = dev; memory = v ∷ (vs ++ ws); status = st })
      ≡ then_walk
          (go_on st (behind v y) (record { disk = dev; memory = v ∷ vs; status = st }))
          ws
          more
one_more ok v dev vs ws x y more e =
    ap (behind v) e
    ∙ behind-go_on v y.status
        (record {
          disk = (more y.disk).disk;
          memory = y.memory ++ (more y.disk).memory;
          status = (more y.disk).status;
        })
        (record { disk = y.disk; memory = y.memory ++ ws; status = y.status })
one_more ioerr v dev vs ws x y more e = refl
one_more notsupp v dev vs ws x y more e = refl

-- Walking on after a first part.
pub walk-append :
    (d : Bool) (sector : ℕ) (vs ws : List Segment) (dev : Memdisk)
    → walk ok d sector (vs ++ ws) dev
      ≡ then_walk (walk ok d sector vs dev) ws (walk ok d (after sector vs) ws)
unfolding walk
walk-append d sector [] ws dev = refl
walk-append d sector (v ∷ vs) ws dev =
    let r = memdisk_transfer d sector v dev in
    one_more r.status r.memory r.disk vs ws (walk ok d (past sector v) (vs ++ ws) r.disk)
      (walk ok d (past sector v) vs r.disk) (walk ok d (after (past sector v) vs) ws)
      (walk-append d (past sector v) vs ws r.disk)

abbrev pub flat_outcome : Outcome (List (List Segment)) → Outcome (List Segment)
flat_outcome o = record { disk = o.disk; memory = flat o.memory; status = o.status }

one_bio_more :
    (st : Status) (vs : List Segment) (dev : Memdisk) (bs : List Bio)
    (x : Memdisk → Outcome (List (List Segment))) (more : Memdisk → Outcome (List Segment))
    → flat_outcome (x dev) ≡ more dev
    → flat_outcome (
        go_on_bios st
          (behind vs (x dev))
          (record { disk = dev; memory = vs ∷ segments_of bs; status = st }))
      ≡ then_walk (record { disk = dev; memory = vs; status = st }) (flat (segments_of bs)) more
one_bio_more ok vs dev bs x more e =
    ap
      (λ (o : Outcome (List Segment)). record {
        disk = o.disk;
        memory = vs ++ o.memory;
        status = o.status;
      })
      e
one_bio_more ioerr vs dev bs x more e = refl
one_bio_more notsupp vs dev bs x more e = refl

walk_bios-flat :
    (d : Bool) (sector : ℕ) (bs : List Bio) (dev : Memdisk)
    → Follow sector bs
    → flat_outcome (walk_bios ok d bs dev) ≡ walk ok d sector (flat (segments_of bs)) dev
unfolding walk_bios
walk_bios-flat d sector [] dev f = refl
walk_bios-flat d sector (b ∷ bs) dev f =
    let r = memdisk_xfer_bio d b dev in
    let behind_it = flat (segments_of bs) in
    let more = walk ok d (after sector b.segments) behind_it in
    one_bio_more r.status r.memory r.disk bs (walk_bios ok d bs) more
      (walk_bios-flat d (after sector b.segments) bs r.disk f.2)
    ∙ ap (λ (k : ℕ). then_walk (walk ok d k b.segments dev) behind_it more) f.0
    ∙ sym (walk-append d sector b.segments behind_it dev)

-- With a segment at least, it is no matter from which status a walk starts.
walk-start :
    (d : Bool) (sector : ℕ) (vs ws : List Segment) (dev : Memdisk)
    → vs ≢ []
    → walk notsupp d sector (vs ++ ws) dev ≡ walk ok d sector (vs ++ ws) dev
unfolding walk
walk-start d sector [] ws dev h = absurd (h refl)
walk-start d sector (v ∷ vs) ws dev h = refl

walk_bios-start :
    (d : Bool) (sector : ℕ) (bs : List Bio) (dev : Memdisk)
    → Follow sector bs
    → flat_outcome (walk_bios notsupp d bs dev) ≡ walk notsupp d sector (flat (segments_of bs)) dev
unfolding walk_bios
walk_bios-start d sector [] dev f = refl
walk_bios-start d sector (b ∷ bs) dev f =
    walk_bios-flat d sector (b ∷ bs) dev f
    ∙ sym (walk-start d sector b.segments (flat (segments_of bs)) dev f.1)

by_op :
    (op : Op) (sector : ℕ) (bs : List Bio) (dev : Memdisk)
    → Follow sector bs
    → flat_outcome (
        if memdisk_rw op
        then walk_bios notsupp (is_write op) bs dev
        else untouched (segments_of bs) dev)
      ≡ (if memdisk_rw op
          then walk notsupp (is_write op) sector (flat (segments_of bs)) dev
          else untouched (flat (segments_of bs)) dev)
by_op read sector bs dev f = walk_bios-start false sector bs dev f
by_op write sector bs dev f = walk_bios-start true sector bs dev f
by_op other sector bs dev f = refl

-- A request whose bios have a segment each at least and cover consecutive sectors from its position on:
-- taken bio by bio it leaves the disk, the memory of its segments and the status that it leaves when
-- its segments are taken in one loop, for all operations, and where a segment lies outside the disk too.
pub queue_rq_full-simple :
    (rq : Request) (dev : Memdisk)
    → Follow rq.pos rq.bios
    → flat_outcome (queue_rq_full rq dev) ≡ queue_rq_simple rq dev
unfolding queue_rq_full queue_rq_simple
queue_rq_full-simple rq dev f = by_op rq.op rq.pos rq.bios dev f
