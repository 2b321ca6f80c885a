-- ===== src/Block/Device.antt =====
-- examples/29_block_device/main.c: the RAM disk and its three ways to take a request.
use linux_device_driver.Prelude.{
  ℕ, ◌+◌, ◌*◌, ◌/◌, ◌%◌, ◌^◌, Bool, true, false, List, [], ◌∷◌, ◌++◌, ltb, if◌then◌else◌, length,
  slice, blit,
}

-- `blk_status_t`: BLK_STS_OK, BLK_STS_IOERR and BLK_STS_NOTSUPP.
pub data Status : Type 0 where
  ok ioerr notsupp : Status

-- `enum req_op`: REQ_OP_READ, REQ_OP_WRITE and all others.
pub data Op : Type 0 where
  read write other : Op

-- `struct memdisk`, as far as transfers see it.
pub record Memdisk : Type 0 where
  pub size : ℕ
  pub bytes : List ℕ

-- `struct bio_vec`: the memory of a segment.
abbrev pub Segment : Type 0
Segment = List ℕ

-- `struct bio`: where it begins, and its segments.
pub record Bio : Type 0 where
  pub sector : ℕ
  pub segments : List Segment

-- `struct request`: `blk_rq_pos`, `req_op`, and its bios.
pub record Request : Type 0 where
  pub pos : ℕ
  pub op : Op
  pub bios : List Bio

-- What a transfer leaves: the disk, the memory, and the status.
pub record Outcome (M : Type 0) : Type 0 where
  pub disk : Memdisk
  pub memory : M
  pub status : Status

abbrev pub sector_size : ℕ
sector_size = 512

abbrev pub is_write : Op → Bool
is_write write = true
is_write _ = false

-- `(u64)sector << SECTOR_SHIFT`
abbrev pub offset_of : ℕ → ℕ
offset_of sector = sector * sector_size % 2 ^ 64

-- `sector += bvec.bv_len >> SECTOR_SHIFT`
abbrev pub past : ℕ → Segment → ℕ
past sector v = (sector + length v / sector_size) % 2 ^ 64

unfoldable pub memdisk_transfer : Bool → ℕ → Segment → Memdisk → Outcome Segment
memdisk_transfer to_disk sector v dev =
    if ltb dev.size ((offset_of sector + length v) % 2 ^ 64)
    then record { disk = dev; memory = v; status = ioerr }
    else if to_disk
    then record {
      disk = record dev { bytes = blit dev.bytes (offset_of sector) v };
      memory = v;
      status = ok;
    }
    else record { disk = dev; memory = slice (offset_of sector) (length v) dev.bytes; status = ok }

-- What follows one transfer of a loop: the others, or none after an error.
abbrev pub go_on : Status → Outcome (List Segment) → Outcome (List Segment) → Outcome (List Segment)
go_on ok others stop = others
go_on ioerr others stop = stop
go_on notsupp others stop = stop

abbrev pub behind : {M : Type 0} → M → Outcome (List M) → Outcome (List M)
behind v o = record { disk = o.disk; memory = v ∷ o.memory; status = o.status }

-- The loop over segments, with the status that it starts from.
unfoldable pub walk : Status → Bool → ℕ → List Segment → Memdisk → Outcome (List Segment)
unfolding memdisk_transfer
walk st to_disk sector [] dev = record { disk = dev; memory = []; status = st }
walk st to_disk sector (v ∷ vs) dev =
    let r = memdisk_transfer to_disk sector v dev in
    let others = behind r.memory (walk ok to_disk (past sector v) vs r.disk) in
    go_on r.status others (record { disk = r.disk; memory = r.memory ∷ vs; status = r.status })

unfoldable pub memdisk_xfer_bio : Bool → Bio → Memdisk → Outcome (List Segment)
unfolding walk
memdisk_xfer_bio to_disk bio dev = walk ok to_disk bio.sector bio.segments dev

abbrev pub segments_of : List Bio → List (List Segment)
segments_of [] = []
segments_of (b ∷ bs) = b.segments ∷ segments_of bs

abbrev pub flat {ℓ} : {A : Type ℓ} → List (List A) → List A
flat [] = []
flat (xs ∷ xss) = xs ++ flat xss

abbrev pub go_on_bios :
    Status
    → Outcome (List (List Segment))
    → Outcome (List (List Segment))
    → Outcome (List (List Segment))
go_on_bios ok others stop = others
go_on_bios ioerr others stop = stop
go_on_bios notsupp others stop = stop

-- The loop over bios.
unfoldable pub walk_bios : Status → Bool → List Bio → Memdisk → Outcome (List (List Segment))
unfolding memdisk_xfer_bio
walk_bios st to_disk [] dev = record { disk = dev; memory = []; status = st }
walk_bios st to_disk (b ∷ bs) dev =
    let r = memdisk_xfer_bio to_disk b dev in
    let others = behind r.memory (walk_bios ok to_disk bs r.disk) in
    go_on_bios r.status others
      (record { disk = r.disk; memory = r.memory ∷ segments_of bs; status = r.status })

abbrev pub untouched : {M : Type 0} → M → Memdisk → Outcome M
untouched m dev = record { disk = dev; memory = m; status = notsupp }

abbrev pub memdisk_rw : Op → Bool
memdisk_rw read = true
memdisk_rw write = true
memdisk_rw other = false

-- `memdisk_queue_rq_simple` and `memdisk_queue_rq_full`, with the status that `blk_mq_end_request` is given.
unfoldable pub queue_rq_simple : Request → Memdisk → Outcome (List Segment)
unfolding walk
queue_rq_simple rq dev =
    if memdisk_rw rq.op
    then walk notsupp (is_write rq.op) rq.pos (flat (segments_of rq.bios)) dev
    else untouched (flat (segments_of rq.bios)) dev

unfoldable pub queue_rq_full : Request → Memdisk → Outcome (List (List Segment))
unfolding walk_bios
queue_rq_full rq dev =
    if memdisk_rw rq.op
    then walk_bios notsupp (is_write rq.op) rq.bios dev
    else untouched (segments_of rq.bios) dev

-- `memdisk_submit_bio`, with the status that `bio_endio` is given.
unfoldable pub submit_bio : Op → Bio → Memdisk → Outcome (List Segment)
unfolding memdisk_xfer_bio
submit_bio op bio dev =
    if memdisk_rw op then memdisk_xfer_bio (is_write op) bio dev else untouched bio.segments dev
