-- ===== src/Block/Tests.antt =====
-- examples/29_block_device/main.c: the theorems on a disk of two sectors.
use linux_device_driver.Prelude.{◌*◌, ◌≡◌, refl, List, [], ◌∷◌, blit, replicate, arith}
use linux_device_driver.Block.Device.{
  Memdisk, Bio, Request, read, write, ok, segments_of, flat, queue_rq_simple, queue_rq_full,
}
use linux_device_driver.Block.Walks.{flat_outcome, queue_rq_full-simple}
use linux_device_driver.Block.Contents.{queue_rq_simple-round_trip}

abbrev blank : Memdisk
blank = record { size = 1024; bytes = replicate 1024 0 }

abbrev two_bios : List Bio
two_bios =
    record { sector = 0; segments = replicate 512 1 ∷ [] }
    ∷ record { sector = 1; segments = replicate 512 2 ∷ [] }
    ∷ []

abbrev one_bio : List Bio
one_bio = record { sector = 0; segments = replicate 1024 9 ∷ [] } ∷ []

-- One segment is in range and the next is not.
abbrev too_long : Request
too_long = record { pos = 1; op = write; bios = two_behind }
  where
    two_behind : List Bio
    two_behind =
        record { sector = 1; segments = replicate 512 1 ∷ [] }
        ∷ record { sector = 2; segments = replicate 512 2 ∷ [] }
        ∷ []

queue_rq_full-simple_example :
    flat_outcome (queue_rq_full too_long blank) ≡ queue_rq_simple too_long blank
queue_rq_full-simple_example =
    queue_rq_full-simple too_long blank (refl, (λ e. cc), (refl, (λ e. cc), tt))

queue_rq_simple-round_trip_example :
    (let w = queue_rq_simple (record { pos = 0; op = write; bios = two_bios }) blank in
      let r = queue_rq_simple (record { pos = 0; op = read; bios = one_bio }) w.disk in
      (w.status ≡ ok)
      × (w.disk ≡ record blank {
        bytes = blit blank.bytes (0 * 512) (flat (flat (segments_of two_bios)));
      })
      × (r.status ≡ ok)
      × (r.disk ≡ w.disk)
      × (flat r.memory ≡ flat (flat (segments_of two_bios))))
queue_rq_simple-round_trip_example =
    queue_rq_simple-round_trip 0 two_bios one_bio blank (λ e. cc) (λ e. cc) (refl, (refl, tt))
      (refl, tt) refl (refl, omega arith, omega arith)
