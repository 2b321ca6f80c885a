-- ===== src/AsyncIo/Calls.antt =====
-- examples/25_async_io/main.c: what a call takes from the ring and puts into it.
use linux_device_driver.Prelude.{
  ℕ, ◌+◌, ◌-◌, ◌<◌, ◌≡◌, refl, sym, ◌∙◌, ap, Bool, true, false, not, List, ◌++◌, append-nil, take,
  blit, length, length-take, length-blit, min, ◌==◌, if_cases, arith,
}
use linux_device_driver.AsyncIo.Device.{
  buff_size, Ring, Ret, eiocbqueued, is_fault, read_locked, do_read, write_locked, do_write,
}
use linux_device_driver.AsyncIo.Ring.{contents, around, IsValid, around-read, around-write}

-- A result is no promise.
abbrev pub is_final : Ret → Bool
is_final eiocbqueued = false
is_final r = true

-- A call has given `given` away from the front.
abbrev pub Took : Ring → Ret × List ℕ × Ring → Type 0
Took dev (r, given, dev') =
    IsValid dev' × (contents dev ≡ given ++ contents dev') × (is_final r ≡ true)

-- A call has put `got` behind.
abbrev pub Put : Ring → Ret × List ℕ × Ring → Type 0
Put dev (r, got, dev') = IsValid dev' × (contents dev' ≡ contents dev ++ got) × (is_final r ≡ true)

pub do_read-Took :
    (locked : Bool) (count able : ℕ) (dev : Ring)
    → IsValid dev
    → Took dev (do_read locked count able dev)
unfolding do_read read_locked
do_read-Took locked count able dev v =
    let want = min (min (buff_size - dev.read_cur) dev.len) count in
    let copied = min want able in
    if_cases (Took dev) (not locked) (λ _. (v, refl, refl))
      λ _.
        if_cases (Took dev) (is_fault want copied) (λ _. (v, refl, refl))
          λ _. (
            record {
              size = v.size;
              full = omega (arith, v.full);
              reads = omega arith;
              writes = omega (arith, v.full, v.reads, v.writes);
            },
            around-read dev.read_cur dev.len copied dev.buff v.size v.full v.reads (omega arith)
                (omega (arith, v.reads)),
            refl,
          )

pub do_write-Put :
    (locked : Bool) (request : List ℕ) (able : ℕ) (dev : Ring)
    → IsValid dev
    → Put dev (do_write locked request able dev)
unfolding do_write write_locked
do_write-Put locked request able dev v =
    let want = min (min (buff_size - dev.write_cur) (buff_size - dev.len)) (length request) in
    let copied = min want able in
    let bytes = take copied request in
    let size : length bytes ≡ copied = omega (arith, length-take copied request) in
    if_cases (Put dev) (not locked) (λ _. (v, sym (append-nil (contents dev)), refl))
      λ _.
        if_cases (Put dev) (dev.len == buff_size) (λ _. (v, sym (append-nil (contents dev)), refl))
          λ room.
            if_cases (Put dev) (is_fault want copied)
              (λ _. (v, sym (append-nil (contents dev)), refl))
              λ _.
                let some : dev.len < buff_size = ground (arith, v.full) in
                (
                  record {
                    size = length-blit dev.buff dev.write_cur bytes ∙ v.size;
                    full = omega (arith, v.full);
                    reads = v.reads;
                    writes = omega (arith, v.full, v.reads, v.writes);
                  },
                  ap
                        (λ (k : ℕ).
                          around dev.read_cur (dev.len + k) (blit dev.buff dev.write_cur bytes))
                        (sym size)
                      ∙ around-write dev.read_cur dev.len dev.write_cur dev.buff bytes v.size
                          (omega (arith, size, v.full)) v.reads some (omega (arith, size, v.writes))
                          v.writes,
                  refl,
                )
