-- ===== src/AsyncIo/Device.antt =====
-- examples/25_async_io/main.c, main.h: the ring buffer, its reads and writes, and how a request is answered.
use linux_device_driver.Prelude.{
  ℕ, zero, suc, ◌+◌, ◌-◌, ◌%◌, Bool, true, false, not, ◌&&◌, List, [], ◌∷◌, ◌++◌, take, slice, blit,
  length, min, ◌==◌, if◌then◌else◌,
}

-- BUFF_SIZE
abbrev pub buff_size : ℕ
buff_size = 4096

-- `struct async_io_dev`
pub record Ring : Type 0 where
  pub len : ℕ
  pub read_cur : ℕ
  pub write_cur : ℕ
  pub buff : List ℕ

pub data Ret : Type 0 where
  done : ℕ → Ret
  erestartsys efault enospc eiocbqueued : Ret

-- The number of bytes that are wanted, of which a copy does as many as it can, and whether that is a fault.
abbrev pub is_fault : ℕ → ℕ → Bool
is_fault want copied = not (want == 0) && (copied == 0)

-- `async_io_do_read` of `count` bytes: `able` is the number of bytes that the copy can do at most. The bytes
-- that the reader gets come with the result.
unfoldable pub read_locked : ℕ → ℕ → Ring → Ret × List ℕ × Ring
read_locked count able dev =
    let want = min (min (buff_size - dev.read_cur) dev.len) count in
    let copied = min want able in
    if is_fault want copied then (efault, [], dev) else (
      done copied,
      slice dev.read_cur copied dev.buff,
      record dev { read_cur = (dev.read_cur + copied) % buff_size; len = dev.len - copied },
    )

unfoldable pub do_read : Bool → ℕ → ℕ → Ring → Ret × List ℕ × Ring
unfolding read_locked
do_read locked count able dev =
    if not locked then (erestartsys, [], dev) else read_locked count able dev

-- `async_io_do_write`, with the bytes that were taken.
unfoldable pub write_locked : List ℕ → ℕ → Ring → Ret × List ℕ × Ring
write_locked request able dev =
    let want = min (min (buff_size - dev.write_cur) (buff_size - dev.len)) (length request) in
    let copied = min want able in
    let bytes = take copied request in
    if dev.len == buff_size
    then (enospc, [], dev)
    else if is_fault want copied
    then (efault, [], dev)
    else (
      done copied,
      bytes,
      record dev {
        buff = blit dev.buff dev.write_cur bytes;
        write_cur = (dev.write_cur + copied) % buff_size;
        len = dev.len + copied;
      },
    )

unfoldable pub do_write : Bool → List ℕ → ℕ → Ring → Ret × List ℕ × Ring
unfolding write_locked
do_write locked request able dev =
    if not locked then (erestartsys, [], dev) else write_locked request able dev

-- A request in the work queue, by its number, with its result.
pub record Work : Type 0 where
  pub iocb : ℕ
  pub result : ℕ

-- `async_io_defer`, where `memory` is whether there is any: what the call returns, and the queue.
abbrev pub defer : Bool → ℕ → ℕ → List Work → Ret × List Work
defer memory iocb result works =
    if memory
    then (eiocbqueued, works ++ record { iocb = iocb; result = result } ∷ [])
    else (done result, works)

-- The end of `async_io_read_iter` and `async_io_write_iter`.
abbrev pub answer : Bool → Bool → ℕ → Ret → List Work → Ret × List Work
answer true memory iocb r works = (r, works)
answer false memory iocb (done k) works = defer memory iocb k works
answer false memory iocb r works = (r, works)

-- A request: whether it is synchronous, whether there is memory to defer it, whether the lock is taken, and how
-- much the copy can do. A read has a count, a write has bytes.
pub data Request : Type 0 where
  read : ℕ → Request
  write : List ℕ → Request

pub record Call : Type 0 where
  pub request : Request
  pub sync : Bool
  pub memory : Bool
  pub locked : Bool
  pub able : ℕ

-- The device, the queue, what the callers were told, by the request's number, and the bytes that went out and in.
pub record Aio : Type 0 where
  pub dev : Ring
  pub works : List Work
  pub next : ℕ
  pub told : List (ℕ × Ret)
  pub out : List ℕ
  pub taken : List ℕ

-- What a call returns is told at once; -EIOCBQUEUED is a promise.
abbrev pub tell : ℕ → Ret → List (ℕ × Ret) → List (ℕ × Ret)
tell i eiocbqueued told = told
tell i (done k) told = told ++ (i, done k) ∷ []
tell i erestartsys told = told ++ (i, erestartsys) ∷ []
tell i efault told = told ++ (i, efault) ∷ []
tell i enospc told = told ++ (i, enospc) ∷ []

abbrev pub submitted : Call → Ret × List Work → Aio → Aio
submitted c (r, works) s = record s {
  works = works;
  next = s.next + 1;
  told = tell s.next r s.told;
}

-- `async_io_read_iter` and `async_io_write_iter`
unfoldable pub submit : Call → Request → Aio → Aio
unfolding do_read do_write
submit c (read count) s =
    let (r, given, dev') = do_read c.locked count c.able s.dev in
    submitted c (answer c.sync c.memory s.next r s.works)
      (record s { dev = dev'; out = s.out ++ given })
submit c (write bytes) s =
    let (r, got, dev') = do_write c.locked bytes c.able s.dev in
    submitted c (answer c.sync c.memory s.next r s.works)
      (record s { dev = dev'; taken = s.taken ++ got })

-- `async_io_complete` of the work at a place in the queue: the delays of two may end in any order.
abbrev pub remove : ℕ → List Work → List Work
remove i [] = []
remove zero (w ∷ ws) = ws
remove (suc i) (w ∷ ws) = w ∷ remove i ws

abbrev pub at : ℕ → List Work → List (ℕ × Ret)
at i [] = []
at zero (w ∷ ws) = (w.iocb, done w.result) ∷ []
at (suc i) (w ∷ ws) = at i ws

abbrev pub complete : ℕ → Aio → Aio
complete i s = record s { works = remove i s.works; told = s.told ++ at i s.works }

pub data Step : Type 0 where
  submits : Call → Step
  completes : ℕ → Step

unfoldable pub step : Step → Aio → Aio
unfolding submit
step (submits c) s = submit c c.request s
step (completes i) s = complete i s

unfoldable pub run : List Step → Aio → Aio
unfolding step
run [] s = s
run (x ∷ xs) s = run xs (step x s)
