-- ===== src/Pipe/Device.antt =====
-- examples/09_pipe_advanced_sleep/fops.c: readers and writers of one pipe, step by step.
use linux_device_driver.Prelude.{
  ℕ, ◌+◌, ◌-◌, Bool, true, false, not, Option, none, some, List, [], ◌∷◌, ◌++◌, map, ltb, leb, ◌==◌,
  if◌then◌else◌, length, get_elem?, set, take, slice, blit, min,
}

pub data Kind : Type 0 where
  reader writer : Kind

-- What a call returns.
pub data Ret : Type 0 where
  done : ℕ → Ret
  erestartsys eagain efault : Ret

-- Where a thread stands in `pipe_read` or `pipe_write`: before the lock; at the test of the loop, with
-- the lock; after the unlock; after `prepare_to_wait`; in `schedule`; at `finish_wait`; with the lock
-- before `wake_up_interruptible` and before the unlock; and returned.
pub data Pc : Type 0 where
  trying entered released prepared waiting finishing : Pc
  notifying leaving gone : Ret → Pc

-- One call: `count` is what a reader asks for, `request` what a writer brings. `awake` is the task's
-- state, `TASK_RUNNING` or `TASK_INTERRUPTIBLE`.
pub record Thread : Type 0 where
  pub kind : Kind
  pub nonblock : Bool
  pub count : ℕ
  pub request : List ℕ
  pub pc : Pc
  pub awake : Bool

-- `struct pipe_dev` with the owner of its mutex, its threads, and all bytes that were taken in and
-- given out so far.
pub record Pipe : Type 0 where
  pub buff_len : ℕ
  pub rd_pos : ℕ
  pub buff : List ℕ
  pub owner : Option ℕ
  pub threads : List Thread
  pub taken_in : List ℕ
  pub given_out : List ℕ

-- What happens at a step that can go more than one way: nothing special, a signal, or a fault of a
-- copy, with the bytes that landed before it.
pub data Luck : Type 0 where
  fine signal : Luck
  fault : List ℕ → Luck

-- `BUFF_SIZE`
abbrev pub buff_size : ℕ
buff_size = 8

-- The condition of the two loops: the thread cannot go on.
abbrev pub blocked : Kind → ℕ → Bool
blocked reader n = n == 0
blocked writer n = not (n == 0)

-- The threads that a thread wakes up.
abbrev pub other : Kind → Kind
other reader = writer
other writer = reader

abbrev pub same : Kind → Kind → Bool
same reader reader = true
same writer writer = true
same _ _ = false

-- On the wait queue: between `prepare_to_wait` and `finish_wait`.
abbrev pub is_queued : Pc → Bool
is_queued prepared = true
is_queued waiting = true
is_queued finishing = true
is_queued _ = false

-- `wake_up_interruptible` of the queue of a kind
unfoldable pub wake : Kind → Thread → Thread
wake k t = if same k t.kind then (if is_queued t.pc then record t { awake = true } else t) else t

abbrev pub goto : ℕ → Thread → Pc → Pipe → Pipe
goto i t pc s = record s { threads = set s.threads i (record t { pc = pc }) }

unfoldable pub read_bytes : ℕ → Luck → Thread → Pipe → Pipe
read_bytes i (fault landed) t s = goto i t (leaving efault) s
read_bytes i _ t s =
    let n = min t.count (s.buff_len - s.rd_pos) in
    let s' = record s { given_out = s.given_out ++ slice s.rd_pos n s.buff } in
    if leb s.buff_len (s.rd_pos + n)
    then goto i t (notifying (done n)) (record s' { buff_len = 0; rd_pos = 0 })
    else goto i t (leaving (done n)) (record s' { rd_pos = s.rd_pos + n })

unfoldable pub write_bytes : ℕ → Luck → Thread → Pipe → Pipe
write_bytes i (fault landed) t s =
    goto i t (leaving efault) (record s { buff = blit s.buff 0 landed })
write_bytes i _ t s =
    let bytes = take buff_size t.request in
    let s' = record s { buff = blit s.buff 0 bytes } in
    if ltb 0 (length bytes)
    then goto i t (notifying (done (length bytes)))
        (record s' { buff_len = length bytes; rd_pos = 0; taken_in = s.taken_in ++ bytes })
    else goto i t (leaving (done 0)) s'

-- The data transfer of a thread that holds the lock.
unfoldable pub transfer : Kind → ℕ → Luck → Thread → Pipe → Pipe
unfolding read_bytes write_bytes
transfer reader i luck t s = read_bytes i luck t s
transfer writer i luck t s = write_bytes i luck t s

-- The lock of thread `i`, which is free or not.
unfoldable pub lock : Option ℕ → ℕ → Thread → Pipe → Pipe
lock none i t s = goto i t entered (record s { owner = some i })
lock (some j) i t s = s

abbrev pub is_signal : Luck → Bool
is_signal signal = true
is_signal _ = false

-- The next step of thread `i`, by where it stands.
unfoldable pub act : Pc → ℕ → Luck → Thread → Pipe → Pipe
unfolding transfer lock wake
act trying i luck t s = if is_signal luck then goto i t (gone erestartsys) s else lock s.owner i t s
act entered i luck t s =
    if blocked t.kind s.buff_len
    then goto i t released (record s { owner = none })
    else transfer t.kind i luck t s
act released i luck t s =
    if t.nonblock then goto i t (gone eagain) s else goto i (record t { awake = false }) prepared s
act prepared i luck t s =
    if blocked t.kind s.buff_len then goto i t waiting s else goto i t finishing s
act waiting i luck t s =
    if is_signal luck
    then goto i (record t { awake = true }) finishing s
    else if t.awake
    then goto i t finishing s
    else s
act finishing i luck t s =
    if is_signal luck
    then goto i (record t { awake = true }) (gone erestartsys) s
    else goto i (record t { awake = true }) trying s
act (notifying r) i luck t s =
    goto i t (leaving r) (record s { threads = map (wake (other t.kind)) s.threads })
act (leaving r) i luck t s = goto i t (gone r) (record s { owner = none })
act (gone r) i luck t s = s

unfoldable pub step_of : Option Thread → ℕ → Luck → Pipe → Pipe
unfolding act
step_of none i luck s = s
step_of (some t) i luck s = act t.pc i luck t s

-- A schedule says which thread goes next, and with what luck.
unfoldable pub step : ℕ → Luck → Pipe → Pipe
unfolding step_of
step i luck s = step_of (get_elem? s.threads i) i luck s

unfoldable pub run : List (ℕ × Luck) → Pipe → Pipe
unfolding step
run [] s = s
run ((i, luck) ∷ rest) s = run rest (step i luck s)
