-- ===== src/Pipe/Order.antt =====
-- examples/09_pipe_advanced_sleep/fops.c: the bytes of the pipe under every schedule.
use linux_device_driver.Prelude.{
  ℕ, ◌+◌, ◌-◌, ◌≡◌, ◌≤◌, refl, ◌∙◌, sym, ap, false, Option, none, some, List, [], ◌∷◌, ◌++◌,
  append-nil, append_assoc, ltb, leb, leb→le, if_cases, length, length-blit, length-take, get_elem?,
  take, drop, slice, slice-append-slice, slice-blit_self, blit, min, arith,
}
use linux_device_driver.Pipe.Device.{
  Kind, reader, writer, Thread, Pipe, Luck, fine, signal, fault, Pc, trying, entered, released,
  prepared, waiting, finishing, notifying, leaving, gone, buff_size, blocked, read_bytes,
  write_bytes, transfer, lock, is_signal, act, step_of, step, run,
}

-- The bytes that were taken in are those that were given out and, behind them, those that wait in the
-- buffer between the read position and the length.
abbrev pub Flow : Pipe → Type 0
Flow s =
    (length s.buff ≡ buff_size)
    × (s.buff_len ≤ buff_size)
    × (s.rd_pos ≤ s.buff_len)
    × (s.taken_in ≡ s.given_out ++ slice s.rd_pos (s.buff_len - s.rd_pos) s.buff)

nothing : (i n : ℕ) (xs : List ℕ) → n ≤ i → slice i (n - i) xs ≡ []
nothing i n xs h = let none_left : n - i ≡ 0 = omega arith in ap (λ k. take k (drop i xs)) none_left

reading-Flow :
    (n : ℕ) (s : Pipe)
    → Flow s
    → n ≤ s.buff_len - s.rd_pos
    → s.taken_in
      ≡ s.given_out
        ++ slice s.rd_pos n s.buff
        ++ slice (s.rd_pos + n) (s.buff_len - (s.rd_pos + n)) s.buff
reading-Flow n s (size, fits, order, flow) h =
    let rest = s.buff_len - (s.rd_pos + n) in
    let both : n + rest ≡ s.buff_len - s.rd_pos = omega arith in
    flow
    ∙ ap (λ xs. s.given_out ++ xs)
        (sym (
          slice-append-slice s.buff s.rd_pos n rest (s.rd_pos + n) refl (omega (arith, size))
          ∙ ap (λ k. slice s.rd_pos k s.buff) both))
    ∙ sym (append_assoc s.given_out (slice s.rd_pos n s.buff) (slice (s.rd_pos + n) rest s.buff))

read_fine-Flow : (i : ℕ) (t : Thread) (s : Pipe) → Flow s → Flow (read_bytes i fine t s)
unfolding read_bytes
read_fine-Flow i t s (size, fits, order, flow) =
    let n = min t.count (s.buff_len - s.rd_pos) in
    let given = s.given_out ++ slice s.rd_pos n s.buff in
    let split = reading-Flow n s (size, fits, order, flow) (omega arith) in
    if_cases Flow (leb s.buff_len (s.rd_pos + n))
      (λ e. (
        size,
        omega arith,
        omega arith,
        split ∙ ap (λ xs. given ++ xs) (nothing (s.rd_pos + n) s.buff_len s.buff (leb→le _ _ e)),
      ))
      λ _. (size, fits, omega arith, split)

read_bytes-Flow :
    (i : ℕ) (luck : Luck) (t : Thread) (s : Pipe) → Flow s → Flow (read_bytes i luck t s)
unfolding read_bytes
read_bytes-Flow i (fault landed) t s f = f
read_bytes-Flow i fine t s f = read_fine-Flow i t s f
read_bytes-Flow i signal t s f = read_fine-Flow i t s f

-- While the buffer is empty, what it holds is not seen.
unseen-Flow :
    (s : Pipe) (bytes : List ℕ)
    → s.buff_len ≡ 0
    → Flow s
    → Flow (record s { buff = blit s.buff 0 bytes })
unseen-Flow s bytes z (size, fits, order, flow) = (
  length-blit s.buff 0 bytes ∙ size,
  fits,
  order,
  flow
      ∙ ap (λ xs. s.given_out ++ xs)
          (nothing s.rd_pos s.buff_len s.buff (omega arith)
            ∙ sym (nothing s.rd_pos s.buff_len (blit s.buff 0 bytes) (omega arith))),
)

write_fine-Flow :
    (i : ℕ) (t : Thread) (s : Pipe) → s.buff_len ≡ 0 → Flow s → Flow (write_bytes i fine t s)
unfolding write_bytes
write_fine-Flow i t s z (size, fits, order, flow) =
    let bytes = take buff_size t.request in
    let all : length bytes ≡ length bytes - 0 = omega arith in
    if_cases Flow (ltb 0 (length bytes))
      (λ _. (
        length-blit s.buff 0 bytes ∙ size,
        omega (arith, length-take buff_size t.request),
        omega arith,
        ap (λ xs. xs ++ bytes)
              (flow
                ∙ ap (λ xs. s.given_out ++ xs) (nothing s.rd_pos s.buff_len s.buff (omega arith))
                ∙ append-nil s.given_out)
            ∙ ap (λ xs. s.given_out ++ xs)
                (sym (
                  ap (λ k. slice 0 k (blit s.buff 0 bytes)) (sym all)
                  ∙ slice-blit_self s.buff 0 bytes
                      (omega (arith, length-take buff_size t.request, size)))),
      ))
      λ _. unseen-Flow s bytes z (size, fits, order, flow)

write_bytes-Flow :
    (i : ℕ) (luck : Luck) (t : Thread) (s : Pipe)
    → s.buff_len ≡ 0
    → Flow s
    → Flow (write_bytes i luck t s)
unfolding write_bytes
write_bytes-Flow i (fault landed) t s z f = unseen-Flow s landed z f
write_bytes-Flow i fine t s z f = write_fine-Flow i t s z f
write_bytes-Flow i signal t s z f = write_fine-Flow i t s z f

transfer-Flow :
    (k : Kind) (i : ℕ) (luck : Luck) (t : Thread) (s : Pipe)
    → blocked k s.buff_len ≡ false
    → Flow s
    → Flow (transfer k i luck t s)
unfolding transfer
transfer-Flow reader i luck t s b f = read_bytes-Flow i luck t s f
transfer-Flow writer i luck t s b f = write_bytes-Flow i luck t s (ground arith) f

lock-Flow : (o : Option ℕ) (i : ℕ) (t : Thread) (s : Pipe) → Flow s → Flow (lock o i t s)
unfolding lock
lock-Flow none i t s f = f
lock-Flow (some j) i t s f = f

act-Flow :
    (pc : Pc) (i : ℕ) (luck : Luck) (t : Thread) (s : Pipe) → Flow s → Flow (act pc i luck t s)
unfolding act
act-Flow trying i luck t s f =
    if_cases Flow (is_signal luck) (λ _. f) λ _. lock-Flow s.owner i t s f
act-Flow entered i luck t s f =
    if_cases Flow (blocked t.kind s.buff_len) (λ _. f) λ b. transfer-Flow t.kind i luck t s b f
act-Flow released i luck t s f = if_cases Flow t.nonblock (λ _. f) λ _. f
act-Flow prepared i luck t s f = if_cases Flow (blocked t.kind s.buff_len) (λ _. f) λ _. f
act-Flow waiting i luck t s f =
    if_cases Flow (is_signal luck) (λ _. f) λ _. if_cases Flow t.awake (λ _. f) λ _. f
act-Flow finishing i luck t s f = if_cases Flow (is_signal luck) (λ _. f) λ _. f
act-Flow (notifying r) i luck t s f = f
act-Flow (leaving r) i luck t s f = f
act-Flow (gone r) i luck t s f = f

step-Flow :
    (o : Option Thread) (i : ℕ) (luck : Luck) (s : Pipe) → Flow s → Flow (step_of o i luck s)
unfolding step_of
step-Flow none i luck s f = f
step-Flow (some t) i luck s f = act-Flow t.pc i luck t s f

-- However the steps of any number of readers and writers interleave, and whatever signals and faults
-- they meet: the readers together are given exactly the bytes that the writers put in, in their order
-- and none twice, but for those that still wait in the buffer.
pub run-Flow : (steps : List (ℕ × Luck)) (s : Pipe) → Flow s → Flow (run steps s)
unfolding run step
run-Flow [] s f = f
run-Flow ((i, luck) ∷ rest) s f =
    run-Flow rest (step i luck s) (step-Flow (get_elem? s.threads i) i luck s f)
