-- ===== src/Scull/Copy.antt =====
-- examples/03_scull_basic/fops.c: a file that is copied to the device comes back.
use linux_device_driver.Prelude.{
  ℕ, zero, suc, ◌+◌, ◌-◌, ◌≡◌, ◌≤◌, ◌<◌, ◌⊎◌, inl, inr, refl, ◌∙◌, sym, ap, true, none, List, [],
  ◌++◌, ◌==◌, if◌then◌else◌, if_cases, length, get_elem?, drop, arith,
}
use linux_device_driver.Prelude.Access.{
  get_elem?-in, get_elem?-drop, drop-drop, drop-all, append-drop,
}
use linux_device_driver.Scull.Device.{Dev, Ret, done, efault, enomem, erestartsys, init_dev, read}
use linux_device_driver.Scull.Blocks.{cell}
use linux_device_driver.Scull.Read.{read-Reads, Reads}
use linux_device_driver.Scull.Loops.{count_of, write_all, read_all, IsDone, read-IsDone}
use linux_device_driver.Scull.Store.{Holds, write_all-Holds, side}

module _ (block_size : ℕ) (some_bytes : 0 < block_size) where
  -- A read that succeeds stays within the bytes.
  read_within :
      (bytes out : List ℕ) (pos n : ℕ) (dev : Dev)
      → Holds block_size bytes (length bytes) dev
      → pos ≤ length bytes
      → length out ≡ n
      → ((j : ℕ) → j < n → get_elem? out j ≡ cell block_size dev (pos + j))
      → pos + n ≤ length bytes
  read_within bytes out pos n dev h le len cells = elim (side (length bytes) (pos + n)) [
    | inr fits ↦ fits
    | inl over ↦
        let last = length bytes - pos in
        let (x, there) = get_elem?-in out last (omega (arith, len)) in
        let seen = cells last (omega arith) in
        let gone = h.back (pos + last) (omega arith) in absurd (cc)
  ]

  -- A read gives nothing only at the end of the bytes.
  read_end :
      (bytes : List ℕ) (count pos : ℕ) (dev : Dev)
      → 0 < count
      → pos ≤ length bytes
      → Holds block_size bytes (length bytes) dev
      → (count ≡ 0) ⊎ (cell block_size dev pos ≡ none)
      → pos ≡ length bytes
  read_end bytes count pos dev some_count le h (inl z) = absurd (omega arith)
  read_end bytes count pos dev some_count le h (inr gone) = elim (side pos (length bytes)) [
    | inr end ↦ omega arith
    | inl lt ↦
        let (x, there) = get_elem?-in bytes pos lt in let seen = h.front pos lt in absurd (cc)
  ]

  next_read :
      (fuel count pos : ℕ) (bytes : List ℕ) (dev : Dev) (t : Ret × List ℕ × ℕ)
      → 0 < count
      → pos ≤ length bytes
      → Holds block_size bytes (length bytes) dev
      → IsDone t.0
      → Reads block_size true count count pos dev t
      → ((pos' : ℕ)
          → pos < pos'
          → pos' ≤ length bytes
          → read_all block_size fuel count pos' dev ≡ drop pos' bytes)
      → (if count_of t.0 == 0 then [] else t.1 ++ read_all block_size fuel count t.2 dev)
        ≡ drop pos bytes
  next_read fuel count pos bytes dev (done n, out, pos') some_count le h _
        (moved, few, (len, cells), end, _, _) ih =
      if_cases (λ xs. xs ≡ drop pos bytes) (n == 0)
        (λ z.
          let all = read_end bytes count pos dev some_count le h (end (ground arith)) in
          sym (drop-all pos bytes (omega (arith, all))))
        λ nz.
          let within = read_within bytes out pos n dev h le len cells in
          ap (λ xs. out ++ xs)
            (ih pos' (ground (arith, moved)) (omega (arith, moved, within))
              ∙ sym (drop-drop pos (length out) pos' bytes (omega (arith, moved, len))))
          ∙ append-drop out (drop pos bytes) (λ j lt.
            cells j (omega (arith, len))
            ∙ h.front (pos + j) (omega (arith, len, within))
            ∙ sym (get_elem?-drop bytes pos j (pos + j) refl))
  next_read fuel count pos bytes dev (efault, out, pos') some_count le h d _ ih = elim d [ ]
  next_read fuel count pos bytes dev (enomem, out, pos') some_count le h d _ ih = elim d [ ]
  next_read fuel count pos bytes dev (erestartsys, out, pos') some_count le h d _ ih = elim d [ ]

  read_all-drop :
      (fuel count pos : ℕ) (bytes : List ℕ) (dev : Dev)
      → 0 < count
      → pos ≤ length bytes
      → length bytes < pos + fuel
      → Holds block_size bytes (length bytes) dev
      → read_all block_size fuel count pos dev ≡ drop pos bytes
  unfolding read_all
  read_all-drop zero count pos bytes dev some_count le enough h = absurd (omega arith)
  read_all-drop (suc fuel) count pos bytes dev some_count le enough h =
      next_read fuel count pos bytes dev (read block_size true count count pos dev) some_count le h
        (read-IsDone block_size count pos dev)
        (read-Reads block_size true count count pos dev some_bytes h.valid)
        λ pos' lt le'. read_all-drop fuel count pos' bytes dev some_count le' (omega arith) h

  -- Bytes that a program writes to an empty device, from its start and with memory for the blocks
  -- that they need, it reads back from the start, whatever the size of its reads, and then the end
  -- of the file: across the blocks nothing is lost, doubled or out of order.
  pub read_all-write_all :
      (count : ℕ) (bytes : List ℕ)
      → 0 < count
      → read_all block_size
          (suc (length bytes))
          count
          0
          (write_all block_size (length bytes) bytes 0 init_dev)
        ≡ bytes
  read_all-write_all count bytes some_count =
      read_all-drop (suc (length bytes)) count 0 bytes
        (write_all block_size (length bytes) bytes 0 init_dev) some_count (omega arith)
        (omega arith)
        (write_all-Holds block_size some_bytes (length bytes) 0 bytes init_dev (omega arith)
          (omega arith)
          (record {
            front = λ q lt. absurd (omega arith);
            back = λ q _. refl;
            valid = record { counted = refl; blocks = tt };
          }))
