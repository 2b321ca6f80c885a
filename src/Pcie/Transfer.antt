-- ===== src/Pcie/Transfer.antt =====
-- tools/qemu/hw/ldd/pcie.c: `ldd_pcie_dma_ok`, `ldd_pcie_transfer`, `ldd_pcie_start` and
-- `ldd_pcie_complete`.
use linux_device_driver.Prelude.{
  ℕ, zero, suc, ◌+◌, ◌-◌, ◌*◌, ◌^◌, ◌%◌, Bool, false, not, ◌&&◌, ◌||◌, Option, none, some, List, [],
  ◌∷◌, ◌++◌, map, bit_and, bit_or, bit_xor, ◌==◌, ltb, leb, if◌then◌else◌, take, drop, slice, blit,
  replicate,
}
use linux_device_driver.Pcie.State.{
  Pcie, Bus, set_dirty, ldd_mem_size, desc_size, err_no_master, err_bad_count, err_bad_desc,
  err_out_of_range, err_dma_fault, status_busy, status_done, status_error, int_dma_done,
  int_dma_error,
}
use linux_device_driver.Pcie.Irq.{update_irq}

-- One entry of the descriptor table, in the order of the CPU.
pub record Desc : Type 0 where
  pub addr : ℕ
  pub len : ℕ
  pub flags : ℕ

-- `le64_to_cpu` and `le32_to_cpu`, of as many bytes as there are.
unfoldable pub le_to_cpu : List ℕ → ℕ
le_to_cpu [] = 0
le_to_cpu (b ∷ bs) = b + 256 * le_to_cpu bs

unfoldable pub decode_desc : List ℕ → Desc
decode_desc bs = record {
  addr = le_to_cpu (slice 0 8 bs);
  len = le_to_cpu (slice 8 4 bs);
  flags = le_to_cpu (slice 12 4 bs);
}

-- `desc[0..count)`
unfoldable pub decode_table : ℕ → List ℕ → List Desc
unfolding decode_desc
decode_table zero bs = []
decode_table (suc n) bs = decode_desc (take desc_size bs) ∷ decode_table n (drop desc_size bs)

-- The sum is that of `uint64_t`.
unfoldable pub dma_ok : Pcie → ℕ → ℕ → Bool
dma_ok ps addr len = ps.dma64 || leb ((addr + len) % 2 ^ 64) (4 * 2 ^ 30)

-- What the first loop finds: the index of a bad descriptor, or the sum of the lengths.
pub data Checked : Type 0 where
  bad : ℕ → Checked
  total : ℕ → Checked

abbrev pub is_bad : Pcie → Desc → Bool
is_bad ps d = d.len == 0 || ltb ps.max_seg d.len || not (d.flags == 0)

unfoldable pub check_descs : Pcie → ℕ → ℕ → List Desc → Checked
check_descs ps i sum [] = total sum
check_descs ps i sum (d ∷ ds) =
    let rest = check_descs ps (i + 1) ((sum + d.len) % 2 ^ 64) ds in
    if is_bad ps d then bad i else rest

-- The direction bit of DMA_CTRL.
abbrev pub to_guest : Pcie → Bool
to_guest ps = not (bit_and ps.regs.dma_ctrl 1 == 0)

-- What goes out to the guest from `mem + off`: XORed, in a buffer of `uint8_t`, where XOR is set.
unfoldable pub payload : Pcie → ℕ → ℕ → List ℕ
payload ps off len =
    let bytes = slice off len ps.mem in
    if ps.regs.xor == 0 then bytes else map (λ b. bit_xor b ps.regs.xor % 256) bytes

-- `regs.xfer_bytes += len`
unfoldable pub count_bytes : ℕ → Pcie → Pcie
count_bytes len ps = record ps { regs = record r { xfer_bytes = (r.xfer_bytes + len) % 2 ^ 32 } }
  where
    open ps use {regs as r}

-- `regs.err_desc = i`
unfoldable pub blame : ℕ → Pcie → Pcie
blame i ps = record ps { regs = record r { err_desc = i } }
  where
    open ps use {regs as r}

-- `memory_region_set_dirty` over the bytes up to `off`
unfoldable pub finish : ℕ → Pcie → Pcie
finish off ps = record ps {
  effects = ps.effects ++ set_dirty first ((off + 2 ^ 32 - first) % 2 ^ 32) ∷ [];
}
  where
    open ps.regs use {dev_offset as first}

-- the test of the window in the on-board memory
abbrev pub outside : Pcie → ℕ → Bool
outside ps sum =
    let first = ps.regs.dev_offset in ltb ldd_mem_size first || ltb (ldd_mem_size - first) sum

abbrev pub bad_count : Pcie → Bool
bad_count ps = let count = ps.regs.desc_count in count == 0 || ltb ps.max_desc count

module _ {Ram : Type 0} (bus : Bus Ram) where
  -- One descriptor of the second loop, without its bookkeeping: whether it went well.
  unfoldable pub move_segment : Pcie → Ram → ℕ → Desc → Bool × Pcie × Ram
  unfolding dma_ok payload
  move_segment ps ram off d =
      if not (dma_ok ps d.addr d.len)
      then (false, ps, ram)
      else if to_guest ps
      then (let (ok, ram') = bus.dma_write ram d.addr (payload ps off d.len) in (ok, ps, ram'))
      else (let (ok, bytes) = bus.dma_read ram d.addr (slice off d.len ps.mem) in
          (ok, record ps { mem = blit ps.mem off bytes }, ram))

  -- The second loop, and what follows it. Sums of `uint32_t` wrap.
  unfoldable pub copy_descs : ℕ → ℕ → List Desc → Pcie → Ram → ℕ × Pcie × Ram
  copy_descs i off [] ps ram = (0, finish off ps, ram)
  copy_descs i off (d ∷ ds) ps ram =
      let (ok, ps', ram') = move_segment ps ram off d in
      let rest = copy_descs (i + 1) ((off + d.len) % 2 ^ 32) ds (count_bytes d.len ps') ram' in
      if ok then rest else (err_dma_fault, blame i ps', ram')

  -- The read of the descriptor table, and its entries in the order of the CPU.
  unfoldable pub fetch_table : Pcie → Ram → Bool × List Desc
  unfolding decode_table
  fetch_table ps ram =
      let size = count * desc_size in
      let (read_ok, bytes) = bus.dma_read ram desc_addr (replicate size 0) in
      (dma_ok ps desc_addr size && read_ok, decode_table count bytes)
    where
      open ps.regs use {desc_addr, desc_count as count}

  unfoldable pub transfer_checked : Pcie → Ram → List Desc → Checked → ℕ × Pcie × Ram
  transfer_checked ps ram descs (bad i) = (err_bad_desc, blame i ps, ram)
  transfer_checked ps ram descs (total sum) =
      if outside ps sum
      then (err_out_of_range, ps, ram)
      else copy_descs 0 ps.regs.dev_offset descs ps ram

  unfoldable pub transfer : Pcie → Ram → ℕ × Pcie × Ram
  unfolding transfer_checked
  transfer ps ram =
      let (fetched, descs) = fetch_table ps ram in
      if not ps.master
      then (err_no_master, ps, ram)
      else if bad_count ps
      then (err_bad_count, ps, ram)
      else if not fetched
      then (err_dma_fault, ps, ram)
      else transfer_checked ps ram descs (check_descs ps 0 0 descs)

  -- `now` is the virtual clock in microseconds.
  unfoldable pub start : ℕ → Pcie → Ram → Pcie × Ram
  unfolding transfer
  start now ps ram =
      let r = ps.regs in
      let busy = record ps {
        regs = record r { status = status_busy; xfer_bytes = 0; err_desc = 0 };
      } in
      let (code, ps', ram') = transfer busy ram in
      let r' = ps'.regs in
      (record ps' { regs = record r' { result = code }; timer = some (now + ps'.latency_us) }, ram')

-- The callback of the timer.
unfoldable pub complete : Pcie → Pcie
unfolding update_irq
complete ps =
    if r.result == 0
    then update_irq (record ps {
      regs = record r { status = status_done; int_status = bit_or r.int_status int_dma_done };
    })
    else update_irq (record ps {
      regs = record r {
        status = bit_or status_error (r.result * 2 ^ 8 % 2 ^ 32);
        int_status = bit_or r.int_status int_dma_error;
      };
    })
  where
    open ps use {regs as r}

-- The timer at time `now`, by its deadline: an expired one is disarmed and its callback runs.
unfoldable pub expire : Option ℕ → ℕ → Pcie → Pcie
expire none now ps = ps
expire (some deadline) now ps =
    if leb deadline now then complete (record ps { timer = none }) else ps

unfoldable pub run_timer : ℕ → Pcie → Pcie
unfolding complete expire
run_timer now ps = expire ps.timer now ps
