-- ===== src/Sg/Started.antt =====
-- examples/28_dma_sg/main.c with tools/qemu/hw/ldd/pcie.c: a transfer of several descriptors is accepted.
use linux_device_driver.Prelude.{
  ℕ, ◌+◌, ◌*◌, ◌%◌, ◌^◌, ◌≤◌, ◌<◌, ◌≡◌, refl, sym, ◌∙◌, ap, ap₂, Bool, true, false, ◌&&◌, List, [],
  ◌∷◌, length, slice, arith, replicate, if_cases, if◌then◌else◌, length-replicate,
}
use linux_device_driver.Pcie.State.{Pcie, Bus, BusLaws, ldd_mem_size}
use linux_device_driver.Pcie.Transfer.{
  Desc, Checked, total, decode_table, start, fetch_table, transfer, transfer_checked, check_descs,
  copy_descs, move_segment, count_bytes, dma_ok, outside, bad_count, payload,
}
use linux_device_driver.Pcie.Verdict.{sum_len, AllGood}
use linux_device_driver.Pcie.Checks.{descs_of}
use linux_device_driver.Pcie.Engine.{launched}
use linux_device_driver.Dma.Started.{Works}
use linux_device_driver.Sg.Device.{encode_table}
use linux_device_driver.Sg.Table.{AllWords, AllReached, decode_table-encode_table, checked_lem}

pub reached_same :
    (a b : Pcie) (ds : List Desc) → a.dma64 ≡ b.dma64 → AllReached a ds → AllReached b ds
unfolding dma_ok
reached_same a b [] e r = tt
reached_same a b (d ∷ ds) e (r, rs) = (ground arith, reached_same a b ds e rs)

module _ {Ram : Type 0} (bus : Bus Ram) (laws : BusLaws bus) (works : Works bus) where
  open laws use {peek}

  -- The device finds the segments in the table.
  pub descs_lem :
      (ds : List Desc) (ps : Pcie) (ram : Ram)
      → ps.regs.desc_count ≡ length ds
      → peek ram ps.regs.desc_addr (length ds * 16) ≡ encode_table ds
      → AllWords ds
      → descs_of bus ps ram ≡ ds
  unfolding fetch_table
  descs_lem ds ps ram count stored w =
      let n = length ds in
      let bytes = (bus.dma_read ram ps.regs.desc_addr (replicate (n * 16) 0)).1 in
      let e : bytes ≡ encode_table ds =
        laws.dma_read_lem ram ps.regs.desc_addr (replicate (n * 16) 0)
          (works.reads ram ps.regs.desc_addr (replicate (n * 16) 0))
        ∙ ap (peek ram ps.regs.desc_addr) (length-replicate (n * 16) 0)
        ∙ stored in
      ap (λ (k : ℕ). decode_table k (bus.dma_read ram ps.regs.desc_addr (replicate (k * 16) 0)).1)
        count
      ∙ ap (decode_table n) e
      ∙ decode_table-encode_table ds w

  moves :
      (ps : Pcie) (ram : Ram) (off : ℕ) (d : Desc)
      → dma_ok ps d.addr d.len ≡ true
      → ((move_segment bus ps ram off d).0 ≡ true)
        × ((move_segment bus ps ram off d).1.dma64 ≡ ps.dma64)
  unfolding move_segment
  moves ps ram off d h = ground (
    arith,
    works.reads ram d.addr (slice off d.len ps.mem),
    works.writes ram d.addr (payload ps off d.len),
  )

  copies :
      (i off : ℕ) (ds : List Desc) (ps : Pcie) (ram : Ram)
      → AllReached ps ds
      → (copy_descs bus i off ds ps ram).0 ≡ 0
  unfolding copy_descs
  copies i off [] ps ram r = refl
  copies i off (d ∷ ds) ps ram (r, rs) =
      let (ok, ps', ram') = move_segment bus ps ram off d in
      let m = moves ps ram off d r in
      if_cases (λ (t : ℕ × Pcie × Ram). t.0 ≡ 0) ok
        (λ _.
          copies (i + 1) ((off + d.len) % 2 ^ 32) ds (count_bytes d.len ps') ram'
            (unfold count_bytes in reached_same ps _ ds (sym m.1) rs))
        λ e. ground arith

  fetches :
      (n : ℕ) (ps : Pcie) (ram : Ram)
      → ps.regs.desc_count ≡ n
      → dma_ok ps ps.regs.desc_addr (n * 16) ≡ true
      → (fetch_table bus ps ram).0 ≡ true
  unfolding fetch_table
  fetches n ps ram count h =
      ap₂ (λ (k : ℕ) (ok : Bool). dma_ok ps ps.regs.desc_addr (k * 16) && ok) count
        (works.reads ram ps.regs.desc_addr (replicate (ps.regs.desc_count * 16) 0))
      ∙ ap (λ (b : Bool). b && true) h

  checked_zero :
      (ps : Pcie) (ram : Ram) (ds : List Desc)
      → AllGood ps.max_seg ds
      → ps.regs.dev_offset + sum_len ds ≤ ldd_mem_size
      → AllReached ps ds
      → (transfer_checked bus ps ram ds (check_descs ps 0 0 ds)).0 ≡ 0
  unfolding transfer_checked
  checked_zero ps ram ds g w r =
      let inside : outside ps (sum_len ds) ≡ false = ground arith in
      let none_before : 0 + sum_len ds ≡ sum_len ds = omega arith in
      ap (λ (c : Checked). (transfer_checked bus ps ram ds c).0)
        (checked_lem ps 0 0 ds g (omega arith) ∙ ap total none_before)
      ∙ ap
          (λ (b : Bool).
            (if b then (4, ps, ram) else copy_descs bus 0 ps.regs.dev_offset ds ps ram).0)
          inside
      ∙ copies 0 ps.regs.dev_offset ds ps ram r

  transfer_zero :
      (ps : Pcie) (ram : Ram) (ds : List Desc)
      → ps.master ≡ true
      → 0 < length ds
      → length ds ≤ ps.max_desc
      → ps.regs.desc_count ≡ length ds
      → descs_of bus ps ram ≡ ds
      → dma_ok ps ps.regs.desc_addr (length ds * 16) ≡ true
      → AllGood ps.max_seg ds
      → ps.regs.dev_offset + sum_len ds ≤ ldd_mem_size
      → AllReached ps ds
      → (transfer bus ps ram).0 ≡ 0
  unfolding transfer
  transfer_zero ps ram ds m some most count e table g w r =
      let counted : bad_count ps ≡ false = ground arith in
      let fetched : (fetch_table bus ps ram).0 ≡ true = fetches (length ds) ps ram count table in
      let last =
        ap (λ (xs : List Desc). (transfer_checked bus ps ram xs (check_descs ps 0 0 xs)).0) e
        ∙ checked_zero ps ram ds g w r in
      ground arith

  -- A transfer of good descriptors, which the device reaches with their table, reports no error.
  pub start_zero :
      (now : ℕ) (ds : List Desc) (ps : Pcie) (ram : Ram)
      → ps.master ≡ true
      → 0 < length ds
      → length ds ≤ ps.max_desc
      → ps.regs.desc_count ≡ length ds
      → peek ram ps.regs.desc_addr (length ds * 16) ≡ encode_table ds
      → AllWords ds
      → AllGood ps.max_seg ds
      → ps.regs.dev_offset + sum_len ds ≤ ldd_mem_size
      → dma_ok ps ps.regs.desc_addr (length ds * 16) ≡ true
      → AllReached ps ds
      → (start bus now ps ram).0.regs.result ≡ 0
  unfolding start dma_ok
  start_zero now ds ps ram m some most count stored words good window table reach =
      transfer_zero (launched ps) ram ds m some most count
        (descs_lem ds (launched ps) ram count stored words) table good window
        (reached_same ps (launched ps) ds refl reach)
