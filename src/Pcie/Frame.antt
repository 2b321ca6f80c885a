-- ===== src/Pcie/Frame.antt =====
-- tools/qemu/hw/ldd/pcie.c: what a transfer leaves alone.
use linux_device_driver.Prelude.{
  ℕ, ◌+◌, ◌^◌, ◌≤◌, ◌≡◌, ◌⊎◌, ◌%◌, refl, List, [], ◌∷◌, arith, length, length-blit, Bool-cases,
  if_cases, not, inl, inr, slice,
}
use linux_device_driver.Pcie.State.{Pcie, Bus, err_no_master, err_bad_count, err_dma_fault}
use linux_device_driver.Pcie.Transfer.{
  Desc, Checked, bad, total, move_segment, copy_descs, transfer, check_descs, fetch_table,
  transfer_checked, outside, bad_count, count_bytes, blame, finish,
}

-- The device `b` is the device `a` but for what a transfer writes: `err_desc`, `xfer_bytes`, the
-- on-board memory, and the calls out.
pub record Frame (a b : Pcie) : Type 0 where
  pub dma64_same : b.dma64 ≡ a.dma64
  pub max_seg_same : b.max_seg ≡ a.max_seg
  pub max_desc_same : b.max_desc ≡ a.max_desc
  pub latency_same : b.latency_us ≡ a.latency_us
  pub timer_same : b.timer ≡ a.timer
  pub msix_same : b.msix_enabled ≡ a.msix_enabled
  pub msi_same : b.msi_enabled ≡ a.msi_enabled
  pub master_same : b.master ≡ a.master
  pub length_same : length b.mem ≡ length a.mem
  pub scratch_same : b.regs.scratch ≡ a.regs.scratch
  pub status_same : b.regs.status ≡ a.regs.status
  pub int_status_same : b.regs.int_status ≡ a.regs.int_status
  pub int_mask_same : b.regs.int_mask ≡ a.regs.int_mask
  pub desc_addr_same : b.regs.desc_addr ≡ a.regs.desc_addr
  pub desc_count_same : b.regs.desc_count ≡ a.regs.desc_count
  pub dev_offset_same : b.regs.dev_offset ≡ a.regs.dev_offset
  pub dma_ctrl_same : b.regs.dma_ctrl ≡ a.regs.dma_ctrl
  pub xor_same : b.regs.xor ≡ a.regs.xor
  pub irq_sent_same : b.regs.irq_sent ≡ a.regs.irq_sent
  pub result_same : b.regs.result ≡ a.regs.result

pub Frame-refl : (a : Pcie) → Frame a a
Frame-refl a = ground arith

pub Frame-trans : (a b c : Pcie) → Frame a b → Frame b c → Frame a c
Frame-trans a b c p q = ground arith

count_bytes-Frame : (n : ℕ) (a : Pcie) → Frame a (count_bytes n a)
unfolding count_bytes
count_bytes-Frame n a = ground arith

blame-Frame : (i : ℕ) (a : Pcie) → Frame a (blame i a)
unfolding blame
blame-Frame i a = ground arith

finish-Frame : (off : ℕ) (a : Pcie) → Frame a (finish off a)
unfolding finish
finish-Frame off a = ground arith

module _ {Ram : Type 0} (bus : Bus Ram) where
  pub move_segment-Frame :
      (ps : Pcie) (ram : Ram) (off : ℕ) (d : Desc) → Frame ps (move_segment bus ps ram off d).1
  unfolding move_segment
  move_segment-Frame ps ram off d =
      ground (arith, length-blit ps.mem off (bus.dma_read ram d.addr (slice off d.len ps.mem)).1)

  pub copy_descs-Frame :
      (i off : ℕ) (ds : List Desc) (ps : Pcie) (ram : Ram)
      → Frame ps (copy_descs bus i off ds ps ram).1
  unfolding copy_descs
  copy_descs-Frame i off [] ps ram = finish-Frame off ps
  copy_descs-Frame i off (d ∷ ds) ps ram =
      let (ok, ps', ram') = move_segment bus ps ram off d in
      let next = count_bytes d.len ps' in
      let here = move_segment-Frame ps ram off d in
      elim (Bool-cases ok) [
        | inl e ↦ rw e (
            Frame-trans ps next _ (Frame-trans ps ps' next here (count_bytes-Frame d.len ps'))
              (copy_descs-Frame (i + 1) ((off + d.len) % 2 ^ 32) ds next ram'))
        | inr e ↦ rw e (Frame-trans ps ps' _ here (blame-Frame i ps'))
      ]

  transfer_checked-Frame :
      (ps : Pcie) (ram : Ram) (ds : List Desc) (c : Checked)
      → Frame ps (transfer_checked bus ps ram ds c).1
  unfolding transfer_checked
  transfer_checked-Frame ps ram ds (bad i) = blame-Frame i ps
  transfer_checked-Frame ps ram ds (total sum) = elim (Bool-cases (outside ps sum)) [
    | inl e ↦ rw e (Frame-refl ps)
    | inr e ↦ rw e (copy_descs-Frame 0 ps.regs.dev_offset ds ps ram)
  ]

  -- To prove something of a transfer, prove it of its six ways out.
  pub transfer_cases {ℓ} :
      (P : ℕ × Pcie × Ram → Type ℓ) (ps : Pcie) (ram : Ram)
      → P (err_no_master, ps, ram)
      → P (err_bad_count, ps, ram)
      → P (err_dma_fault, ps, ram)
      → ((c : Checked) → P (transfer_checked bus ps ram (fetch_table bus ps ram).1 c))
      → P (transfer bus ps ram)
  unfolding transfer
  transfer_cases P ps ram no_master bad_c fault checked =
      let (fetched, descs) = fetch_table bus ps ram in
      if_cases P (not ps.master) (λ _. no_master)
        λ _.
          if_cases P (bad_count ps) (λ _. bad_c)
            λ _. if_cases P (not fetched) (λ _. fault) λ _. checked (check_descs ps 0 0 descs)

  pub transfer-Frame : (ps : Pcie) (ram : Ram) → Frame ps (transfer bus ps ram).1
  transfer-Frame ps ram =
      transfer_cases (λ t. Frame ps t.1) ps ram (Frame-refl ps) (Frame-refl ps) (Frame-refl ps)
        (transfer_checked-Frame ps ram (fetch_table bus ps ram).1)

  -- The code of a transfer is one of STATUS.ERR_CODE, or 0.
  pub copy_descs-code :
      (i off : ℕ) (ds : List Desc) (ps : Pcie) (ram : Ram)
      → let code = (copy_descs bus i off ds ps ram).0 in (code ≡ 0) ⊎ (code ≡ err_dma_fault)
  unfolding copy_descs
  copy_descs-code i off [] ps ram = inl refl
  copy_descs-code i off (d ∷ ds) ps ram =
      let (ok, ps', ram') = move_segment bus ps ram off d in
      ground
        (arith, copy_descs-code (i + 1) ((off + d.len) % 2 ^ 32) ds (count_bytes d.len ps') ram')

  transfer_checked-code :
      (ps : Pcie) (ram : Ram) (ds : List Desc) (c : Checked)
      → (transfer_checked bus ps ram ds c).0 ≤ 5
  unfolding transfer_checked
  transfer_checked-code ps ram ds (bad i) = omega arith
  transfer_checked-code ps ram ds (total sum) =
      ground (arith, copy_descs-code 0 ps.regs.dev_offset ds ps ram)

  pub transfer-code-le : (ps : Pcie) (ram : Ram) → (transfer bus ps ram).0 ≤ 5
  transfer-code-le ps ram =
      transfer_cases (λ t. t.0 ≤ 5) ps ram (omega arith) (omega arith) (omega arith)
        (transfer_checked-code ps ram (fetch_table bus ps ram).1)
