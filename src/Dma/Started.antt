-- ===== src/Dma/Started.antt =====
-- examples/27_dma/main.c with tools/qemu/hw/ldd/pcie.c: a transfer of one descriptor is accepted.
use linux_device_driver.Prelude.{
  ℕ, ◌+◌, ◌*◌, ◌%◌, ◌^◌, ◌≤◌, ◌<◌, ◌≡◌, ◌∙◌, ap, ap₂, Bool, true, false, ◌&&◌, List, [], ◌∷◌, take,
  slice, arith, replicate,
}
use linux_device_driver.Pcie.State.{Pcie, Bus, BusLaws, ldd_mem_size}
use linux_device_driver.Pcie.Transfer.{
  Desc, decode_desc, decode_table, start, fetch_table, transfer, transfer_checked, check_descs,
  copy_descs, move_segment, dma_ok, is_bad, outside, bad_count, payload,
}
use linux_device_driver.Pcie.Checks.{descs_of}
use linux_device_driver.Pcie.Engine.{launched}
use linux_device_driver.Dma.Device.{encode_desc}
use linux_device_driver.Dma.Setup.{decode_encode}

-- A bus on which every access succeeds.
pub record Works {Ram : Type 0} (bus : Bus Ram) : Type 0 where
  pub reads : (ram : Ram) (addr : ℕ) (buf : List ℕ) → (bus.dma_read ram addr buf).0 ≡ true
  pub writes : (ram : Ram) (addr : ℕ) (bytes : List ℕ) → (bus.dma_write ram addr bytes).0 ≡ true

module _ {Ram : Type 0} (bus : Bus Ram) (laws : BusLaws bus) (works : Works bus) where
  open laws use {peek}

  -- The table of one descriptor, as the driver has stored it.
  pub one_desc :
      (addr len : ℕ) (ps : Pcie) (ram : Ram)
      → ps.regs.desc_count ≡ 1
      → peek ram ps.regs.desc_addr 16 ≡ encode_desc addr len
      → addr < 2 ^ 64
      → len < 2 ^ 32
      → descs_of bus ps ram ≡ record { addr = addr; len = len; flags = 0 } ∷ []
  unfolding fetch_table decode_table encode_desc
  one_desc addr len ps ram one stored a l =
      let bytes = (bus.dma_read ram ps.regs.desc_addr (replicate 16 0)).1 in
      let e : bytes ≡ encode_desc addr len =
        laws.dma_read_lem ram ps.regs.desc_addr (replicate 16 0)
          (works.reads ram ps.regs.desc_addr (replicate 16 0))
        ∙ stored in
      ap (λ (n : ℕ). decode_table n (bus.dma_read ram ps.regs.desc_addr (replicate (n * 16) 0)).1)
        one
      ∙ ap (λ (bs : List ℕ). decode_desc (take 16 bs) ∷ []) e
      ∙ ap (λ (d : Desc). d ∷ []) (decode_encode addr len a l)

  checked_zero :
      (ps : Pcie) (ram : Ram) (d : Desc) (ds : List Desc)
      → ds ≡ d ∷ []
      → is_bad ps d ≡ false
      → outside ps (d.len % 2 ^ 64) ≡ false
      → (move_segment bus ps ram ps.regs.dev_offset d).0 ≡ true
      → (transfer_checked bus ps ram ds (check_descs ps 0 0 ds)).0 ≡ 0
  unfolding transfer_checked check_descs copy_descs
  checked_zero ps ram d ds e good inside ok = rw e (ground arith)

  moves :
      (ps : Pcie) (ram : Ram) (off : ℕ) (d : Desc)
      → dma_ok ps d.addr d.len ≡ true
      → (move_segment bus ps ram off d).0 ≡ true
  unfolding move_segment
  moves ps ram off d h = ground (
    arith,
    works.reads ram d.addr (slice off d.len ps.mem),
    works.writes ram d.addr (payload ps off d.len),
  )

  fetches :
      (ps : Pcie) (ram : Ram)
      → ps.regs.desc_count ≡ 1
      → dma_ok ps ps.regs.desc_addr 16 ≡ true
      → (fetch_table bus ps ram).0 ≡ true
  unfolding fetch_table
  fetches ps ram one h =
      ap₂ (λ (n : ℕ) (ok : Bool). dma_ok ps ps.regs.desc_addr (n * 16) && ok) one
        (works.reads ram ps.regs.desc_addr (replicate (ps.regs.desc_count * 16) 0))
      ∙ ap (λ (b : Bool). b && true) h

  transfer_zero :
      (ps : Pcie) (ram : Ram) (d : Desc)
      → ps.master ≡ true
      → 1 ≤ ps.max_desc
      → ps.regs.desc_count ≡ 1
      → descs_of bus ps ram ≡ d ∷ []
      → dma_ok ps ps.regs.desc_addr 16 ≡ true
      → is_bad ps d ≡ false
      → outside ps (d.len % 2 ^ 64) ≡ false
      → dma_ok ps d.addr d.len ≡ true
      → (transfer bus ps ram).0 ≡ 0
  unfolding transfer
  transfer_zero ps ram d m c one e table good inside reach =
      let counted : bad_count ps ≡ false = ground arith in
      let fetched : (fetch_table bus ps ram).0 ≡ true = fetches ps ram one table in
      let last =
        checked_zero ps ram d (fetch_table bus ps ram).1 e good inside
          (moves ps ram ps.regs.dev_offset d reach) in
      ground arith

  -- A transfer of one good descriptor, whose table and segment the device reaches, reports no error.
  pub start_zero :
      (now addr len : ℕ) (ps : Pcie) (ram : Ram)
      → ps.master ≡ true
      → 1 ≤ ps.max_desc
      → ps.regs.desc_count ≡ 1
      → peek ram ps.regs.desc_addr 16 ≡ encode_desc addr len
      → addr < 2 ^ 64
      → 0 < len
      → len ≤ ps.max_seg
      → ps.max_seg ≤ 0x10_0000
      → ps.regs.dev_offset + len ≤ ldd_mem_size
      → dma_ok ps ps.regs.desc_addr 16 ≡ true
      → dma_ok ps addr len ≡ true
      → (start bus now ps ram).0.regs.result ≡ 0
  unfolding start dma_ok
  start_zero now addr len ps ram m c one stored a pos seg top window reach_table reach =
      transfer_zero (launched ps) ram (record { addr = addr; len = len; flags = 0 }) m c one
        (one_desc addr len (launched ps) ram one stored a (omega arith)) reach_table (ground arith)
        (ground arith) reach
