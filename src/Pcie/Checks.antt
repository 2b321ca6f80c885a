-- ===== src/Pcie/Checks.antt =====
-- tools/qemu/hw/ldd/pcie.c: what the checks of a transfer let through, and what a refused transfer
-- leaves alone.
use linux_device_driver.Prelude.{
  ℕ, zero, suc, ◌+◌, ◌*◌, ◌^◌, ◌≤◌, ◌<◌, ◌≡◌, ◌⊎◌, refl, true, false, not, some, List, arith,
  if_cases, inl, inr, length, get_elem?, take, drop, ap, Bool, ◌&&◌, Bool-cases, replicate,
}
use linux_device_driver.Pcie.State.{Pcie, Bus, ldd_mem_size}
use linux_device_driver.Pcie.Transfer.{
  Desc, Checked, bad, total, outside, bad_count, fetch_table, transfer_checked, transfer,
  copy_descs, decode_table, blame, to_guest, dma_ok,
}
use linux_device_driver.Pcie.Verdict.{sum_len, IsGood, AllGood, Verdict, check_descs-Verdict}
use linux_device_driver.Pcie.Reached.{
  Reaches, AllReach, dma_ok-Reaches, not-Reaches, Copied, copy_descs-Copied,
}

and_left : (a b : Bool) → (a && b) ≡ true → a ≡ true
and_left a b h = ground arith

and_right : (a b : Bool) → (a && b) ≡ true → b ≡ true
and_right a b h = ground arith

mul-le : (a b m n : ℕ) → a ≤ m → b ≤ n → a * b ≤ m * n
mul-le a b m n p q = grind arith

length-decode_table : (n : ℕ) (bs : List ℕ) → length (decode_table n bs) ≡ n
unfolding decode_table
length-decode_table zero bs = refl
length-decode_table (suc n) bs = ap suc (length-decode_table n (drop 16 bs))

-- What `ldd_pcie_realize` accepts, and a count that the transfer accepts.
pub record IsRealizable (ps : Pcie) : Type 0 where
  pub seg_low : 512 ≤ ps.max_seg
  pub seg_high : ps.max_seg ≤ 0x10_0000
  pub desc_low : 1 ≤ ps.max_desc
  pub desc_high : ps.max_desc ≤ 4096

module _ {Ram : Type 0} (bus : Bus Ram) where
  abbrev pub descs_of : Pcie → Ram → List Desc
  descs_of ps ram = (fetch_table bus ps ram).1

  -- The device reaches the whole table of descriptors.
  abbrev pub TableReached : Pcie → Type 0
  TableReached ps = Reaches ps.dma64 ps.regs.desc_addr (ps.regs.desc_count * 16)

  -- Whether the read of the table goes well.
  abbrev pub table_read : Pcie → Ram → Bool
  table_read ps ram =
      let r = ps.regs in (bus.dma_read ram r.desc_addr (replicate (r.desc_count * 16) 0)).0

  -- What a transfer checks before it reads the table.
  pub record Begun (ps : Pcie) : Type 0 where
    pub bus_master : ps.master ≡ true
    pub count_low : 0 < ps.regs.desc_count
    pub count_high : ps.regs.desc_count ≤ ps.max_desc

  pub record Fetched (ps : Pcie) (ram : Ram) : Type 0 where
    pub begun : Begun ps
    pub reached : TableReached ps
    pub read : table_read ps ram ≡ true

  -- Everything that a transfer checks before it moves data.
  pub record Accepted (ps : Pcie) (ram : Ram) (ds : List Desc) : Type 0 where
    pub fetched : Fetched ps ram
    pub good : AllGood ps.max_seg ds
    pub window : ps.regs.dev_offset + sum_len ds ≤ ldd_mem_size

  -- The checks before the first segment, and that each segment is reached.
  abbrev pub Passed : Pcie → Ram → List Desc → Type 0
  Passed ps ram ds = Accepted ps ram ds × AllReach ps.dma64 ds

  -- The one reason why a transfer is refused, with the code that it reports. Nothing is moved, and only
  -- a bad descriptor leaves a trace, its number in ERR_DESC.
  pub data Refused (ps : Pcie) (ram : Ram) (t : ℕ × Pcie × Ram) : Type 0 where
    no_master : t ≡ (1, ps, ram) → ps.master ≡ false → Refused ps ram t
    bad_table :
        t ≡ (2, ps, ram)
        → ps.master ≡ true
        → (ps.regs.desc_count ≡ 0) ⊎ (ps.max_desc < ps.regs.desc_count)
        → Refused ps ram t
    not_fetched :
        t ≡ (5, ps, ram)
        → Begun ps
        → (¬ TableReached ps) ⊎ (table_read ps ram ≡ false)
        → Refused ps ram t
    bad_desc :
        (k : ℕ) (d : Desc)
        → t ≡ (3, blame k ps, ram)
        → Fetched ps ram
        → AllGood ps.max_seg (take k (descs_of ps ram))
        → get_elem? (descs_of ps ram) k ≡ some d
        → ¬ IsGood ps.max_seg d
        → Refused ps ram t
    out_of_range :
        t ≡ (4, ps, ram)
        → Fetched ps ram
        → AllGood ps.max_seg (descs_of ps ram)
        → ldd_mem_size < ps.regs.dev_offset + sum_len (descs_of ps ram)
        → Refused ps ram t

  pub Refused-code : (ps : Pcie) (ram : Ram) (t : ℕ × Pcie × Ram) → Refused ps ram t → 0 < t.0
  Refused-code ps ram t (no_master e _) = omega (arith, ap (λ x. x.0) e)
  Refused-code ps ram t (bad_table e _ _) = omega (arith, ap (λ x. x.0) e)
  Refused-code ps ram t (not_fetched e _ _) = omega (arith, ap (λ x. x.0) e)
  Refused-code ps ram t (bad_desc k d e _ _ _ _) = omega (arith, ap (λ x. x.0) e)
  Refused-code ps ram t (out_of_range e _ _ _) = omega (arith, ap (λ x. x.0) e)

  -- How a transfer ends: it has passed the checks and copied, as far as it could, or was refused.
  abbrev pub Outcome : Pcie → Ram → ℕ × Pcie × Ram → Type 0
  Outcome ps ram t =
      Accepted ps ram (descs_of ps ram)
        × (t ≡ copy_descs bus 0 ps.regs.dev_offset (descs_of ps ram) ps ram)
        × Copied bus (to_guest ps) ps.dma64 0 (descs_of ps ram) t
      ⊎ Refused ps ram t

  length-descs_of : (ps : Pcie) (ram : Ram) → length (descs_of ps ram) ≡ ps.regs.desc_count
  unfolding fetch_table
  length-descs_of ps ram = length-decode_table ps.regs.desc_count _

  Begun-of : (ps : Pcie) → ps.master ≡ true → bad_count ps ≡ false → Begun ps
  Begun-of ps m b = record { bus_master = m; count_low = ground arith; count_high = ground arith }

  -- A table that is fetched is reached and read, and one that is not, is not.
  Fetched-of :
      (ps : Pcie) (ram : Ram) → Begun ps → (fetch_table bus ps ram).0 ≡ true → Fetched ps ram
  unfolding fetch_table
  Fetched-of ps ram b f = record {
    begun = b;
    reached =
        dma_ok-Reaches ps ps.regs.desc_addr (ps.regs.desc_count * 16)
          (and_left (dma_ok ps ps.regs.desc_addr (ps.regs.desc_count * 16)) (table_read ps ram) f);
    read = and_right (dma_ok ps ps.regs.desc_addr (ps.regs.desc_count * 16)) (table_read ps ram) f;
  }

  not-Fetched :
      (ps : Pcie) (ram : Ram)
      → (fetch_table bus ps ram).0 ≡ false
      → (¬ TableReached ps) ⊎ (table_read ps ram ≡ false)
  unfolding fetch_table
  not-Fetched ps ram f = elim (Bool-cases (dma_ok ps ps.regs.desc_addr (ps.regs.desc_count * 16))) [
    | inl y ↦ inr (ground arith)
    | inr n ↦ inl (not-Reaches ps ps.regs.desc_addr (ps.regs.desc_count * 16) n)
  ]

  transfer_checked-Outcome :
      (ps : Pcie) (ram : Ram) (c : Checked)
      → Fetched ps ram
      → Verdict ps 0 0 (descs_of ps ram) c
      → Outcome ps ram (transfer_checked bus ps ram (descs_of ps ram) c)
  unfolding transfer_checked
  transfer_checked-Outcome ps ram (bad j) f (k, d, e, gs, at, n) =
      let same : j ≡ k = omega (arith, e) in
      inr (bad_desc k d (ap (λ i. (3, blame i ps, ram)) same) f gs at n)
  transfer_checked-Outcome ps ram (total sum) f v =
      if_cases (Outcome ps ram) (outside ps sum) (λ o. inr (out_of_range refl f v.0 (ground arith)))
        λ o. inl (
          record { fetched = f; good = v.0; window = ground arith },
          refl,
          copy_descs-Copied bus (to_guest ps) ps.dma64 0 ps.regs.dev_offset (descs_of ps ram) ps ram
              refl refl,
        )

  pub transfer-Outcome :
      (ps : Pcie) (ram : Ram) → IsRealizable ps → Outcome ps ram (transfer bus ps ram)
  unfolding transfer
  transfer-Outcome ps ram z =
      if_cases (Outcome ps ram) (not ps.master) (λ m. inr (no_master refl (ground arith)))
        λ m.
          if_cases (Outcome ps ram) (bad_count ps)
            (λ b. inr (bad_table refl (ground arith) (bad_count_why b)))
            λ b.
              let begun = Begun-of ps (ground arith) b in
              if_cases (Outcome ps ram) (not (fetch_table bus ps ram).0)
                (λ f. inr (not_fetched refl begun (not-Fetched ps ram (ground arith))))
                λ f.
                  transfer_checked-Outcome ps ram _ (Fetched-of ps ram begun (ground arith))
                    (check_descs-Verdict ps 0 0 (descs_of ps ram) (short (ground arith)))
    where
      bad_count_why :
          bad_count ps ≡ true → (ps.regs.desc_count ≡ 0) ⊎ (ps.max_desc < ps.regs.desc_count)
      bad_count_why b = ground arith

      short : ps.regs.desc_count ≤ ps.max_desc → 0 + length (descs_of ps ram) * ps.max_seg < 2 ^ 64
      short h = omega (
        arith,
        length-descs_of ps ram,
        mul-le (length (descs_of ps ram)) ps.max_seg 4096 0x10_0000
            (omega (arith, length-descs_of ps ram, z.desc_high)) z.seg_high,
      )
