-- ===== src/Pcie/Copy.antt =====
-- tools/qemu/hw/ldd/pcie.c: the data that the second loop of a transfer moves.
use linux_device_driver.Prelude.{
  ℕ, ◌+◌, ◌^◌, ◌%◌, ◌≤◌, ◌<◌, ◌≡◌, ◌⊎◌, refl, sym, ap, ap₂, ◌∙◌, Bool, true, false, not, List, [],
  ◌∷◌, ◌++◌, map, arith, ◌==◌, if◌then◌else◌, if_cases, length, slice, blit, length-slice,
  length-blit, length-map, blit-blit, blit-nil, slice-append-slice, bit_xor, bit_and,
}
use mathlib.Core.List.{map-append}
use linux_device_driver.Pcie.State.{Pcie, Bus, BusLaws, ldd_mem_size}
use linux_device_driver.Pcie.Transfer.{
  Desc, to_guest, payload, move_segment, copy_descs, count_bytes, finish,
}
use linux_device_driver.Pcie.Verdict.{sum_len}

xor_out-append :
    (b : Bool) (f : ℕ → ℕ) (xs ys : List ℕ)
    → (if b then xs else map f xs) ++ (if b then ys else map f ys)
      ≡ (if b then xs ++ ys else map f (xs ++ ys))
xor_out-append true f xs ys = refl
xor_out-append false f xs ys = sym (map-append f xs ys)

xor_out-nil : (b : Bool) (f : ℕ → ℕ) → (if b then [] else map f []) ≡ []
xor_out-nil true f = refl
xor_out-nil false f = refl

length-xor_out :
    (b : Bool) (f : ℕ → ℕ) (xs : List ℕ) → length (if b then xs else map f xs) ≡ length xs
length-xor_out true f xs = refl
length-xor_out false f xs = length-map xs f

module _ {Ram : Type 0} (bus : Bus Ram) (laws : BusLaws bus) where
  open laws use {peek}

  -- What the guest's memory holds at the segments of a table, one after the other.
  unfoldable pub gather : Ram → List Desc → List ℕ
  gather ram [] = []
  gather ram (d ∷ ds) = peek ram d.addr d.len ++ gather ram ds

  -- One segment to the device: only the on-board memory changes, by what the guest holds there.
  move_segment_in :
      (ps : Pcie) (ram : Ram) (off : ℕ) (d : Desc)
      → to_guest ps ≡ false
      → off + d.len ≤ length ps.mem
      → (move_segment bus ps ram off d).0 ≡ true
      → let (ok, ps', ram') = move_segment bus ps ram off d in
        (ram' ≡ ram)
        × (ps'.regs ≡ ps.regs)
        × (ps'.mem ≡ blit ps.mem off (peek ram d.addr d.len))
        × (length (peek ram d.addr d.len) ≡ d.len)
  unfolding move_segment
  move_segment_in ps ram off d g h ok = ground (
    arith,
    laws.dma_read_lem ram d.addr (slice off d.len ps.mem),
    length-slice off d.len ps.mem,
    ap (peek ram d.addr) fits,
    laws.length-dma_read ram d.addr (slice off d.len ps.mem),
  )
    where
      fits : length (slice off d.len ps.mem) ≡ d.len
      fits = omega (arith, length-slice off d.len ps.mem)

  -- The second loop without a fault, to the device: guest memory stays, the segments stand in the
  -- on-board memory from `off` on, and their bytes are counted.
  abbrev pub In : ℕ → List Desc → Pcie → Ram → ℕ × Pcie × Ram → Type 0
  In off ds ps ram t =
      t.0 ≡ 0
      → (t.2 ≡ ram)
        × (t.1.mem ≡ blit ps.mem off (gather ram ds))
        × (t.1.regs.xfer_bytes ≡ ps.regs.xfer_bytes + sum_len ds)

  In-cons :
      (off off' : ℕ) (d : Desc) (ds : List Desc) (ps ps' : Pcie) (ram ram' : Ram)
      (t : ℕ × Pcie × Ram)
      → ram' ≡ ram
      → ps'.regs ≡ ps.regs
      → ps'.mem ≡ blit ps.mem off (peek ram d.addr d.len)
      → off' ≡ off + length (peek ram d.addr d.len)
      → ps.regs.xfer_bytes + d.len < 2 ^ 32
      → In off' ds (count_bytes d.len ps') ram' t
      → In off (d ∷ ds) ps ram t
  unfolding gather sum_len count_bytes
  In-cons off off' d ds ps ps' ram ram' t er eg em eo x ih c =
      let (same, new, bytes) = ih c in
      (
        same ∙ er,
        new
            ∙ ap₂ (λ m r. blit m off' (gather r ds)) em er
            ∙ blit-blit ps.mem off off' (peek ram d.addr d.len) (gather ram ds) eo,
        omega (arith, bytes, ap (λ r. r.xfer_bytes) eg),
      )

  pub copy_descs-In :
      (i off : ℕ) (ds : List Desc) (ps : Pcie) (ram : Ram)
      → to_guest ps ≡ false
      → length ps.mem ≡ ldd_mem_size
      → off + sum_len ds ≤ ldd_mem_size
      → ps.regs.xfer_bytes ≤ off
      → In off ds ps ram (copy_descs bus i off ds ps ram)
  unfolding copy_descs gather sum_len finish count_bytes
  copy_descs-In i off [] ps ram g l h x = λ c. (refl, sym (blit-nil ps.mem off), omega arith)
  copy_descs-In i off (d ∷ ds) ps ram g l h x =
      let (ok, ps', ram') = move_segment bus ps ram off d in
      if_cases (In off (d ∷ ds) ps ram) ok
        (λ e c.
          let (same, regs, new, size) = move_segment_in ps ram off d g (omega arith) e in
          let next = count_bytes d.len ps' in
          In-cons off _ d ds ps ps' ram ram'
            (copy_descs bus (i + 1) ((off + d.len) % 2 ^ 32) ds next ram') same regs new
            (omega (arith, size)) (omega arith)
            (copy_descs-In (i + 1) ((off + d.len) % 2 ^ 32) ds next ram'
              (ap (λ r. not (bit_and r.dma_ctrl 1 == 0)) regs ∙ g)
              (ap length new ∙ length-blit ps.mem off (peek ram d.addr d.len) ∙ l) (omega arith)
              (omega (arith, ap (λ r. r.xfer_bytes) regs)))
            c)
        λ e c. absurd (omega arith)

  -- The range of `n` bytes at `a` meets no segment of the table.
  abbrev pub Away : ℕ → ℕ → List Desc → Type 0
  Away a n [] = Unit {0}
  Away a n (d ∷ ds) = ((d.addr + d.len ≤ a) ⊎ (a + n ≤ d.addr)) × Away a n ds

  -- No two segments of the table overlap.
  abbrev pub Apart : List Desc → Type 0
  Apart [] = Unit {0}
  Apart (d ∷ ds) = Away d.addr d.len ds × Apart ds

  length-payload : (ps : Pcie) (off n : ℕ) → off + n ≤ length ps.mem → length (payload ps off n) ≡ n
  unfolding payload
  length-payload ps off n h = omega (
    arith,
    length-slice off n ps.mem,
    length-xor_out (ps.regs.xor == 0) (λ b. bit_xor b ps.regs.xor % 256) (slice off n ps.mem),
  )

  payload-append :
      (ps : Pcie) (off m n : ℕ)
      → off + m ≤ length ps.mem
      → payload ps off m ++ payload ps (off + m) n ≡ payload ps off (m + n)
  unfolding payload
  payload-append ps off m n h =
      let f = λ (b : ℕ). bit_xor b ps.regs.xor % 256 in
      xor_out-append (ps.regs.xor == 0) f (slice off m ps.mem) (slice (off + m) n ps.mem)
      ∙ ap (λ (bs : List ℕ). if ps.regs.xor == 0 then bs else map f bs)
          (slice-append-slice ps.mem off m n (off + m) refl h)

  -- The same bytes go out while the on-board memory and the registers stay.
  payload_same :
      (a b : Pcie) (off n : ℕ)
      → b.mem ≡ a.mem
      → b.regs.xor ≡ a.regs.xor
      → payload b off n ≡ payload a off n
  unfolding payload
  payload_same a b off n em ex =
      ap₂
        (λ (mem : List ℕ) (x : ℕ).
          if x == 0 then slice off n mem else map (λ y. bit_xor y x % 256) (slice off n mem))
        em ex

  -- One segment to the guest: what goes out stands at its address, the rest of the guest's memory
  -- and the device stay.
  move_segment_out :
      (ps : Pcie) (ram : Ram) (off : ℕ) (d : Desc)
      → to_guest ps ≡ true
      → off + d.len ≤ length ps.mem
      → (move_segment bus ps ram off d).0 ≡ true
      → let (ok, ps', ram') = move_segment bus ps ram off d in
        (ps' ≡ ps)
        × (peek ram' d.addr d.len ≡ payload ps off d.len)
        × ((a n : ℕ) → (d.addr + d.len ≤ a) ⊎ (a + n ≤ d.addr) → peek ram' a n ≡ peek ram a n)
  unfolding move_segment
  move_segment_out ps ram off d g h ok = (
    ground arith,
    ground
        (arith, laws.dma_write_lem ram d.addr (payload ps off d.len), length-payload ps off d.len),
    λ a n away. ground (
      arith,
      laws.dma_write_apart ram d.addr (payload ps off d.len) a n,
      length-payload ps off d.len,
    ),
  )

  -- The second loop without a fault, to the guest: the on-board memory stays, its bytes stand,
  -- behind the XOR, at the segments in order, the bytes are counted, and the rest of the guest's
  -- memory stays.
  abbrev pub Out : ℕ → List Desc → Pcie → Ram → ℕ × Pcie × Ram → Type 0
  Out off ds ps ram t =
      t.0 ≡ 0
      → (t.1.mem ≡ ps.mem)
        × (gather t.2 ds ≡ payload ps off (sum_len ds))
        × (t.1.regs.xfer_bytes ≡ ps.regs.xfer_bytes + sum_len ds)
        × ((a n : ℕ) → Away a n ds → peek t.2 a n ≡ peek ram a n)

  Out-cons :
      (off off' : ℕ) (d : Desc) (ds : List Desc) (ps ps' : Pcie) (ram ram' : Ram)
      (t : ℕ × Pcie × Ram)
      → Away d.addr d.len ds
      → off + d.len ≤ length ps.mem
      → ps' ≡ ps
      → peek ram' d.addr d.len ≡ payload ps off d.len
      → ((a n : ℕ) → (d.addr + d.len ≤ a) ⊎ (a + n ≤ d.addr) → peek ram' a n ≡ peek ram a n)
      → off' ≡ off + d.len
      → ps.regs.xfer_bytes + d.len < 2 ^ 32
      → Out off' ds (count_bytes d.len ps') ram' t
      → Out off (d ∷ ds) ps ram t
  unfolding gather sum_len count_bytes
  Out-cons off off' d ds ps ps' ram ram' t away fit e at rest eo x ih c =
      let (same, out, bytes, keep) = ih c in
      (
        same ∙ ap (λ p. p.mem) e,
        ap₂ ◌++◌ (keep d.addr d.len away ∙ at) (
              out
              ∙ payload_same ps _ off' (sum_len ds) (ap (λ p. p.mem) e) (ap (λ p. p.regs.xor) e)
              ∙ ap (λ o. payload ps o (sum_len ds)) eo)
            ∙ payload-append ps off d.len (sum_len ds) fit,
        omega (arith, bytes, ap (λ p. p.regs.xfer_bytes) e),
        λ a n h. keep a n h.1 ∙ rest a n h.0,
      )

  pub copy_descs-Out :
      (i off : ℕ) (ds : List Desc) (ps : Pcie) (ram : Ram)
      → to_guest ps ≡ true
      → Apart ds
      → off + sum_len ds ≤ length ps.mem
      → length ps.mem ≡ ldd_mem_size
      → ps.regs.xfer_bytes ≤ off
      → Out off ds ps ram (copy_descs bus i off ds ps ram)
  unfolding copy_descs gather sum_len finish count_bytes
  copy_descs-Out i off [] ps ram g w h l x = λ c. (
    refl,
    unfold payload in sym (xor_out-nil (ps.regs.xor == 0) (λ b. bit_xor b ps.regs.xor % 256)),
    omega arith,
    λ a n _. refl,
  )
  copy_descs-Out i off (d ∷ ds) ps ram g w h l x =
      let (ok, ps', ram') = move_segment bus ps ram off d in
      if_cases (Out off (d ∷ ds) ps ram) ok
        (λ e c.
          let (same, at, rest) = move_segment_out ps ram off d g (omega arith) e in
          let next = count_bytes d.len ps' in
          Out-cons off _ d ds ps ps' ram ram'
            (copy_descs bus (i + 1) ((off + d.len) % 2 ^ 32) ds next ram') w.0 (omega arith) same at
            rest (omega arith) (omega arith)
            (copy_descs-Out (i + 1) ((off + d.len) % 2 ^ 32) ds next ram'
              (ap (λ p. not (bit_and p.regs.dma_ctrl 1 == 0)) same ∙ g) w.1
              (omega (arith, ap (λ p. length p.mem) same)) (ap (λ p. length p.mem) same ∙ l)
              (omega (arith, ap (λ p. p.regs.xfer_bytes) same)))
            c)
        λ e c. absurd (omega arith)
