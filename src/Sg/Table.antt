-- ===== src/Sg/Table.antt =====
-- examples/28_dma_sg/main.c: the table of descriptors as the device reads it.
use linux_device_driver.Prelude.{
  ℕ, ◌+◌, ◌*◌, ◌%◌, ◌^◌, ◌<◌, ◌≡◌, refl, sym, ◌∙◌, ap, ap₂, Bool, true, false, List, [], ◌∷◌, ◌++◌,
  if◌then◌else◌, length, take, drop, arith,
}
use linux_device_driver.Pcie.State.{Pcie}
use linux_device_driver.Pcie.Transfer.{
  Desc, bad, total, decode_desc, decode_table, check_descs, dma_ok, is_bad,
}
use linux_device_driver.Pcie.Verdict.{sum_len, AllGood}
use linux_device_driver.Dma.Device.{encode_desc, le_bytes}
use linux_device_driver.Dma.Setup.{decode_encode}
use linux_device_driver.Sg.Device.{encode_table}

-- Descriptors whose fields fit.
abbrev pub AllWords : List Desc → Type 0
AllWords [] = Unit {0}
AllWords (d ∷ ds) = ((d.addr < 2 ^ 64) × (d.len < 2 ^ 32) × (d.flags ≡ 0)) × AllWords ds

-- Segments that the device reaches.
abbrev pub AllReached : Pcie → List Desc → Type 0
AllReached ps [] = Unit {0}
AllReached ps (d ∷ ds) = (dma_ok ps d.addr d.len ≡ true) × AllReached ps ds

pub length-encode_table : (ds : List Desc) → length (encode_table ds) ≡ length ds * 16
unfolding encode_table encode_desc
length-encode_table [] = refl
length-encode_table (d ∷ ds) = omega (arith, length-encode_table ds)

first_desc :
    (d : Desc) (rest : List ℕ)
    → take 16 (encode_desc d.addr d.len ++ rest) ≡ encode_desc d.addr d.len
unfolding encode_desc le_bytes
first_desc d rest = refl

other_descs : (d : Desc) (rest : List ℕ) → drop 16 (encode_desc d.addr d.len ++ rest) ≡ rest
unfolding encode_desc le_bytes
other_descs d rest = refl

pub decode_table-encode_table :
    (ds : List Desc) → AllWords ds → decode_table (length ds) (encode_table ds) ≡ ds
unfolding decode_table encode_table
decode_table-encode_table [] w = refl
decode_table-encode_table (d ∷ ds) ((a, l, f), w) =
    ap₂ (λ (x : List ℕ) (y : List ℕ). decode_desc x ∷ decode_table (length ds) y)
      (first_desc d (encode_table ds)) (other_descs d (encode_table ds))
    ∙ ap₂ (λ (x : Desc) (y : List Desc). x ∷ y)
        (decode_encode d.addr d.len a l
          ∙ ap (λ (k : ℕ). record { addr = d.addr; len = d.len; flags = k }) (sym f))
        (decode_table-encode_table ds w)

-- Good descriptors pass the first loop.
pub checked_lem :
    (ps : Pcie) (i sum : ℕ) (ds : List Desc)
    → AllGood ps.max_seg ds
    → sum + sum_len ds < 2 ^ 64
    → check_descs ps i sum ds ≡ total (sum + sum_len ds)
unfolding check_descs sum_len
checked_lem ps i sum [] g s = ap total (omega arith)
checked_lem ps i sum (d ∷ ds) (g, gs) s =
    let wrap : (sum + d.len) % 2 ^ 64 ≡ sum + d.len = omega arith in
    let good : is_bad ps d ≡ false = ground arith in
    let rest = checked_lem ps (i + 1) (sum + d.len) ds gs (omega arith) in
    ap (λ (b : Bool). if b then bad i else check_descs ps (i + 1) ((sum + d.len) % 2 ^ 64) ds) good
    ∙ ap (λ (k : ℕ). check_descs ps (i + 1) k ds) wrap
    ∙ rest
    ∙ ap total (omega arith)
