-- ===== src/Pcie/TotalRam.antt =====
-- A guest memory with a byte at every address: a bus on which every access succeeds, and which
-- meets the laws that the model of tools/qemu/hw/ldd/pcie.c asks of one.
use linux_device_driver.Prelude.{
  ℕ, zero, suc, ◌+◌, ◌≤◌, ◌<◌, ◌≡◌, ◌⊎◌, inl, refl, ap, ap₂, ◌∙◌, true, List, [], ◌∷◌, arith, ◌==◌,
  if◌then◌else◌, length,
}
use linux_device_driver.Pcie.State.{Bus, BusLaws}

abbrev pub Memory : Type 0
Memory = ℕ → ℕ

-- the `n` bytes from `a` on
pub fetch : Memory → ℕ → ℕ → List ℕ
fetch r a zero = []
fetch r a (suc n) = r a ∷ fetch r (a + 1) n

fill : Memory → ℕ → List ℕ → List ℕ
fill r a [] = []
fill r a (old ∷ buf) = r a ∷ fill r (a + 1) buf

abbrev update : Memory → ℕ → ℕ → Memory
update r a b q = if q == a then b else r q

pub store : Memory → ℕ → List ℕ → Memory
store r a [] = r
store r a (b ∷ bs) = store (update r a b) (a + 1) bs

unfoldable pub total_bus : Bus Memory
unfolding fill store
total_bus = record {
  dma_read = λ r a buf. (true, fill r a buf);
  dma_write = λ r a bytes. (true, store r a bytes);
}

length-fill : (r : Memory) (a : ℕ) (buf : List ℕ) → length (fill r a buf) ≡ length buf
unfolding fill
length-fill r a [] = refl
length-fill r a (old ∷ buf) = ap suc (length-fill r (a + 1) buf)

fill-fetch : (r : Memory) (a : ℕ) (buf : List ℕ) → fill r a buf ≡ fetch r a (length buf)
unfolding fill fetch
fill-fetch r a [] = refl
fill-fetch r a (old ∷ buf) = ap (◌∷◌ (r a)) (fill-fetch r (a + 1) buf)

store_outside :
    (r : Memory) (a : ℕ) (bs : List ℕ) (q : ℕ)
    → (q < a) ⊎ (a + length bs ≤ q)
    → store r a bs q ≡ r q
unfolding store
store_outside r a [] q h = refl
store_outside r a (b ∷ bs) q h =
    store_outside (update r a b) (a + 1) bs q (omega arith) ∙ ground arith

fetch_same :
    (r s : Memory) (a n : ℕ) → ((q : ℕ) → a ≤ q → q < a + n → s q ≡ r q) → fetch s a n ≡ fetch r a n
unfolding fetch
fetch_same r s a zero h = refl
fetch_same r s a (suc n) h =
    ap₂ ◌∷◌ (h a (omega arith) (omega arith))
      (fetch_same r s (a + 1) n (λ q lo hi. h q (omega arith) (omega arith)))

pub fetch-store_self : (r : Memory) (a : ℕ) (bs : List ℕ) → fetch (store r a bs) a (length bs) ≡ bs
unfolding fetch store
fetch-store_self r a [] = refl
fetch-store_self r a (b ∷ bs) =
    ap₂ ◌∷◌ (store_outside (update r a b) (a + 1) bs a (inl (omega arith)) ∙ ground arith)
      (fetch-store_self (update r a b) (a + 1) bs)

pub fetch-store_apart :
    (r : Memory) (a : ℕ) (bs : List ℕ) (other n : ℕ)
    → (a + length bs ≤ other) ⊎ (other + n ≤ a)
    → fetch (store r a bs) other n ≡ fetch r other n
fetch-store_apart r a bs other n h =
    fetch_same r (store r a bs) other n λ q lo hi. store_outside r a bs q (omega arith)

unfoldable pub total_laws : BusLaws total_bus
unfolding total_bus length-fill fill-fetch
total_laws = record {
  peek = fetch;
  length-dma_read = length-fill;
  dma_read_lem = λ r a buf _. fill-fetch r a buf;
  dma_write_lem = λ r a bs _. fetch-store_self r a bs;
  dma_write_apart = λ r a bs other n h _. fetch-store_apart r a bs other n h;
}
