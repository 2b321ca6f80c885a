-- ===== src/Netdev/Frames.antt =====
-- examples/30_netdev/main.c: the frame that `ldd_start_xmit` puts on the wire.
use linux_device_driver.Prelude.{
  ℕ, zero, suc, ◌+◌, ◌≤◌, ◌<◌, ◌≡◌, ◌≢◌, refl, ◌∙◌, ap, false, ◌||◌, Option, none, some, List, [],
  ◌∷◌, ◌==◌, ==→eq, if◌then◌else◌, length, get_elem?, get_or, replicate, blit, length-blit,
  length-set, length-replicate, inr, inl, max, bit_xor, arith, Bool-cases,
}
use linux_device_driver.Netdev.Device.{Skb}
use linux_device_driver.Netdev.Steps.{fill, refused, flip, eth_zlen, eth_hlen}

-- `ip_send_check` on a frame: it writes the two bytes of the checksum, and nothing else.
pub record SendCheck (send_check : List ℕ → List ℕ) : Type 0 where
  pub same_length : (bytes : List ℕ) → length (send_check bytes) ≡ length bytes
  pub same_rest :
      (bytes : List ℕ) (j : ℕ)
      → j ≢ 24
      → j ≢ 25
      → get_elem? (send_check bytes) j ≡ get_elem? bytes j

-- The byte at `j`, or 0 behind the end.
padded :
    (bytes : List ℕ) (n j : ℕ)
    → length bytes ≤ n
    → j < n
    → get_elem? (blit (replicate n 0) 0 bytes) j ≡ some (get_or bytes j 0)
padded bytes zero j h lt = absurd (omega arith)
padded [] (suc n) zero h lt = refl
padded [] (suc n) (suc j) h lt = zeros n j (omega arith)
  where
    zeros : (n j : ℕ) → j < n → get_elem? {A = ℕ} (replicate n 0) j ≡ some 0
    zeros zero j lt = absurd (omega arith)
    zeros (suc n) zero lt = refl
    zeros (suc n) (suc j) lt = zeros n j (omega arith)
padded (x ∷ bytes) (suc n) zero h lt = refl
padded (x ∷ bytes) (suc n) (suc j) h lt = padded bytes n j (omega arith) (omega arith)

flip-get :
    (xs : List ℕ) (i j v : ℕ)
    → get_elem? xs i ≡ some v
    → get_elem? (flip i xs) j ≡ (if j == i then some (bit_xor v 1) else get_elem? xs j)
flip-get [] i j v e = absurd (cc)
flip-get (x ∷ xs) zero zero v e = ap flipped e
  where
    flipped : Option ℕ → Option ℕ
    flipped none = none
    flipped (some b) = some (bit_xor b 1)
flip-get (x ∷ xs) zero (suc j) v e = ground arith
flip-get (x ∷ xs) (suc i) zero v e = ground arith
flip-get (x ∷ xs) (suc i) (suc j) v e = let r = flip-get xs i j v e in ground (arith, r)

long_enough : (k : Skb) → refused k ≡ false → eth_hlen + 20 ≤ length k.bytes
unfolding refused
long_enough k h = ground arith

-- Two flips, of different bytes.
two_flips :
    (bytes : List ℕ) (j : ℕ) (a b : Option ℕ)
    → a ≡ (if j == 28 then some (bit_xor (get_or bytes 28 0) 1) else b)
    → b ≡ some (get_or bytes j 0)
    → (if j == 32 then some (bit_xor (get_or bytes 32 0) 1) else a)
      ≡ some (if j == 28 || j == 32 then bit_xor (get_or bytes j 0) 1 else get_or bytes j 0)
two_flips bytes j a b f g = elim (Bool-cases (j == 32)) [
  | inl e ↦ let same : j ≡ 32 = ==→eq j 32 e in rw same refl
  | inr e ↦ elim (Bool-cases (j == 28)) [
    | inl o ↦ let same : j ≡ 28 = ==→eq j 28 o in ground (arith, ap (get_or bytes) same)
    | inr o ↦ ground arith
  ]
]

-- For a frame that is not dropped: the frame on the wire has its length, but at least 60 bytes, with
-- zeros behind it. Each byte of it but the checksum's two is that of the frame, but for the third bytes
-- of the source and of the destination address, whose lowest bits are flipped.
pub fill_lem :
    (send_check : List ℕ → List ℕ) (k : Skb)
    → SendCheck send_check
    → refused k ≡ false
    → (length (fill send_check k.bytes) ≡ max (length k.bytes) eth_zlen)
      × ((j : ℕ)
          → j < max (length k.bytes) eth_zlen
          → j ≢ 24
          → j ≢ 25
          → get_elem? (fill send_check k.bytes) j
            ≡ some
                (if j == 28 || j == 32 then bit_xor (get_or k.bytes j 0) 1 else get_or k.bytes j 0))
unfolding fill
fill_lem check k c h =
    let n = max (length k.bytes) eth_zlen in
    let copy = blit (replicate n 0) 0 k.bytes in
    let once = flip 28 copy in
    let long = long_enough k h in
    let byte = λ (j : ℕ) (lt : j < n). padded k.bytes n j (omega arith) lt in
    let second : get_elem? once 32 ≡ some (get_or k.bytes 32 0) =
      flip-get copy 28 32 (get_or k.bytes 28 0) (byte 28 (omega arith)) ∙ byte 32 (omega arith) in
    (
      c.same_length (flip 32 once)
          ∙ length-set once 32 (bit_xor (get_or once 32 0) 1)
          ∙ length-set copy 28 (bit_xor (get_or copy 28 0) 1)
          ∙ length-blit (replicate n 0) 0 k.bytes
          ∙ length-replicate n 0,
      λ j lt p q.
          c.same_rest (flip 32 once) j p q
          ∙ flip-get once 32 j (get_or k.bytes 32 0) second
          ∙ two_flips k.bytes j (get_elem? once j) (get_elem? copy j)
              (flip-get copy 28 j (get_or k.bytes 28 0) (byte 28 (omega arith))) (byte j lt),
    )
