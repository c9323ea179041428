-- ===== src/Runtime/ReadyStack/Nodes.antt =====
-- runtime/ReadyStack.h: the nodes' indices, and where a node stands in the chunks.
use proto_scala.Common.{
  ℕ, zero, suc, ◌+◌, ◌-◌, ◌*◌, ◌/◌, ◌^◌, ◌<◌, ◌≤◌, ◌≡◌, refl, sym, subst, ◌∙◌, ap, ◌==◌,
  if◌then◌else◌, arith,
}

abbrev pub k_nil : ℕ
k_nil = 2 ^ 32 - 1

abbrev pub k_first_chunk_bits : ℕ
k_first_chunk_bits = 8

abbrev pub k_max_chunks : ℕ
k_max_chunks = 32 - k_first_chunk_bits

abbrev pub k_capacity : ℕ
k_capacity = 2 ^ 32 - 2 ^ k_first_chunk_bits

-- `std::bit_width` of a number below 2 ^ n
unfoldable pub bit_width : ℕ → ℕ → ℕ
bit_width zero v = 0
bit_width (suc n) v = if v == 0 then 0 else suc (bit_width n (v / 2))

-- `node` and `acquireNode`: the chunk of an index, and the place in it
unfoldable pub chunk_of : ℕ → ℕ
chunk_of idx = bit_width 64 (idx + 2 ^ k_first_chunk_bits) - 1 - k_first_chunk_bits

unfoldable pub offset_of : ℕ → ℕ
offset_of idx = idx + 2 ^ k_first_chunk_bits - 2 ^ (k_first_chunk_bits + chunk_of idx)

bit_width-le : (m n v : ℕ) → v < 2 ^ m → bit_width n v ≤ m
unfolding bit_width
bit_width-le m zero v lt = omega arith
bit_width-le zero (suc n) v lt = ground arith
bit_width-le (suc m) (suc n) v lt = ground (arith, bit_width-le m n (v / 2) (omega arith))

bit_width-half : (n v : ℕ) → 0 < v → bit_width (suc n) v ≡ suc (bit_width n (v / 2))
unfolding bit_width
bit_width-half n v pos = ground arith

bit_width-of_zero : (n v : ℕ) → v ≡ 0 → bit_width n v ≡ 0
unfolding bit_width
bit_width-of_zero zero v e = omega arith
bit_width-of_zero (suc n) v e = ground arith

bit_width-above : (n v : ℕ) → v < 2 ^ n → v < 2 ^ bit_width n v
bit_width-above n zero lt = subst (λ b. 0 < 2 ^ b) (sym (bit_width-of_zero n 0 refl)) (omega arith)
bit_width-above zero (suc v) lt = absurd (omega arith)
bit_width-above (suc n) (suc v) lt =
    subst (λ b. suc v < 2 ^ b) (sym (bit_width-half n (suc v) (omega arith)))
      (omega (arith, bit_width-above n (suc v / 2) (omega arith)))

bit_width-below : (n v : ℕ) → 0 < v → v < 2 ^ n → 2 ^ bit_width n v ≤ 2 * v
bit_width-below zero v pos lt = absurd (omega arith)
bit_width-below (suc n) zero pos lt = absurd (omega arith)
bit_width-below (suc n) (suc zero) pos lt =
    subst (λ b. 2 ^ b ≤ 2)
      (sym (bit_width-half n 1 pos ∙ ap suc (bit_width-of_zero n (1 / 2) (omega arith))))
      (omega arith)
bit_width-below (suc n) (suc (suc v)) pos lt =
    subst (λ b. 2 ^ b ≤ 2 * suc (suc v)) (sym (bit_width-half n (suc (suc v)) pos))
      (omega (arith, bit_width-below n (suc (suc v) / 2) (omega arith) (omega arith)))

pow-pos : (n : ℕ) → 0 < 2 ^ n
pow-pos zero = omega arith
pow-pos (suc n) = omega (arith, pow-pos n)

bit_width-ge : (m n v : ℕ) → 2 ^ m ≤ v → v < 2 ^ n → m < bit_width n v
bit_width-ge zero zero v le lt = absurd (omega arith)
bit_width-ge zero (suc n) v le lt =
    subst (λ b. 0 < b) (sym (bit_width-half n v (omega arith))) (omega arith)
bit_width-ge (suc m) zero v le lt = absurd (omega (arith, pow-pos m))
bit_width-ge (suc m) (suc n) v le lt =
    subst (λ b. suc m < b) (sym (bit_width-half n v (omega (arith, pow-pos m))))
      (omega (arith, bit_width-ge m n (v / 2) (omega arith) (omega arith)))

-- Every index below `kCapacity` has its place in one of the 24 chunks, among the 2 ^ (8 + k) nodes of
-- chunk k, and chunk and place give the index back.
pub offset_of-bounds :
    (idx : ℕ)
    → idx < k_capacity
    → (chunk_of idx < k_max_chunks)
      × (offset_of idx < 2 ^ (k_first_chunk_bits + chunk_of idx))
      × (2 ^ (k_first_chunk_bits + chunk_of idx) + offset_of idx ≡ idx + 2 ^ k_first_chunk_bits)
unfolding chunk_of offset_of
offset_of-bounds idx lt =
    let v = idx + 2 ^ k_first_chunk_bits in
    let upper = bit_width-le 32 64 v (omega arith) in
    let lower = bit_width-ge 8 64 v (omega arith) (omega arith) in
    let split : bit_width 64 v ≡ suc (k_first_chunk_bits + chunk_of idx) = omega (arith, lower) in
    let above = subst (λ b. v < 2 ^ b) split (bit_width-above 64 v (omega arith)) in
    let below =
      subst (λ b. 2 ^ b ≤ 2 * v) split (bit_width-below 64 v (omega arith) (omega arith)) in
    (omega (arith, upper, lower), omega (arith, above, below), omega (arith, above, below))
