-- ===== src/Zeroize/Region.antt =====
-- What `zero_memory` writes (memory_zeroizer.py, lines 38 to 75).
use Prim.Native.Nat.{zero, suc, min}
use post_quantum_cryptograph.Common.{
  ℕ, ◌+◌, ◌-◌, ◌*◌, ◌/◌, ◌≤◌, ◌<◌, ◌≡◌, refl, ap, ◌∙◌, Bool, Bool-cases, ◌&&◌, ◌∷◌, ltb, leb, ◌==◌,
  if◌then◌else◌, arith, inl, inr, take, replicate,
}
use post_quantum_cryptograph.Zeroize.{
  Memory, fill_byte, store, load, block_at, zero_blocks, zero_memory, overwrite,
}

take-replicate : (k n v : ℕ) → k ≤ n → take k (replicate n v) ≡ replicate k v
unfolding take replicate
take-replicate zero n v h = refl
take-replicate (suc k) zero v h = absurd (omega arith)
take-replicate (suc k) (suc n) v h = ap (λ t. v ∷ t) (take-replicate k n v (omega arith))

store-replicate :
    (n v addr : ℕ) (mem : Memory) (a : ℕ)
    → store addr (replicate n v) mem a ≡ (if leb addr a && ltb a (addr + n) then v else mem a)
unfolding store replicate
store-replicate zero v addr mem a = ground arith
store-replicate (suc n) v addr mem a =
    ground (arith, store-replicate n v (addr + 1) (λ x. if x == addr then v else mem x) a)

block_at-replicate : (v i : ℕ) → block_at (replicate 64 v) i ≡ replicate 64 v
unfolding block_at take replicate
block_at-replicate v i = elim (Bool-cases (i == 0)) [
  | inl e ↦ (let z : i ≡ 0 = ground arith in rw z refl)
  | inr e ↦ rw e refl
]

zero_blocks_lem :
    (v ptr size n i : ℕ) (mem : Memory) (a : ℕ)
    → size ≤ i + 64 * n
    → zero_blocks (replicate 64 v) ptr size n i mem a
      ≡ (if leb (ptr + i) a && ltb a (ptr + size) then v else mem a)
unfolding zero_blocks
zero_blocks_lem v ptr size zero i mem a h = ground arith
zero_blocks_lem v ptr size (suc n) i mem a h =
    let k = min 64 (size - i) in
    let mem' = store (ptr + i) (take (min 64 (size - i)) (block_at (replicate 64 v) i)) mem in
    let ih = zero_blocks_lem v ptr size n (i + 64) mem' a (omega arith) in
    let written : mem' ≡ store (ptr + i) (replicate k v) mem =
      rw (block_at-replicate v i, take-replicate k 64 v (omega arith)) refl in
    let here : mem' a ≡ (if leb (ptr + i) a && ltb a (ptr + i + k) then v else mem a) =
      ap (λ (f : Memory). f a) written ∙ store-replicate k v (ptr + i) mem a in
    ih ∙ rw here (ground arith)

-- Whether an address lies in a region.
abbrev pub within : ℕ → ℕ → ℕ → Bool
within ptr size a = leb ptr a && ltb a (ptr + size)

-- After `zero_memory` every byte of the region, whatever its size, is the pattern's, and no byte
-- outside the region has changed.
pub zero_memory_lem :
    (ptr size pattern_idx : ℕ) (mem : Memory) (a : ℕ)
    → zero_memory ptr size pattern_idx mem a
      ≡ (if within ptr size a then fill_byte pattern_idx else mem a)
unfolding zero_memory
zero_memory_lem ptr size pattern_idx mem a =
    zero_blocks_lem (fill_byte pattern_idx) ptr size ((size + 63) / 64) 0 mem a (omega arith)
    ∙ (let e : ptr + 0 ≡ ptr = omega arith in rw e refl)

pub overwrite_lem :
    (passes ptr size pattern_idx : ℕ) (mem : Memory) (a : ℕ)
    → 0 < passes
    → overwrite passes ptr size pattern_idx mem a
      ≡ (if within ptr size a then fill_byte pattern_idx else mem a)
unfolding overwrite
overwrite_lem zero ptr size pattern_idx mem a h = absurd (omega arith)
overwrite_lem (suc zero) ptr size pattern_idx mem a h = zero_memory_lem ptr size pattern_idx mem a
overwrite_lem (suc (suc passes)) ptr size pattern_idx mem a h = ground (
  arith,
  zero_memory_lem ptr size pattern_idx mem a,
  overwrite_lem (suc passes) ptr size pattern_idx (zero_memory ptr size pattern_idx mem) a
      (omega arith),
)

-- What is loaded from memory that holds one byte throughout.
pub load-replicate :
    (n v addr : ℕ) (mem : Memory)
    → ((a : ℕ) → addr ≤ a → a < addr + n → mem a ≡ v)
    → load addr n mem ≡ replicate n v
unfolding load replicate
load-replicate zero v addr mem h = refl
load-replicate (suc n) v addr mem h =
    rw
      (
        h addr (omega arith) (omega arith),
        load-replicate n v (addr + 1) mem (λ a g k. h a (omega arith) (omega arith)),
      )
      refl
