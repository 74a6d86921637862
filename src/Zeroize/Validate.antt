-- ===== src/Zeroize/Validate.antt =====
-- What `validate_zeroization` and its wrappers report (memory_zeroizer.py, lines 119 to 312).
use Prim.Native.Nat.{zero, suc, min}
use post_quantum_cryptograph.Common.{
  ℕ, ◌+◌, ◌-◌, ◌*◌, Bool-cases, inl, inr, ◌%◌, ◌≤◌, ◌<◌, ◌≡◌, ◌↔◌, refl, sym, ap, ◌∙◌, true, none,
  some, if◌then◌else◌, arith, replicate,
}
use post_quantum_cryptograph.Common.Bytes.{Bytes, bytes_eq_iff}
use post_quantum_cryptograph.Zeroize.{
  Memory, byte_array, ctypes_array, fill_byte, load, overwrite, Validation, max_checksum_bytes,
  compute_region_checksum, validate_zeroization, zeroize_bytearray,
}
use post_quantum_cryptograph.Zeroize.Region.{within, overwrite_lem, load-replicate}

load-overwrite :
    (passes ptr size n pattern_idx : ℕ) (mem : Memory)
    → 0 < passes
    → n ≤ size
    → load ptr n (overwrite passes ptr size pattern_idx mem) ≡ replicate n (fill_byte pattern_idx)
load-overwrite passes ptr size n pattern_idx mem h k =
    load-replicate n (fill_byte pattern_idx) ptr (overwrite passes ptr size pattern_idx mem)
      (λ a g i. ground (arith, overwrite_lem passes ptr size pattern_idx mem a h))

-- Different numbers of zeros, or a zero and another byte, are not the same.
replicate-injective : (m n v w : ℕ) → replicate m v ≡ replicate n w → (m ≡ n) × (0 < n → v ≡ w)
unfolding replicate
replicate-injective zero zero v w h = (refl, λ k. absurd (omega arith))
replicate-injective zero (suc n) v w h = cc
replicate-injective (suc m) zero v w h = cc
replicate-injective (suc m) (suc n) v w h =
    let tails : replicate m v ≡ replicate n w = cc in
    let heads : v ≡ w = cc in (ap suc (replicate-injective m n v w tails).0, λ k. heads)

replicate-zeros : (n v : ℕ) → (0 < n → v ≡ 0) → replicate n v ≡ replicate n 0
unfolding replicate
replicate-zeros zero v h = refl
replicate-zeros (suc n) v h = rw (h (omega arith)) refl

-- Every byte of the region is zero.
abbrev pub IsZero : ℕ → ℕ → Memory → Type 0
IsZero addr size mem = (a : ℕ) → addr ≤ a → a < addr + size → mem a ≡ 0

rest-IsZero :
    (addr count size : ℕ) (mem mem' : Memory)
    → ((a : ℕ) → mem' a ≡ (if within addr count a then 0 else mem a))
    → IsZero addr size mem' ↔ IsZero (addr + count) (size - count) mem
rest-IsZero addr count size mem mem' region = (
  λ zero_after a low high.
      let here = region a in let known = zero_after a (omega arith) (omega arith) in ground arith,
  λ zero_before a low high. elim (Bool-cases (within addr count a)) [
    | inl inside ↦ region a ∙ rw inside refl
    | inr outside ↦ region a ∙ rw outside (zero_before a (ground arith) (ground arith))
  ],
)

module _ (sha256_hex : Bytes → Bytes) where
  -- Where the digests of the region and of the zeros that it is compared with do not collide: a
  -- validation of at least one pass passes exactly if the pattern is that of zeros, or the region is
  -- empty, and the region has at most 1 MB. In each case every byte of the region is the pattern's
  -- afterwards and no byte outside has changed.
  pub validate_zeroization_iff :
      (ptr size passes pattern_idx : ℕ) (mem : Memory)
      → 0 < passes
      → (sha256_hex (replicate (min size max_checksum_bytes) (fill_byte pattern_idx))
            ≡ sha256_hex (replicate size 0)
          → replicate (min size max_checksum_bytes) (fill_byte pattern_idx) ≡ replicate size 0)
      → let (report, mem') = validate_zeroization sha256_hex ptr size passes pattern_idx mem in
        ((report.passed ≡ true) ↔ ((size ≤ max_checksum_bytes) × (0 < size → pattern_idx % 4 ≡ 0)))
        × ((a : ℕ) → mem' a ≡ (if within ptr size a then fill_byte pattern_idx else mem a))
  unfolding validate_zeroization compute_region_checksum
  validate_zeroization_iff ptr size passes pattern_idx mem h collide =
      let n = min size max_checksum_bytes in
      let loaded : load ptr n (overwrite passes ptr size pattern_idx mem)
          ≡ replicate n (fill_byte pattern_idx) =
        load-overwrite passes ptr size n pattern_idx mem h (omega arith) in
      let post = sha256_hex (load ptr n (overwrite passes ptr size pattern_idx mem)) in
      let same = bytes_eq_iff post (sha256_hex (replicate size 0)) in
      (
        (
          λ passed.
              let equal =
                replicate-injective n size (fill_byte pattern_idx) 0
                  (collide (ap sha256_hex (sym loaded) ∙ same.0 passed)) in
              (omega (arith, equal.0), λ k. let z = equal.1 k in ground arith),
          λ (fits, zeros).
              let full : n ≡ size = omega arith in
              same.1 (
                ap sha256_hex (
                  loaded
                  ∙ ap (λ k. replicate k (fill_byte pattern_idx)) full
                  ∙ replicate-zeros size (fill_byte pattern_idx)
                      (λ k. let z = zeros k in ground arith))),
        ),
        λ a. overwrite_lem passes ptr size pattern_idx mem a h,
      )

  -- `zeroize_bytearray` raises on every `bytearray`. On a ctypes array of at most 1,048,576 elements
  -- it passes, whatever the size of an element. Afterwards as many bytes as the array has elements are
  -- zero, from its address on, and no other byte has changed; so the whole array is zero exactly if
  -- its bytes after these were zero before.
  pub zeroize_bytearray_lem :
      (n addr count item_size : ℕ) (mem : Memory)
      → count ≤ max_checksum_bytes
      → (zeroize_bytearray sha256_hex (byte_array n) mem ≡ none)
        × ((report : Validation) × (mem' : Memory) × (zeroize_bytearray sha256_hex
                (ctypes_array addr count item_size)
                mem
              ≡ some (report, mem'))
            × (report.passed ≡ true)
            × ((a : ℕ) → mem' a ≡ (if within addr count a then 0 else mem a))
            × (IsZero addr (count * item_size) mem'
                ↔ IsZero (addr + count) (count * item_size - count) mem))
  unfolding zeroize_bytearray
  zeroize_bytearray_lem n addr count item_size mem fits =
      let whole : min count max_checksum_bytes ≡ count = omega arith in
      let (iff, region) =
        validate_zeroization_iff addr count 1 0 mem (omega arith)
          (λ _. ap (λ k. replicate k 0) whole) in
      let after = (validate_zeroization sha256_hex addr count 1 0 mem).1 in
      (
        refl,
        (
          (validate_zeroization sha256_hex addr count 1 0 mem).0,
          after,
          refl,
          iff.1 (fits, λ _. refl),
          region,
          rest-IsZero addr count (count * item_size) mem after region,
        ),
      )
