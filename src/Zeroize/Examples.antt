-- ===== src/Zeroize/Examples.antt =====
-- The theorems about memory_zeroizer.py at concrete inputs.
use post_quantum_cryptograph.Common.{
  ℕ, ◌+◌, ◌-◌, ◌*◌, ◌%◌, ◌≤◌, ◌<◌, ◌≡◌, ◌↔◌, true, none, some, if◌then◌else◌, arith,
}
use post_quantum_cryptograph.Common.Bytes.{Bytes}
use post_quantum_cryptograph.Zeroize.{
  Memory, byte_array, ctypes_array, fill_byte, zero_memory, Validation, max_checksum_bytes,
  validate_zeroization, zeroize_bytearray,
}
use post_quantum_cryptograph.Zeroize.Region.{within, zero_memory_lem}
use post_quantum_cryptograph.Zeroize.Validate.{
  validate_zeroization_iff, zeroize_bytearray_lem, IsZero,
}

abbrev memory : Memory
memory = λ a. a % 256

-- A digest without collisions.
abbrev toy_digest : Bytes → Bytes
toy_digest xs = xs

zero_memory_lem_example :
    zero_memory 1000 100 1 memory 1099 ≡ (if within 1000 100 1099 then fill_byte 1 else memory 1099)
zero_memory_lem_example = zero_memory_lem 1000 100 1 memory 1099

validate_zeroization_iff_example :
    let (report, mem') = validate_zeroization toy_digest 1000 100 2 0 memory in
    ((report.passed ≡ true) ↔ ((100 ≤ max_checksum_bytes) × (0 < 100 → 0 % 4 ≡ 0)))
    × ((a : ℕ) → mem' a ≡ (if within 1000 100 a then fill_byte 0 else memory a))
validate_zeroization_iff_example =
    validate_zeroization_iff toy_digest 1000 100 2 0 memory (omega arith) (λ h. h)

-- Eight elements of four bytes each: of the 32 bytes 8 are cleared, and the validation passes.
zeroize_bytearray_lem_example :
    (zeroize_bytearray toy_digest (byte_array 32) memory ≡ none)
    × ((report : Validation) × (mem' : Memory) × (zeroize_bytearray toy_digest
            (ctypes_array 1000 8 4)
            memory
          ≡ some (report, mem'))
        × (report.passed ≡ true)
        × ((a : ℕ) → mem' a ≡ (if within 1000 8 a then 0 else memory a))
        × (IsZero 1000 (8 * 4) mem' ↔ IsZero (1000 + 8) (8 * 4 - 8) memory))
zeroize_bytearray_lem_example = zeroize_bytearray_lem toy_digest 32 1000 8 4 memory (omega arith)
