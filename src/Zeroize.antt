-- ===== src/Zeroize.antt =====
-- src/pqc_bench/security/memory_zeroizer.py: overwriting memory and checking what is left.
--
-- Memory is a function from addresses to bytes; sizes and pattern indices are not negative. The
-- digest of SHA-256 in hexadecimal is the parameter `sha256_hex`.
pub mod Region
pub mod Validate
mod Examples
use post_quantum_cryptograph.Common.{
  ℕ, ◌+◌, ◌-◌, ◌*◌, ◌/◌, ◌%◌, Bool, true, false, not, ◌&&◌, ◌||◌, Option, none, some, List, [], ◌∷◌,
  ◌++◌, ltb, ◌==◌, if◌then◌else◌, length, take, replicate,
}
use post_quantum_cryptograph.Common.Bytes.{Bytes, bytes_eq}
use Prim.Native.Nat.{zero, suc, min}

abbrev pub Memory : Type 0
Memory = ℕ → ℕ

-- The four `ZERO_PATTERNS`, by the index modulo four.
abbrev pub fill_byte : ℕ → ℕ
fill_byte idx =
    if idx % 4 == 0 then 0 else if idx % 4 == 1 then 255 else if idx % 4 == 2 then 170 else 85

abbrev pub zero_pattern : ℕ → Bytes
zero_pattern idx = replicate 64 (fill_byte idx)

-- ctypes.memmove from a Python object into memory
unfoldable pub store : ℕ → Bytes → Memory → Memory
store addr [] mem = mem
store addr (b ∷ bs) mem = store (addr + 1) bs (λ a. if a == addr then b else mem a)

-- ctypes.memmove into a new array
unfoldable pub load : ℕ → ℕ → Memory → Bytes
load addr zero mem = []
load addr (suc n) mem = mem addr ∷ load (addr + 1) n mem

abbrev pub repeat : ℕ → Bytes → Bytes
repeat zero bs = []
repeat (suc n) bs = bs ++ repeat n bs

-- The block that the loop of `zero_memory` writes at offset `i`.
unfoldable pub block_at : Bytes → ℕ → Bytes
block_at pattern i =
    let block = if i == 0 then take (64 - i) pattern else take 64 pattern in
    if ltb (length block) 64 then take 64 (repeat (64 / length block + 1) block) else take 64 block

-- The iterations for `n` more values of `range(0, size, 64)`, from offset `i`.
unfoldable pub zero_blocks : Bytes → ℕ → ℕ → ℕ → ℕ → Memory → Memory
zero_blocks pattern ptr size zero i mem = mem
zero_blocks pattern ptr size (suc n) i mem =
    zero_blocks pattern ptr size n (i + 64)
      (store (ptr + i) (take (min 64 (size - i)) (block_at pattern i)) mem)

-- `range(0, size, 64)` has this many values; none for the size 0, at which the code returns.
unfoldable pub zero_memory : ℕ → ℕ → ℕ → Memory → Memory
zero_memory ptr size pattern_idx mem =
    zero_blocks (zero_pattern pattern_idx) ptr size ((size + 63) / 64) 0 mem

-- for _ in range(overwrite_passes)
unfoldable pub overwrite : ℕ → ℕ → ℕ → ℕ → Memory → Memory
overwrite zero ptr size pattern_idx mem = mem
overwrite (suc passes) ptr size pattern_idx mem =
    overwrite passes ptr size pattern_idx (zero_memory ptr size pattern_idx mem)

abbrev pub max_checksum_bytes : ℕ
max_checksum_bytes = 1_048_576

pub record Residual : Type 0 where
  pub clear : Bool
  pub checksum : Bytes
  pub non_zero_estimate : ℕ

pub record Validation : Type 0 where
  pub pre_checksum : Bytes
  pub post_checksum : Bytes
  pub clear : Bool
  pub passed : Bool
  pub overwrite_passes : ℕ
  pub pattern_idx : ℕ

-- A `bytearray` of a size, whose address Python does not give, or a ctypes array: its address, the
-- number of its elements, and the bytes of one element.
pub data Buffer : Type 0 where
  byte_array : ℕ → Buffer
  ctypes_array : ℕ → ℕ → ℕ → Buffer

-- `_get_buffer_address`: a `bytearray` has no attribute `buffer`, so that the access raises.
abbrev pub get_buffer_address : Buffer → Option ℕ
get_buffer_address (byte_array size) = none
get_buffer_address (ctypes_array addr count item_size) = some addr

-- `len(buf)`, which of a ctypes array is the number of its elements, not of its bytes.
abbrev pub buffer_length : Buffer → ℕ
buffer_length (byte_array size) = size
buffer_length (ctypes_array addr count item_size) = count

abbrev zero_at : Option ℕ → ℕ → ℕ → Memory → Option Memory
zero_at none size pattern_idx mem = none
zero_at (some addr) size pattern_idx mem = some (zero_memory addr size pattern_idx mem)

-- `none` is the exception of `_get_buffer_address`; the memory is then as it was.
unfoldable pub zero_memory_bytes : Buffer → ℕ → Memory → Option Memory
zero_memory_bytes buf pattern_idx mem =
    zero_at (get_buffer_address buf) (buffer_length buf) pattern_idx mem

abbrev count_non_zero : Bytes → ℕ
count_non_zero [] = 0
count_non_zero (ch ∷ rest) = (if ch == b'0' then 0 else 1) + count_non_zero rest

module _ (sha256_hex : Bytes → Bytes) where
  unfoldable pub compute_region_checksum : ℕ → ℕ → Memory → Bytes
  compute_region_checksum addr size mem = sha256_hex (load addr (min size max_checksum_bytes) mem)

  unfoldable pub check_residual_bytes : ℕ → ℕ → Bytes → Memory → Residual
  check_residual_bytes addr size expected_checksum mem =
      let computed = compute_region_checksum addr size mem in
      record {
        clear = bytes_eq computed expected_checksum;
        checksum = computed;
        non_zero_estimate = count_non_zero computed;
      }

  unfoldable pub validate_zeroization : ℕ → ℕ → ℕ → ℕ → Memory → Validation × Memory
  validate_zeroization ptr size overwrite_passes pattern_idx mem =
      let after = overwrite overwrite_passes ptr size pattern_idx mem in
      let post = compute_region_checksum ptr size after in
      let is_clear = bytes_eq post (sha256_hex (replicate size 0)) in
      (
        record {
          pre_checksum = compute_region_checksum ptr size mem;
          post_checksum = post;
          clear = is_clear;
          passed = is_clear;
          overwrite_passes = overwrite_passes;
          pattern_idx = pattern_idx;
        },
        after,
      )

  -- The report repeats fields of the validation.
  unfoldable pub zeroize_ptr : ℕ → ℕ → Memory → Validation × Memory
  zeroize_ptr address byte_size mem = validate_zeroization address byte_size 1 0 mem

  abbrev validate_at : Option ℕ → ℕ → Memory → Option (Validation × Memory)
  validate_at none size mem = none
  validate_at (some addr) size mem = some (validate_zeroization addr size 1 0 mem)

  unfoldable pub zeroize_bytearray : Buffer → Memory → Option (Validation × Memory)
  zeroize_bytearray buf mem = validate_at (get_buffer_address buf) (buffer_length buf) mem
