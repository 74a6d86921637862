-- ===== src/Audit.antt =====
-- src/pqc_bench/constant_time/binary_auditor.py: the bounded review of an ELF file.
--
-- Reading the file is not modelled: its bytes, or the refusal of `_read_local`, are an argument.
-- A `BinaryAuditError` is the `rejected` of Common.Checked. pyelftools and capstone are the parameters of Audit.Elf and Audit.Scan.
pub mod Elf
pub mod Scan
pub mod Binary
mod Examples
pub use post_quantum_cryptograph.Common.Checked.{
  Checked, ok, rejected, ◌>>=◌, ◌>>◌, require, require-eq-ok, bind-eq-ok, ok-injective,
}
use post_quantum_cryptograph.Common.{ℕ, ◌*◌, ◌≡◌, refl, String, Bool, true, false}
use post_quantum_cryptograph.Common.Bytes.{Bytes}

abbrev pub max_sections : ℕ
max_sections = 256

abbrev pub max_executable_bytes : ℕ
max_executable_bytes = 4 * 1024 * 1024

abbrev pub max_instructions : ℕ
max_instructions = 200_000

abbrev pub max_findings : ℕ
max_findings = 1_000

-- An executable section as `_elf_sections` returns it; the name is the bytes before its decoding.
pub record Section : Type 0 where
  pub index : ℕ
  pub name : Bytes
  pub file_offset : ℕ
  pub address : ℕ
  pub size : ℕ
