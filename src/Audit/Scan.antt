-- ===== src/Audit/Scan.antt =====
-- The decoding loop of `audit_binary`, its report and the exit code of `main` (binary_auditor.py,
-- lines 222 to 332).
pub mod Streams
pub mod Complete
use Prim.Native.Nat.{zero, suc, min}
use post_quantum_cryptograph.Common.{
  ℕ, ◌+◌, ◌-◌, ◌*◌, ◌≤◌, ◌<◌, String, Bool, true, false, not, ◌&&◌, ◌||◌, Option, none, some, List,
  [], ◌∷◌, ◌++◌, ltb, leb, ◌==◌, if◌then◌else◌, length,
}
use post_quantum_cryptograph.Common.Bytes.{Bytes, slice}
use post_quantum_cryptograph.Audit.{
  Checked, ok, rejected, ◌>>=◌, max_instructions, max_findings, Section,
}
use post_quantum_cryptograph.Audit.Elf.{Elf, elf_sections}

-- An instruction as capstone yields it; `is_division` is whether its id is DIV or IDIV.
pub record Instruction : Type 0 where
  pub is_division : Bool
  pub size : ℕ
  pub address : ℕ
  pub mnemonic : String
  pub op_str : String
  pub bytes : Bytes

-- What the generator `decoder.disasm` does: it ends, raises, or yields an instruction.
pub data Stream : Type 0 where
  done failed : Stream
  yield : Instruction → Stream → Stream

-- capstone: the bits of the mode, the bytes, the address of the first and the greatest count.
abbrev pub Decoder : Type 0
Decoder = ℕ → Bytes → ℕ → ℕ → Stream

pub record Finding : Type 0 where
  pub section_index : ℕ
  pub section_offset : ℕ
  pub file_offset : ℕ
  pub address : ℕ
  pub mnemonic : String
  pub operands : String
  pub instruction_bytes : Bytes

abbrev pub finding_of : Section → ℕ → Instruction → Finding
finding_of s decoded i = record {
  section_index = s.index;
  section_offset = decoded;
  file_offset = s.file_offset + decoded;
  address = i.address;
  mnemonic = i.mnemonic;
  operands = i.op_str;
  instruction_bytes = i.bytes;
}

-- The variables of the loops.
pub record Counts : Type 0 where
  pub instruction_count : ℕ
  pub finding_count : ℕ
  pub findings : List Finding

pub record Progress : Type 0 where
  pub counts : Counts
  pub decoded : ℕ
  pub section_instructions : ℕ

pub data Reason : Type 0 where
  instruction_limit decode_stopped : Reason

abbrev pub count_finding : Section → ℕ → Instruction → Counts → Counts
count_finding s decoded i c =
    if i.is_division
    then record {
      instruction_count = c.instruction_count + 1;
      finding_count = c.finding_count + 1;
      findings =
          if ltb (length c.findings) max_findings
          then c.findings ++ finding_of s decoded i ∷ []
          else c.findings;
    }
    else record c { instruction_count = c.instruction_count + 1 }

-- The body of the inner loop, lines 260 to 276.
unfoldable pub examine : Section → Instruction → Progress → Progress
examine s i p = record {
  counts = count_finding s p.decoded i p.counts;
  decoded = p.decoded + i.size;
  section_instructions = p.section_instructions + 1;
}

-- The inner loop, with the reason at its end.
unfoldable pub scan_stream : Section → Stream → Progress → Checked (Progress × Option Reason)
scan_stream s done p = ok (p, none)
scan_stream s failed p = rejected "instruction decoder failed"
scan_stream s (yield i rest) p =
    if leb max_instructions p.counts.instruction_count
    then ok (p, some instruction_limit)
    else scan_stream s rest (examine s i p)

-- What `section.update` adds.
pub record Review : Type 0 where
  pub section : Section
  pub decoded_bytes : ℕ
  pub instruction_count : ℕ
  pub decode_complete : Bool
  pub incomplete_reason : Option Reason
  pub unexamined_bytes : ℕ
  pub stop_section_offset : Option ℕ

abbrev pub final_reason : Section → ℕ → Option Reason → Option Reason
final_reason s decoded none = if decoded == s.size then none else some decode_stopped
final_reason s decoded (some r) = some r

abbrev stop_offset : ℕ → Option Reason → Option ℕ
stop_offset decoded none = none
stop_offset decoded (some r) = some decoded

abbrev pub review_of : Section → Progress → Option Reason → Review
review_of s p reason = record {
  section = s;
  decoded_bytes = p.decoded;
  instruction_count = p.section_instructions;
  decode_complete = p.decoded == s.size;
  incomplete_reason = final_reason s p.decoded reason;
  unexamined_bytes = s.size - p.decoded;
  stop_section_offset = stop_offset p.decoded (final_reason s p.decoded reason);
}

pub record Report : Type 0 where
  pub is_complete : Bool
  pub scan_complete : Bool
  pub instruction_count : ℕ
  pub finding_count : ℕ
  pub findings_truncated : Bool
  pub findings : List Finding
  pub sections : List Review

abbrev pub all_complete : List Review → Bool
all_complete [] = true
all_complete (r ∷ rs) = r.decode_complete && all_complete rs

abbrev pub start : Counts → Progress
start c = record { counts = c; decoded = 0; section_instructions = 0 }

abbrev pub no_counts : Counts
no_counts = record { instruction_count = 0; finding_count = 0; findings = [] }

module _ (decoder : Decoder) (bits : ℕ) (file : Bytes) where
  -- `count` leaves room for one instruction more than the limit allows.
  abbrev pub stream_of : Section → ℕ → Stream
  stream_of s counted =
      decoder bits (slice s.file_offset (s.file_offset + s.size) file) s.address
        (max_instructions - counted + 1)

  unfoldable pub scan_sections : List Section → Counts → Checked (List Review × Counts)
  scan_sections [] c = ok ([], c)
  scan_sections (s ∷ ss) c = scan_stream s (stream_of s c.instruction_count) (start c) >>= λ pr.
      scan_sections ss pr.0.counts >>= λ rest. ok (review_of s pr.0 pr.1 ∷ rest.0, rest.1)

  abbrev pub report_of : List Review → Counts → Report
  report_of reviews c =
      let truncated = ltb (length c.findings) c.finding_count in
      record {
        is_complete = all_complete reviews && not truncated;
        scan_complete = all_complete reviews;
        instruction_count = c.instruction_count;
        finding_count = c.finding_count;
        findings_truncated = truncated;
        findings = c.findings;
        sections = reviews;
      }

  -- `audit_binary` from the sections on.
  unfoldable pub audit_sections : List Section → Checked Report
  audit_sections ss = scan_sections ss no_counts >>= λ rc. ok (report_of rc.0 rc.1)

-- `audit_binary`, on what `_read_local` returns.
unfoldable pub audit_binary : Elf → Decoder → Checked Bytes → Checked Report
audit_binary elf decoder input =
    input >>= λ file. elf_sections elf file >>= λ found. audit_sections decoder found.0 file found.2

-- `main`, without what it prints.
abbrev pub exit_code : Checked Report → ℕ
exit_code (ok report) = if report.is_complete then 0 else 1
exit_code (rejected message) = 2
