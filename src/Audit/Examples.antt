-- ===== src/Audit/Examples.antt =====
-- The theorems about binary_auditor.py at concrete inputs.
use Prim.Native.Nat.{min}
use post_quantum_cryptograph.Common.{
  ℕ, ◌≡◌, ◌≤◌, refl, true, false, Option, none, some, [], ◌∷◌, ◌++◌, map, arith, length, All,
  replicate, take, drop, ltb, if◌then◌else◌,
}
use post_quantum_cryptograph.Common.Bytes.{Bytes}
use post_quantum_cryptograph.Audit.{Section, max_instructions, max_findings}
use post_quantum_cryptograph.Audit.Elf.{
  Elf, ElfHeader, em_386, et_exec, SectionHeader, sht_null, sht_progbits, elf_sections, sections_of,
  check_kind, check_tables, parse_headers, section_names, section_loop, section_step,
  add_executable, is_valid_executable, bit_and,
}
use post_quantum_cryptograph.Audit.Elf.Sections.{Accepted, elf_sections_sound}
use post_quantum_cryptograph.Audit.Scan.{
  Stream, done, yield, Decoder, Review, Report, audit_sections, audit_binary, scan_sections,
  scan_stream, examine,
}
use post_quantum_cryptograph.Audit.Scan.Streams.{Fits}
use post_quantum_cryptograph.Audit.Scan.Complete.{audit_sections_bounded}
use post_quantum_cryptograph.Audit.Binary.{DecoderLaws, Clean, exit_zero_complete}

-- A file with four bytes of code and a table of two sections; a section's first byte tells which.
abbrev file : Bytes
file =
    replicate 6 0
    ++ (1 ∷ replicate 45 0 ++ (144 ∷ 247 ∷ 241 ∷ 195 ∷ replicate 40 0 ++ (1 ∷ replicate 39 0)))

abbrev header : ElfHeader
header = record {
  elfclass = 32;
  little_endian = true;
  e_machine = em_386;
  e_type = et_exec;
  e_ehsize = 52;
  is_current_version = true;
  e_phnum = 0;
  e_phentsize = 0;
  e_phoff = 0;
  e_shnum = 2;
  e_shoff = 56;
  e_shentsize = 40;
  e_shstrndx = some 0;
}

abbrev null_section : SectionHeader
null_section = record {
  sh_name = 0;
  sh_type = sht_null;
  sh_flags = 0;
  sh_addr = 0;
  sh_offset = 0;
  sh_size = 0;
  sh_addralign = 0;
}

abbrev text_section : SectionHeader
text_section = record {
  sh_name = 0;
  sh_type = sht_progbits;
  sh_flags = 6;
  sh_addr = 4096;
  sh_offset = 52;
  sh_size = 4;
  sh_addralign = 16;
}

abbrev parse : Bytes → Option SectionHeader
parse [] = none
parse (b ∷ bs) = some (if ltb 0 b then text_section else null_section)

abbrev elf : Elf
elf = record { open_file = λ f. some header; parse_section = parse }

abbrev text : Section
text = record { index = 1; name = []; file_offset = 52; address = 4096; size = 4 }

-- A decoder that reads all bytes as one division.
abbrev decode_all : Bytes → ℕ → Stream
decode_all [] address = done
decode_all (b ∷ bs) address =
    yield
      (record {
        is_division = true;
        size = length (b ∷ bs);
        address = address;
        mnemonic = "div";
        op_str = "ecx";
        bytes = b ∷ bs;
      })
      done

abbrev decoder : Decoder
decoder = λ bits bytes address count. decode_all bytes address

decoder_laws : DecoderLaws decoder
decoder_laws = record { fits = λ bits bytes address count. decode_all_fits bytes address }
  where
    decode_all_fits : (bytes : Bytes) (address : ℕ) → Fits (length bytes) (decode_all bytes address)
    decode_all_fits [] address = tt
    decode_all_fits (b ∷ bs) address = (omega arith, omega arith, tt)

elf_sections_sound_example : Accepted elf file 32 et_exec (text ∷ [])
unfolding elf_sections sections_of check_kind check_tables parse_headers section_names section_loop
    section_step add_executable is_valid_executable bit_and replicate take drop
elf_sections_sound_example = elf_sections_sound elf file 32 et_exec (text ∷ []) refl

exit_zero_complete_example : Clean elf decoder decoder_laws file
unfolding audit_binary audit_sections scan_sections scan_stream examine elf_sections sections_of
    check_kind check_tables parse_headers section_names section_loop section_step add_executable
    is_valid_executable bit_and replicate take drop
exit_zero_complete_example = exit_zero_complete elf decoder decoder_laws file refl

abbrev code : Bytes
code = 144 ∷ 247 ∷ 241 ∷ 195 ∷ []

abbrev report : Report
report = record {
  is_complete = true;
  scan_complete = true;
  instruction_count = 1;
  finding_count = 1;
  findings_truncated = false;
  findings =
      record {
        section_index = 1;
        section_offset = 0;
        file_offset = 52;
        address = 4096;
        mnemonic = "div";
        operands = "ecx";
        instruction_bytes = code;
      }
      ∷ [];
  sections =
      record {
        section = text;
        decoded_bytes = 4;
        instruction_count = 1;
        decode_complete = true;
        incomplete_reason = none;
        unexamined_bytes = 0;
        stop_section_offset = none;
      }
      ∷ [];
}

audit_sections_bounded_example :
    (map (λ (r : Review). r.section) report.sections ≡ text ∷ [])
    × All (λ (r : Review). r.decoded_bytes ≤ r.section.size) report.sections
    × (1 ≤ max_instructions)
    × (1 ≡ min 1 max_findings)
    × (false ≡ ltb max_findings 1)
unfolding audit_sections scan_sections scan_stream examine replicate take drop
audit_sections_bounded_example =
    audit_sections_bounded decoder 32 file (text ∷ []) report
      ((λ n. (omega arith, omega arith, tt)), tt) refl
