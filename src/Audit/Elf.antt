-- ===== src/Audit/Elf.antt =====
-- `_elf_sections` (binary_auditor.py, lines 103 to 219).
pub mod Loop
pub mod Sections
use Prim.Native.Nat.{zero, suc}
use post_quantum_cryptograph.Common.{
  ℕ, ◌+◌, ◌-◌, ◌*◌, ◌/◌, ◌%◌, ◌^◌, String, Bool, true, false, not, ◌&&◌, ◌||◌, Option, none, some,
  List, [], ◌∷◌, ◌++◌, ltb, leb, ◌==◌, if◌then◌else◌, length, get_elem?, take, drop,
}
use post_quantum_cryptograph.Common.Bytes.{Bytes, slice}
use post_quantum_cryptograph.Audit.{
  Checked, ok, rejected, ◌>>=◌, ◌>>◌, require, max_sections, max_executable_bytes, Section,
}

-- The values that the code distinguishes.
pub data Machine : Type 0 where
  em_386 em_x86_64 other_machine : Machine

pub data ElfType : Type 0 where
  et_rel et_exec et_dyn other_type : ElfType

pub data SectionType : Type 0 where
  sht_null sht_progbits sht_nobits sht_strtab other_section : SectionType

-- What pyelftools reads of the file header; an index that is not a number is `none`.
pub record ElfHeader : Type 0 where
  pub elfclass : ℕ
  pub little_endian : Bool
  pub e_machine : Machine
  pub e_type : ElfType
  pub e_ehsize : ℕ
  pub is_current_version : Bool
  pub e_phnum : ℕ
  pub e_phentsize : ℕ
  pub e_phoff : ℕ
  pub e_shnum : ℕ
  pub e_shoff : ℕ
  pub e_shentsize : ℕ
  pub e_shstrndx : Option ℕ

pub record SectionHeader : Type 0 where
  pub sh_name : ℕ
  pub sh_type : SectionType
  pub sh_flags : ℕ
  pub sh_addr : ℕ
  pub sh_offset : ℕ
  pub sh_size : ℕ
  pub sh_addralign : ℕ

-- pyelftools: `ELFFile` and `Elf_Shdr.parse`, where `none` is any exception.
pub record Elf : Type 0 where
  pub open_file : Bytes → Option ElfHeader
  pub parse_section : Bytes → Option SectionHeader

abbrev pub is_null : SectionType → Bool
is_null sht_null = true
is_null _ = false

abbrev pub is_nobits : SectionType → Bool
is_nobits sht_nobits = true
is_nobits _ = false

abbrev pub is_progbits : SectionType → Bool
is_progbits sht_progbits = true
is_progbits _ = false

abbrev pub is_strtab : SectionType → Bool
is_strtab sht_strtab = true
is_strtab _ = false

-- a & b of numbers below 2 ** n
unfoldable pub bit_and : ℕ → ℕ → ℕ → ℕ
bit_and zero a b = 0
bit_and (suc n) a b = (a % 2) * (b % 2) + 2 * bit_and n (a / 2) (b / 2)

abbrev malformed : String
malformed = "malformed or truncated ELF input"

abbrev pub or_malformed {ℓ} : {A : Type ℓ} → Option A → Checked A
or_malformed none = rejected malformed
or_malformed (some a) = ok a

abbrev pub is_x86 : ℕ → Machine → Bool
is_x86 bits em_386 = bits == 32
is_x86 bits em_x86_64 = bits == 64
is_x86 bits other_machine = false

abbrev is_supported_type : ElfType → Bool
is_supported_type other_type = false
is_supported_type _ = true

abbrev pub header_size : ℕ → ℕ
header_size bits = if bits == 32 then 52 else 64

abbrev pub entry_size : ℕ → ℕ
entry_size bits = if bits == 32 then 40 else 64

abbrev program_size : ℕ → ℕ
program_size bits = if bits == 32 then 32 else 56

abbrev is_byte : ℕ → Option ℕ → Bool
is_byte b none = false
is_byte b (some c) = b == c

-- The checks of the file header, lines 113 to 126. A header that was read is longer than 6 bytes.
unfoldable pub check_kind : Bytes → ElfHeader → Checked (Unit {0})
check_kind file h = do
  require h.little_endian "only little-endian ELF is supported"
  require (is_x86 h.elfclass h.e_machine) "only ELF x86 (32-bit) and x86_64 (64-bit) are supported"
  require (is_supported_type h.e_type) "only ET_REL, ET_EXEC, and ET_DYN ELF types are supported"
  require
      (h.e_ehsize == header_size h.elfclass && h.is_current_version && is_byte 1 (get_elem? file 6))
      "invalid ELF header size or version"

-- The checks of the two tables, lines 127 to 149.
unfoldable pub check_tables : Bytes → ElfHeader → Checked (Unit {0})
check_tables file h = do
  require
      (h.e_phnum == 0
        || leb h.e_phnum max_sections
          && h.e_phentsize == program_size h.elfclass
          && leb (header_size h.elfclass) h.e_phoff
          && leb (h.e_phoff + h.e_phnum * program_size h.elfclass) (length file))
      "invalid or excessive program header table"
  require (leb 1 h.e_shnum && leb h.e_shnum max_sections)
      "missing or excessive section table (extended counts unsupported)"
  require
      (h.e_shentsize == entry_size h.elfclass
        && leb (header_size h.elfclass) h.e_shoff
        && leb (h.e_shoff + h.e_shnum * entry_size h.elfclass) (length file))
      "invalid or truncated section table"

abbrev pub check_header : Bytes → ElfHeader → Checked (Unit {0})
check_header file h = check_kind file h >> check_tables file h

-- The last byte of a nonempty sequence is zero.
abbrev ends_in_zero : Bytes → Bool
ends_in_zero [] = false
ends_in_zero (b ∷ []) = b == 0
ends_in_zero (b ∷ c ∷ bs) = ends_in_zero (c ∷ bs)

abbrev starts_with_zero : Bytes → Bool
starts_with_zero [] = false
starts_with_zero (b ∷ bs) = b == 0

abbrev checked_names : Bytes → Checked Bytes
checked_names names =
    require (starts_with_zero names && ends_in_zero names) "invalid section name table strings"
    >>= λ _. ok names

abbrev names_at : Bytes → Option SectionHeader → Checked Bytes
names_at file none = rejected malformed
names_at file (some h) =
    require (is_strtab h.sh_type && leb (h.sh_offset + h.sh_size) (length file))
      "invalid section name table"
    >>= λ _. checked_names (slice h.sh_offset (h.sh_offset + h.sh_size) file)

-- The name table, lines 158 to 169.
unfoldable pub section_names : Bytes → ℕ → Option ℕ → List SectionHeader → Checked Bytes
section_names file count none headers = rejected "invalid section name table index"
section_names file count (some index) headers =
    require (ltb index count) "invalid section name table index" >>= λ _.
    if index == 0 then ok [] else names_at file (get_elem? headers index)

-- name.split(b"\0", 1)[0]
abbrev before_zero : Bytes → Bytes
before_zero [] = []
before_zero (b ∷ bs) = if b == 0 then [] else b ∷ before_zero bs

abbrev pub overlaps : ℕ → ℕ → List Section → Bool
overlaps start size [] = false
overlaps start size (s ∷ executable) =
    (ltb start (s.file_offset + s.size) && ltb s.file_offset (start + size))
    || overlaps start size executable

-- What stays the same in the loop over the section headers.
pub record Layout : Type 0 where
  pub data_length : ℕ
  pub bits : ℕ
  pub table_offset : ℕ
  pub table_end : ℕ
  pub names : Bytes

abbrev pub layout_of : Bytes → ElfHeader → Bytes → Layout
layout_of file h names = record {
  data_length = length file;
  bits = h.elfclass;
  table_offset = h.e_shoff;
  table_end = h.e_shoff + h.e_shnum * entry_size h.elfclass;
  names = names;
}

-- The test of an executable section, lines 181 to 190.
unfoldable pub is_valid_executable : Layout → ℕ → SectionHeader → Bool
is_valid_executable l index h =
    not (index == 0)
    && is_progbits h.sh_type
    && not (h.sh_flags / 2048 % 2 == 1)
    && not (h.sh_size == 0)
    && leb (header_size l.bits) h.sh_offset
    && leb (h.sh_offset + h.sh_size) l.data_length
    && leb (h.sh_addr + h.sh_size) (2 ^ l.bits)
    && not (ltb h.sh_offset l.table_end && ltb l.table_offset (h.sh_offset + h.sh_size))

abbrev pub section_of : Layout → ℕ → SectionHeader → Section
section_of l index h = record {
  index = index;
  name = before_zero (slice h.sh_name (h.sh_name + 128) l.names);
  file_offset = h.sh_offset;
  address = h.sh_addr;
  size = h.sh_size;
}

-- The body of the loop for an executable section, lines 181 to 211.
unfoldable pub add_executable :
    Layout → ℕ → SectionHeader → List Section × ℕ → Checked (List Section × ℕ)
unfolding bit_and
add_executable l index h (executable, total_bytes) = do
  require (is_valid_executable l index h) "invalid executable section"
  require (h.sh_addralign == 0 || bit_and 64 h.sh_addralign (h.sh_addralign - 1) == 0)
      "invalid executable section alignment"
  require (not (overlaps h.sh_offset h.sh_size executable)) "overlapping executable sections"
  require (leb (total_bytes + h.sh_size) max_executable_bytes)
      "executable section bytes exceed review limit"
  ok (executable ++ section_of l index h ∷ [], total_bytes + h.sh_size)

-- The body of the loop, lines 173 to 211.
unfoldable pub section_step :
    Layout → ℕ → SectionHeader → List Section × ℕ → Checked (List Section × ℕ)
section_step l index h acc = do
  require (is_null h.sh_type || is_nobits h.sh_type || leb (h.sh_offset + h.sh_size) l.data_length)
      "section extends beyond input"
  require (h.sh_name == 0 || ltb h.sh_name (length l.names)) "invalid section name offset"
  if h.sh_flags / 4 % 2 == 1 then add_executable l index h acc else ok acc

unfoldable pub section_loop :
    Layout → ℕ → List SectionHeader → List Section × ℕ → Checked (List Section × ℕ)
section_loop l index [] acc = ok acc
section_loop l index (h ∷ headers) acc =
    section_step l index h acc >>= λ acc'. section_loop l (index + 1) headers acc'

module _ (elf : Elf) where
  -- The headers of the table: `count` of them from `start`.
  unfoldable pub parse_headers : Bytes → ℕ → ℕ → ℕ → Checked (List SectionHeader)
  parse_headers file size start zero = ok []
  parse_headers file size start (suc count) =
      or_malformed (elf.parse_section (slice start (start + size) file)) >>= λ h.
      parse_headers file size (start + size) count >>= λ hs. ok (h ∷ hs)

  abbrev pub first_is_null : List SectionHeader → Bool
  first_is_null [] = false
  first_is_null (h ∷ hs) = is_null h.sh_type

  abbrev pub not_empty : List Section → Bool
  not_empty [] = false
  not_empty (s ∷ ss) = true

  unfoldable pub sections_of : Bytes → ElfHeader → Checked (ℕ × ElfType × List Section)
  sections_of file h = do
    check_header file h
    headers ← parse_headers file (entry_size h.elfclass) h.e_shoff h.e_shnum
    require (first_is_null headers) "invalid ELF null section"
    names ← section_names file h.e_shnum h.e_shstrndx headers
    reviewed ← section_loop (layout_of file h names) 0 headers ([], 0)
    require (not_empty reviewed.0) "ELF has no executable sections"
    ok (h.elfclass, h.e_type, reviewed.0)

  unfoldable pub elf_sections : Bytes → Checked (ℕ × ElfType × List Section)
  elf_sections file = or_malformed (elf.open_file file) >>= λ h. sections_of file h
