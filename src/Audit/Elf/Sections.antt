-- ===== src/Audit/Elf/Sections.antt =====
-- What `_elf_sections` accepts (binary_auditor.py, lines 103 to 219).
use Prim.Native.Nat.{zero, suc}
use post_quantum_cryptograph.Common.{
  ℕ, ◌+◌, ◌≤◌, ◌<◌, ◌≡◌, refl, sym, ap, subst, ◌∙◌, true, Option, none, some, List, [], ◌∷◌, arith,
  length, All,
}
use post_quantum_cryptograph.Common.Bytes.{Bytes, slice}
use post_quantum_cryptograph.Audit.{
  Checked, ok, rejected, ◌>>◌, require-eq-ok, bind-eq-ok, ok-injective, max_executable_bytes,
  max_sections, Section,
}
use post_quantum_cryptograph.Audit.Elf.{
  Elf, ElfHeader, ElfType, SectionHeader, layout_of, or_malformed, not_empty, first_is_null,
  section_names, check_kind, check_tables, entry_size, section_loop, sections_of, elf_sections,
  parse_headers, check_header,
}
use post_quantum_cryptograph.Audit.Elf.Loop.{
  Pairwise, total_size, IsInside, flagged, IsReview, section_loop-IsReview,
}

then-eq-ok :
    {A : Type 0} (r : Checked (Unit {0})) (q : Checked A) {a : A}
    → r >> q ≡ ok a
    → (r ≡ ok tt) × (q ≡ ok a)
then-eq-ok (ok tt) q h = (refl, h)
then-eq-ok (rejected m) q h = cc

check_tables-count :
    (file : Bytes) (h : ElfHeader) → check_tables file h ≡ ok tt → h.e_shnum ≤ max_sections
unfolding check_tables
check_tables-count file h e = ground arith

module _ (elf : Elf) (file : Bytes) where
  length-parse_headers :
      (size start count : ℕ) (hs : List SectionHeader)
      → parse_headers elf file size start count ≡ ok hs
      → length hs ≡ count
  unfolding parse_headers
  length-parse_headers size start zero hs e =
      let same : [] ≡ hs = ok-injective _ _ e in ap length (sym same)
  length-parse_headers size start (suc count) hs e =
      let (h, _, e₁) =
        bind-eq-ok (or_malformed (elf.parse_section (slice start (start + size) file))) _ e in
      let (rest, d, e₂) =
        bind-eq-ok (parse_headers elf file size (start + size) count) (λ hs. ok (h ∷ hs)) e₁ in
      let same : h ∷ rest ≡ hs = ok-injective _ _ e₂ in
      ap length (sym same) ∙ ap suc (length-parse_headers size (start + size) count rest d)

  -- What stands behind sections that were accepted.
  pub record Accepted (bits : ℕ) (kind : ElfType) (ss : List Section) : Type 0 where
    pub header : ElfHeader
    pub names : Bytes
    pub headers : List SectionHeader
    pub opened : elf.open_file file ≡ some header
    pub class : header.elfclass ≡ bits
    pub checked : check_header file header ≡ ok tt
    pub parsed :
        parse_headers elf file (entry_size header.elfclass) header.e_shoff header.e_shnum
        ≡ ok headers
    pub few : length headers ≤ max_sections
    pub complete : ss ≡ flagged (layout_of file header names) 0 headers
    pub some_section : 0 < length ss
    pub inside : All (IsInside (layout_of file header names)) ss
    pub apart : Pairwise ss
    pub bounded : total_size ss ≤ max_executable_bytes

  or_malformed-some : (o : Option ElfHeader) (h : ElfHeader) → or_malformed o ≡ ok h → o ≡ some h
  or_malformed-some none h e = cc
  or_malformed-some (some k) h e = cc

  not_empty-length : (ss : List Section) → not_empty elf ss ≡ true → 0 < length ss
  not_empty-length [] e = cc
  not_empty-length (s ∷ ss) e = omega arith

  review-Accepted :
      (h : ElfHeader) (names : Bytes) (headers : List SectionHeader) (ss : List Section) (total : ℕ)
      → or_malformed (elf.open_file file) ≡ ok h
      → check_header file h ≡ ok tt
      → parse_headers elf file (entry_size h.elfclass) h.e_shoff h.e_shnum ≡ ok headers
      → section_loop (layout_of file h names) 0 headers ([], 0) ≡ ok (ss, total)
      → not_empty elf ss ≡ true
      → Accepted h.elfclass h.e_type ss
  review-Accepted h names headers ss total opened checked parsed looped found =
      let start : IsReview (layout_of file h names) 0 [] 0 = record {
        inside = tt;
        earlier = tt;
        apart = tt;
        sum = refl;
        bounded = omega arith;
      } in
      let (v, complete) =
        section_loop-IsReview (layout_of file h names) 0 headers [] 0 ss total start looped in
      let few =
        check_tables-count file h
          (then-eq-ok (check_kind file h) (check_tables file h) checked).1 in
      let counted =
        length-parse_headers (entry_size h.elfclass) h.e_shoff h.e_shnum headers parsed in
      record {
        header = h;
        names = names;
        headers = headers;
        opened = or_malformed-some (elf.open_file file) h opened;
        class = refl;
        checked = checked;
        parsed = parsed;
        few = omega (arith, few, counted);
        complete = complete;
        some_section = not_empty-length ss found;
        inside = v.inside;
        apart = v.apart;
        bounded = omega (arith, v.sum, v.bounded);
      }

  -- Whatever bytes are presented: sections that are accepted are those of all headers with the flag
  -- for executable content, at most 256 headers in all and at least one of them flagged; each
  -- section is not empty and lies in the file, after its header and apart from the section table;
  -- they are in the order of their indices, no two share a byte, and they are 4 MB at most.
  pub elf_sections_sound :
      (bits : ℕ) (kind : ElfType) (ss : List Section)
      → elf_sections elf file ≡ ok (bits, kind, ss)
      → Accepted bits kind ss
  unfolding elf_sections sections_of
  elf_sections_sound bits kind ss e =
      let (h, opened, e₁) =
        bind-eq-ok (or_malformed (elf.open_file file)) (sections_of elf file) e in
      let (checked, e₂) = then-eq-ok (check_header file h) _ e₁ in
      let (headers, parsed, e₃) =
        bind-eq-ok (parse_headers elf file (entry_size h.elfclass) h.e_shoff h.e_shnum) _ e₂ in
      let (_, e₄) = require-eq-ok (first_is_null elf headers) _ _ e₃ in
      let (names, _, e₅) = bind-eq-ok (section_names file h.e_shnum h.e_shstrndx headers) _ e₄ in
      let (reviewed, looped, e₆) =
        bind-eq-ok (section_loop (layout_of file h names) 0 headers ([], 0)) _ e₅ in
      let (found, e₇) = require-eq-ok (not_empty elf reviewed.0) _ _ e₆ in
      let same : (h.elfclass, h.e_type, reviewed.0) ≡ (bits, kind, ss) = ok-injective _ _ e₇ in
      subst (λ (t : ℕ × ElfType × List Section). Accepted t.0 t.1 t.2) same
        (review-Accepted h names headers reviewed.0 reviewed.1 opened checked parsed looped found)
