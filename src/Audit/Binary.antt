-- ===== src/Audit/Binary.antt =====
-- `audit_binary` as a whole, from the file's bytes to the exit code (binary_auditor.py, lines 222 to
-- 332).
use post_quantum_cryptograph.Common.{
  ℕ, ◌+◌, ◌-◌, ◌≤◌, ◌≡◌, refl, subst, true, List, [], ◌∷◌, arith, length, All, drop, length-take,
  length-drop,
}
use post_quantum_cryptograph.Common.Bytes.{Bytes, slice}
use post_quantum_cryptograph.Audit.{Checked, ok, rejected, bind-eq-ok, max_instructions, Section}
use post_quantum_cryptograph.Audit.Elf.{Elf, ElfType, Layout, layout_of, elf_sections}
use post_quantum_cryptograph.Audit.Elf.Loop.{IsInside}
use post_quantum_cryptograph.Audit.Elf.Sections.{elf_sections_sound}
use post_quantum_cryptograph.Audit.Scan.{Decoder, Report, stream_of, audit_binary, exit_code}
use post_quantum_cryptograph.Audit.Scan.Streams.{Fits}
use post_quantum_cryptograph.Audit.Scan.Complete.{AllFit, all_divisions, audit_sections_complete}

-- capstone decodes the bytes that it is given and no more.
pub record DecoderLaws (decoder : Decoder) : Type 0 where
  pub fits :
      (bits : ℕ) (bytes : Bytes) (address count : ℕ)
      → Fits (length bytes) (decoder bits bytes address count)

length-slice : (a n : ℕ) (file : Bytes) → a + n ≤ length file → length (slice a (a + n) file) ≡ n
length-slice a n file h =
    omega (arith, length-take (a + n - a) (drop a file), length-drop a file, h)

module _ (elf : Elf) (decoder : Decoder) (laws : DecoderLaws decoder) where
  inside-AllFit :
      (bits : ℕ) (file : Bytes) (l : Layout) (ss : List Section)
      → l.data_length ≡ length file
      → All (IsInside l) ss
      → AllFit decoder bits file ss
  inside-AllFit bits file l [] e h = tt
  inside-AllFit bits file l (s ∷ ss) e h = (
    λ n.
        subst (λ k. Fits k (stream_of decoder bits file s n))
          (length-slice s.file_offset s.size file (omega (arith, h.0.in_file, e)))
          (laws.fits bits (slice s.file_offset (s.file_offset + s.size) file) s.address
            (max_instructions - n + 1)),
    inside-AllFit bits file l ss e h.1,
  )

  -- What stands behind the exit code 0.
  pub record Clean (file : Bytes) : Type 0 where
    pub bits : ℕ
    pub kind : ElfType
    pub sections : List Section
    pub report : Report
    pub accepted : elf_sections elf file ≡ ok (bits, kind, sections)
    pub reported : audit_binary elf decoder (ok file) ≡ ok report
    pub findings : report.findings ≡ all_divisions decoder bits file sections 0

  exit_code-zero :
      (r : Checked Report) → exit_code r ≡ 0 → (t : Report) × (r ≡ ok t) × (t.is_complete ≡ true)
  exit_code-zero (ok t) h = (t, refl, ground arith)
  exit_code-zero (rejected m) h = absurd (omega arith)

  of_report :
      (file : Bytes) (report : Report)
      → audit_binary elf decoder (ok file) ≡ ok report
      → report.is_complete ≡ true
      → Clean file
  unfolding audit_binary
  of_report file report reported complete =
      let ((bits, kind, ss), accepted, audited) = bind-eq-ok (elf_sections elf file) _ reported in
      let a = elf_sections_sound elf file bits kind ss accepted in
      let fits = inside-AllFit bits file (layout_of file a.header a.names) ss refl a.inside in
      record {
        bits = bits;
        kind = kind;
        sections = ss;
        report = report;
        accepted = accepted;
        reported = reported;
        findings = audit_sections_complete decoder bits file ss report fits audited complete;
      }

  -- Where the decoder decodes the bytes that it is given and no more: if the program exits with 0 for
  -- a file that was read, then its sections were accepted, and the findings of the report are all
  -- division instructions that the decoder yields for them, in order.
  pub exit_zero_complete :
      (file : Bytes) → exit_code (audit_binary elf decoder (ok file)) ≡ 0 → Clean file
  exit_zero_complete file h =
      let (report, reported, complete) = exit_code-zero (audit_binary elf decoder (ok file)) h in
      of_report file report reported complete
