-- ===== src/Audit/Scan/Complete.antt =====
-- What a report says of the instructions (binary_auditor.py, lines 239 to 312).
use Prim.Native.Nat.{min}
use post_quantum_cryptograph.Common.{
  ℕ, ◌+◌, ◌≤◌, ◌≡◌, refl, sym, ap, subst, ◌∙◌, inl, inr, Bool, true, not, ◌&&◌, Option, List, [],
  ◌∷◌, ◌++◌, append-nil, append_assoc, ltb, ◌==◌, length, map, All, arith, length-append,
}
use post_quantum_cryptograph.Common.Bytes.{Bytes}
use post_quantum_cryptograph.Audit.{
  ok, bind-eq-ok, ok-injective, max_instructions, max_findings, Section,
}
use post_quantum_cryptograph.Audit.Scan.{
  Decoder, Finding, Counts, Progress, Reason, scan_stream, Review, review_of, Report, all_complete,
  start, no_counts, stream_of, scan_sections, report_of, audit_sections,
}
use post_quantum_cryptograph.Audit.Scan.Streams.{
  divisions, Fits, stream_length, IsCounted, IsWhole, scan_stream-IsCounted, scan_stream-decoded,
  scan_stream-IsWhole,
}

module _ (decoder : Decoder) (bits : ℕ) (file : Bytes) where
  -- What capstone is documented to do: it yields the instructions of the given bytes.
  abbrev pub AllFit : List Section → Type 0
  AllFit [] = Unit
  AllFit (s ∷ ss) = ((n : ℕ) → Fits s.size (stream_of decoder bits file s n)) × AllFit ss

  -- The divisions of all sections, when `n` instructions have been counted before.
  unfoldable pub all_divisions : List Section → ℕ → List Finding
  all_divisions [] n = []
  all_divisions (s ∷ ss) n =
      let st = stream_of decoder bits file s n in
      divisions s 0 st ++ all_divisions ss (n + stream_length st)

  -- What a whole section and the sections after it have found.
  abbrev pub Found : List Section → Counts → Counts → Type 0
  Found ss c c' =
      (c'.finding_count ≡ c.finding_count + length (all_divisions ss c.instruction_count))
      × (c'.finding_count ≤ max_findings
          → c'.findings ≡ c.findings ++ all_divisions ss c.instruction_count)

  record IsScanned (ss : List Section) (c c' : Counts) (rs : List Review) : Type 0 where
    counts : IsCounted c'
    inside : All (λ (r : Review). r.decoded_bytes ≤ r.section.size) rs
    sections : map (λ (r : Review). r.section) rs ≡ ss
    whole : all_complete rs ≡ true → Found ss c c'

  join :
      (s : Section) (ss : List Section) (c : Counts) (p : Progress) (c' : Counts)
      → IsWhole s (stream_of decoder bits file s c.instruction_count) (start c) p
      → Found ss p.counts c'
      → Found (s ∷ ss) c c'
  unfolding all_divisions
  join s ss c p c' w (later, kept) =
      let st = stream_of decoder bits file s c.instruction_count in
      let shift : all_divisions ss p.counts.instruction_count
          ≡ all_divisions ss (c.instruction_count + stream_length st) =
        ap (all_divisions ss) w.counted in
      let sizes =
        length-append (divisions s 0 st)
          (all_divisions ss (c.instruction_count + stream_length st)) in
      (
        omega (arith, later, w.found, ap length shift, sizes),
        λ few.
            kept few
            ∙ ap (λ fs. fs ++ all_divisions ss p.counts.instruction_count)
                (w.kept (omega (arith, few, later)))
            ∙ append_assoc c.findings _ _
            ∙ ap (λ ds. c.findings ++ (divisions s 0 st ++ ds)) shift,
      )

  cons-IsScanned :
      (s : Section) (ss : List Section) (c : Counts) (p : Progress) (r : Option Reason)
      (c' : Counts) (rs : List Review)
      → Fits s.size (stream_of decoder bits file s c.instruction_count)
      → IsCounted c
      → scan_stream s (stream_of decoder bits file s c.instruction_count) (start c) ≡ ok (p, r)
      → IsScanned ss p.counts c' rs
      → IsScanned (s ∷ ss) c c' (review_of s p r ∷ rs)
  cons-IsScanned s ss c p r c' rs fits v scanned ih =
      let st = stream_of decoder bits file s c.instruction_count in
      let (inside, short) = scan_stream-decoded s st (start c) p r s.size fits scanned in
      record {
        counts = ih.counts;
        inside = (omega (arith, inside), ih.inside);
        sections = ap (λ l. s ∷ l) ih.sections;
        whole = λ all.
            let (full, others) = both (p.decoded == s.size) (all_complete rs) all in
            let at_end : p.decoded ≡ s.size = decoded_all full in
            elim short [
              | inl none_yet ↦
                  let ended =
                    subst (λ q. scan_stream s st (start c) ≡ ok (p, q)) none_yet scanned in
                  join s ss c p c' (scan_stream-IsWhole s st (start c) p v ended) (ih.whole others)
              | inr lt ↦ absurd (omega (arith, lt, at_end))
            ];
      }
    where
      both : (a b : Bool) → (a && b) ≡ true → (a ≡ true) × (b ≡ true)
      both a b h = ground arith

      decoded_all : (p.decoded == s.size) ≡ true → p.decoded ≡ s.size
      decoded_all h = ground arith

  nil-IsScanned : (c : Counts) → IsCounted c → IsScanned [] c c []
  unfolding all_divisions
  nil-IsScanned c v = record {
    counts = v;
    inside = tt;
    sections = refl;
    whole = λ all. (omega arith, λ few. sym (append-nil c.findings));
  }

  scan_sections-IsScanned :
      (ss : List Section) (c c' : Counts) (rs : List Review)
      → AllFit ss
      → IsCounted c
      → scan_sections decoder bits file ss c ≡ ok (rs, c')
      → IsScanned ss c c' rs
  unfolding scan_sections
  scan_sections-IsScanned [] c c' rs fits v e =
      let same : ([], c) ≡ (rs, c') = ok-injective _ _ e in
      subst (λ (t : List Review × Counts). IsScanned [] c t.1 t.0) same (nil-IsScanned c v)
  scan_sections-IsScanned (s ∷ ss) c c' rs fits v e =
      let st = stream_of decoder bits file s c.instruction_count in
      let (pr, scanned, e₁) = bind-eq-ok (scan_stream s st (start c)) _ e in
      let (rest, more, e₂) = bind-eq-ok (scan_sections decoder bits file ss pr.0.counts) _ e₁ in
      let same : (review_of s pr.0 pr.1 ∷ rest.0, rest.1) ≡ (rs, c') = ok-injective _ _ e₂ in
      let v' = scan_stream-IsCounted s st (start c) pr.0 pr.1 v scanned in
      let ih = scan_sections-IsScanned ss pr.0.counts rest.1 rest.0 fits.1 v' more in
      subst (λ (t : List Review × Counts). IsScanned (s ∷ ss) c t.1 t.0) same
        (cons-IsScanned s ss c pr.0 pr.1 rest.1 rest.0 (fits.0 c.instruction_count) v scanned ih)

  no_counts-IsCounted : IsCounted no_counts
  no_counts-IsCounted = record { few = omega arith; kept = omega arith }

  audit_sections-IsScanned :
      (ss : List Section) (report : Report)
      → AllFit ss
      → audit_sections decoder bits file ss ≡ ok report
      → (rs : List Review) × (c : Counts) × (report_of decoder bits file rs c ≡ report)
        × IsScanned ss no_counts c rs
  unfolding audit_sections
  audit_sections-IsScanned ss report fits e =
      let (rc, scanned, e') = bind-eq-ok (scan_sections decoder bits file ss no_counts) _ e in
      (
        rc.0,
        rc.1,
        ok-injective _ _ e',
        scan_sections-IsScanned ss no_counts rc.1 rc.0 fits no_counts-IsCounted scanned,
      )

  -- Where the decoder yields instructions that fill no more than the bytes of their section: the
  -- report lists the sections in order, none decoded beyond its end; it counts 200,000 instructions
  -- at most; and it holds as many findings as it counts, up to 1,000, and says whether there were
  -- more.
  pub audit_sections_bounded :
      (ss : List Section) (report : Report)
      → AllFit ss
      → audit_sections decoder bits file ss ≡ ok report
      → (map (λ (r : Review). r.section) report.sections ≡ ss)
        × All (λ (r : Review). r.decoded_bytes ≤ r.section.size) report.sections
        × (report.instruction_count ≤ max_instructions)
        × (length report.findings ≡ min report.finding_count max_findings)
        × (report.findings_truncated ≡ ltb max_findings report.finding_count)
  audit_sections_bounded ss report fits e =
      let (rs, c, same, v) = audit_sections-IsScanned ss report fits e in
      subst
        (λ (t : Report).
          (map (λ (r : Review). r.section) t.sections ≡ ss)
          × All (λ (r : Review). r.decoded_bytes ≤ r.section.size) t.sections
          × (t.instruction_count ≤ max_instructions)
          × (length t.findings ≡ min t.finding_count max_findings)
          × (t.findings_truncated ≡ ltb max_findings t.finding_count))
        same (v.sections, v.inside, v.counts.few, v.counts.kept, truncated c v.counts.kept)
    where
      truncated :
          (c : Counts)
          → length c.findings ≡ min c.finding_count max_findings
          → ltb (length c.findings) c.finding_count ≡ ltb max_findings c.finding_count
      truncated c k = ground arith

  -- Where the decoder yields instructions that fill no more than the bytes of their section: the
  -- findings of a report with the status complete are all division instructions of all sections, in
  -- order.
  pub audit_sections_complete :
      (ss : List Section) (report : Report)
      → AllFit ss
      → audit_sections decoder bits file ss ≡ ok report
      → report.is_complete ≡ true
      → report.findings ≡ all_divisions ss 0
  audit_sections_complete ss report fits e complete =
      let (rs, c, same, v) = audit_sections-IsScanned ss report fits e in
      let complete' = subst (λ (t : Report). t.is_complete ≡ true) (sym same) complete in
      let (all, few) = parts rs c v.counts.kept complete' in
      ap (λ (t : Report). t.findings) (sym same) ∙ (v.whole all).1 few
    where
      parts :
          (rs : List Review) (c : Counts)
          → length c.findings ≡ min c.finding_count max_findings
          → (all_complete rs && not (ltb (length c.findings) c.finding_count)) ≡ true
          → (all_complete rs ≡ true) × (c.finding_count ≤ max_findings)
      parts rs c k h = ground arith
