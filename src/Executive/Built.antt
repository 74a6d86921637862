-- ===== src/Executive/Built.antt =====
-- What a report that is built holds (executive_report.py, lines 109 to 166).
use post_quantum_cryptograph.Common.{
  ℕ, String, ◌≡◌, refl, sym, ap, subst, ◌∙◌, Bool, true, false, not, ◌&&◌, ◌||◌, Option, none, some,
  List, [], ◌∷◌, leb, map,
}
use post_quantum_cryptograph.Common.Bytes.{Bytes, ascii, bytes_eq}
use post_quantum_cryptograph.Common.Table.{Table, find}
use post_quantum_cryptograph.Common.Sets.{mem, sort_texts}
use post_quantum_cryptograph.Common.Checked.{
  ok, ◌>>◌, require, require-eq-ok, bind-eq-ok, then-eq-ok, ok-injective,
}
use post_quantum_cryptograph.Executive.{
  Json, null, text, boolean, integer, float, not_finite, array, object, table_of, Kind, Section,
  security, quantum, cbom, constant_time, pki, tls, fips, all_sections, section_key, fields_of,
  module_of, Metric, unmeasured, get, names, value_at, is_locator, evidence_kinds, entry_keys,
  request_keys, has_status, is_true, is_false, exceeds, check_object, check_scan, check_section,
  unmeasured_names, no_source, Reported, Report, check_version, is_text, check_text, check_locator,
  check_metrics, check_evidence, check_entry, check_supplied, check_sections, build_report,
}
use post_quantum_cryptograph.Executive.Metrics.{
  AreMetrics, check_text-eq-ok, metrics-AreMetrics, all_unmeasured-AreMetrics,
}

-- The entries of an object.
abbrev pub entries : Json → Table Json
entries (object es) = table_of es
entries j = []

abbrev pub given_sections : Json → Table Json
given_sections request = entries (get (ascii "sections") (entries request))

-- The statuses and counts of a scan do not contradict each other.
abbrev pub IsScan : Section → Table Metric → Type 0
IsScan constant_time values =
    let status = value_at "status" values in
    let scan_complete = value_at "scan_complete" values in
    let truncated = value_at "findings_truncated" values in
    ((has_status "complete" status && (is_false scan_complete || is_true truncated)) ≡ false)
    × ((has_status "incomplete" status && is_true scan_complete && is_false truncated) ≡ false)
    × (exceeds (value_at "finding_count" values) (value_at "instruction_count" values) ≡ false)
IsScan s values = Unit

abbrev pub AreUnmeasured : Table Metric → Type 0
AreUnmeasured [] = Unit
AreUnmeasured ((name, v) ∷ values) = (v ≡ unmeasured) × AreUnmeasured values

check_object-eq-ok :
    (allowed required : List Bytes) (j : Json) (table : Table Json)
    → check_object allowed required j ≡ ok table
    → table ≡ entries j
unfolding check_object
check_object-eq-ok allowed required (object es) table e =
    let (_, e₁) = require-eq-ok _ _ (ok (table_of es)) e in
    sym (ok-injective (table_of es) table e₁)
check_object-eq-ok allowed required null table e = absurd cc
check_object-eq-ok allowed required (text t) table e = absurd cc
check_object-eq-ok allowed required (boolean b) table e = absurd cc
check_object-eq-ok allowed required (integer n) table e = absurd cc
check_object-eq-ok allowed required (float m k) table e = absurd cc
check_object-eq-ok allowed required not_finite table e = absurd cc
check_object-eq-ok allowed required (array js) table e = absurd cc

no_refusal :
    (a b c : Bool) (m₁ m₂ m₃ : String)
    → require (not a) m₁ >> (require (not b) m₂ >> require (not c) m₃) ≡ ok tt
    → (a ≡ false) × (b ≡ false) × (c ≡ false)
no_refusal false false false m₁ m₂ m₃ e = (refl, refl, refl)
no_refusal false false true m₁ m₂ m₃ e = absurd cc
no_refusal false true c m₁ m₂ m₃ e = absurd cc
no_refusal true b c m₁ m₂ m₃ e = absurd cc

section-IsScan :
    (s : Section) (values : Table Metric) → check_section s values ≡ ok tt → IsScan s values
unfolding check_scan
section-IsScan constant_time values e =
    let status = value_at "status" values in
    let scan_complete = value_at "scan_complete" values in
    let truncated = value_at "findings_truncated" values in
    no_refusal (has_status "complete" status && (is_false scan_complete || is_true truncated))
      (has_status "incomplete" status && is_true scan_complete && is_false truncated)
      (exceeds (value_at "finding_count" values) (value_at "instruction_count" values)) _ _ _ e
section-IsScan security values e = tt
section-IsScan quantum values e = tt
section-IsScan cbom values e = tt
section-IsScan pki values e = tt
section-IsScan tls values e = tt
section-IsScan fips values e = tt

evidence-eq-ok : (j : Json) (t : Bytes) → check_evidence j ≡ ok t → mem t evidence_kinds ≡ true
unfolding check_evidence
evidence-eq-ok (text s) t e =
    let (known, e₁) = require-eq-ok (mem s evidence_kinds) _ (ok s) e in
    subst (λ u. mem u evidence_kinds ≡ true) (ok-injective s t e₁) known
evidence-eq-ok null t e = absurd cc
evidence-eq-ok (boolean b) t e = absurd cc
evidence-eq-ok (integer n) t e = absurd cc
evidence-eq-ok (float m k) t e = absurd cc
evidence-eq-ok not_finite t e = absurd cc
evidence-eq-ok (array js) t e = absurd cc
evidence-eq-ok (object es) t e = absurd cc

all_unmeasured-AreUnmeasured :
    (fields : Table Kind) → AreUnmeasured (map (λ e. (e.0, unmeasured)) fields)
all_unmeasured-AreUnmeasured [] = tt
all_unmeasured-AreUnmeasured ((name, kind) ∷ fields) = (refl, all_unmeasured-AreUnmeasured fields)

all_unmeasured-IsScan : (s : Section) → IsScan s (map (λ e. (e.0, unmeasured)) (fields_of s))
unfolding find bytes_eq
all_unmeasured-IsScan constant_time = (refl, refl, refl)
all_unmeasured-IsScan security = tt
all_unmeasured-IsScan quantum = tt
all_unmeasured-IsScan cbom = tt
all_unmeasured-IsScan pki = tt
all_unmeasured-IsScan tls = tt
all_unmeasured-IsScan fips = tt

module _ (is_space is_control : ℕ → Bool) (digest : Table Metric → Bytes) where
  -- The source of a section, by the entry that the request has for it.
  abbrev pub IsSource : Option Json → Reported → Type 0
  IsSource none r = (r.source ≡ no_source r.id) × AreUnmeasured r.values
  IsSource (some j) r =
      (r.source.module_name ≡ module_of r.id)
      × (is_locator r.source.input_file ≡ true)
      × (is_locator r.source.output_file ≡ true)
      × (mem r.source.evidence_kind evidence_kinds ≡ true)
      × (r.source.excerpt_sha256 ≡ digest r.values)

  abbrev pub IsReported : Section → Option Json → Reported → Type 0
  IsReported s given r =
      (r.id ≡ s)
      × AreMetrics is_space is_control (fields_of s) r.values
      × IsSource given r
      × IsScan s r.values
      × (r.unmeasured_fields ≡ sort_texts (unmeasured_names r.values))

  -- One report for each section, in the order of the sections.
  abbrev pub AreReported : Table Json → List Section → List Reported → Type 0
  AreReported supplied [] [] = Unit
  AreReported supplied (s ∷ ss) (r ∷ rs) =
      IsReported s (find (section_key s) supplied) r × AreReported supplied ss rs
  AreReported supplied ss rs = ⊥

  locator-eq-ok :
      (j : Json) (t : Bytes) → check_locator is_space is_control j ≡ ok t → is_locator t ≡ true
  unfolding check_locator
  locator-eq-ok j t e =
      let (s, _, e₁) = bind-eq-ok (check_text is_space is_control 512 j) _ e in
      let (fine, e₂) = require-eq-ok (is_locator s) _ (ok s) e₁ in
      subst (λ u. is_locator u ≡ true) (ok-injective s t e₂) fine

  entry-IsReported :
      (s : Section) (j : Json) (r : Reported)
      → check_entry is_space is_control digest s j ≡ ok r
      → IsReported s (some j) r
  unfolding check_entry
  entry-IsReported s j r e =
      let (given, _, e₁) = bind-eq-ok (check_object entry_keys entry_keys j) _ e in
      let input_json = get (ascii "input_file") given in
      let output_json = get (ascii "output_file") given in
      let evidence_json = get (ascii "evidence_kind") given in
      let excerpt = get (ascii "output") given in
      let (input, h₁, e₂) = bind-eq-ok (check_locator is_space is_control input_json) _ e₁ in
      let (out, h₂, e₃) = bind-eq-ok (check_locator is_space is_control output_json) _ e₂ in
      let (evidence, h₃, e₄) = bind-eq-ok (check_evidence evidence_json) _ e₃ in
      let (output, _, e₅) = bind-eq-ok (check_object (names (fields_of s)) [] excerpt) _ e₄ in
      let (values, h₄, e₆) =
        bind-eq-ok (check_metrics is_space is_control (fields_of s) output) _ e₅ in
      let (h₅, e₇) = then-eq-ok (check_section s values) _ e₆ in
      subst (IsReported s (some j)) (ok-injective _ r e₇) (
        refl,
        metrics-AreMetrics is_space is_control (fields_of s) output values h₄,
        (
          refl,
          locator-eq-ok input_json input h₁,
          locator-eq-ok output_json out h₂,
          evidence-eq-ok evidence_json evidence h₃,
          refl,
        ),
        section-IsScan s values h₅,
        refl,
      )

  supplied-IsReported :
      (s : Section) (given : Option Json) (r : Reported)
      → check_supplied is_space is_control digest s given ≡ ok r
      → IsReported s given r
  unfolding check_supplied
  supplied-IsReported s (some j) r e = entry-IsReported s j r e
  supplied-IsReported s none r e = subst (IsReported s none) (ok-injective _ r e) (
    refl,
    all_unmeasured-AreMetrics is_space is_control (fields_of s),
    (refl, all_unmeasured-AreUnmeasured (fields_of s)),
    all_unmeasured-IsScan s,
    refl,
  )

  sections-AreReported :
      (ss : List Section) (supplied : Table Json) (rs : List Reported)
      → check_sections is_space is_control digest ss supplied ≡ ok rs
      → AreReported supplied ss rs
  unfolding check_sections
  sections-AreReported [] supplied rs e = subst (AreReported supplied []) (ok-injective [] rs e) tt
  sections-AreReported (s ∷ ss) supplied rs e =
      let given = find (section_key s) supplied in
      let (q, h, e₁) = bind-eq-ok (check_supplied is_space is_control digest s given) _ e in
      let (qs, hs, e₂) = bind-eq-ok (check_sections is_space is_control digest ss supplied) _ e₁ in
      subst (AreReported supplied (s ∷ ss)) (ok-injective (q ∷ qs) rs e₂)
        (supplied-IsReported s given q h, sections-AreReported ss supplied qs hs)

  -- Whatever is given as a request: a report that is built has a title of 1 to 512 trimmed
  -- printable characters, a JSON of at most 65,536 bytes, and one section for each of the seven,
  -- in their order. A section has the module that is fixed for it, and one value for each of its
  -- fields, in their order: none, or a value of the field's kind within its bounds, where gaps are
  -- in strict order. Without an entry in the request its source and its values are all unmeasured;
  -- with one, the files are relative locators without traversal, the kind of evidence is one of
  -- two, and the digest is that of the values reported. The status and the counts of a scan do not
  -- contradict each other. The unmeasured fields are the sorted names of the values that are none.
  pub build_report_lem :
      (length_of : Report → ℕ) (request : Json) (report : Report)
      → build_report is_space is_control digest length_of request ≡ ok report
      → (is_text is_space is_control 512 report.title ≡ true)
        × AreReported (given_sections request) all_sections report.sections
        × (leb (length_of report) 65536 ≡ true)
  unfolding build_report
  build_report_lem length_of request report e =
      let (given, h, e₁) = bind-eq-ok (check_object request_keys request_keys request) _ e in
      let (_, e₂) = then-eq-ok (check_version (get (ascii "schema_version") given)) _ e₁ in
      let title_json = get (ascii "title") given in
      let sections_json = get (ascii "sections") given in
      let (title, h₁, e₃) = bind-eq-ok (check_text is_space is_control 512 title_json) _ e₂ in
      let (supplied, h₂, e₄) =
        bind-eq-ok (check_object (map section_key all_sections) [] sections_json) _ e₃ in
      let (rs, h₃, e₅) =
        bind-eq-ok (check_sections is_space is_control digest all_sections supplied) _ e₄ in
      let built : Report = record { title = title; sections = rs } in
      let (small, e₆) = require-eq-ok (leb (length_of built) 65536) _ (ok built) e₅ in
      let given_eq : given ≡ entries request =
        check_object-eq-ok request_keys request_keys request given h in
      let supplied_eq : supplied ≡ given_sections request =
        check_object-eq-ok (map section_key all_sections) [] sections_json supplied h₂
        ∙ ap (λ t. entries (get (ascii "sections") t)) given_eq in
      subst
        (λ (x : Report).
          (is_text is_space is_control 512 x.title ≡ true)
          × AreReported (given_sections request) all_sections x.sections
          × (leb (length_of x) 65536 ≡ true))
        (ok-injective built report e₆)
        (
          check_text-eq-ok is_space is_control 512 title_json title h₁,
          subst (λ t. AreReported t all_sections rs) supplied_eq
              (sections-AreReported all_sections supplied rs h₃),
          small,
        )
