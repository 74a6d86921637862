-- ===== src/Executive/Examples.antt =====
-- A report of two sections.
use post_quantum_cryptograph.Common.{ℕ, ◌≡◌, refl, Bool, true, [], ◌∷◌, map, leb, ltb, ◌==◌, String}
use post_quantum_cryptograph.Common.Int.{pos}
use post_quantum_cryptograph.Common.Bytes.{Bytes, ascii, bytes_eq, less_text, split_on}
use post_quantum_cryptograph.Common.Table.{Table, find}
use post_quantum_cryptograph.Common.Sets.{mem, every, sort_texts, insert_text}
use post_quantum_cryptograph.Common.Sorting.{sort_by, insert_by}
use post_quantum_cryptograph.Common.Checked.{ok}
use post_quantum_cryptograph.Fips.{drop_spaces, reverse_onto}
use post_quantum_cryptograph.Executive.{
  Json, text, integer, array, object, end, item, close, entry, Section, all_sections, module_of,
  fields_of, security, quantum, cbom, constant_time, pki, tls, fips, Metric, unmeasured, measured,
  gaps, Reported, Report, reported_of, no_source, is_text, build_report, check_object,
  check_version, check_text, check_sections, check_supplied, check_entry, check_locator,
  check_evidence, check_metrics, check_metric, check_number, check_integer, check_boolean,
  check_status, check_gaps, check_gaps_of, check_gap, all_different, has_pair, check_scan,
  unmeasured_names,
}
use post_quantum_cryptograph.Executive.Built.{given_sections, AreReported, build_report_lem}

abbrev space : ℕ → Bool
space c = c == 32

abbrev control : ℕ → Bool
control c = ltb c 32

abbrev no_digest : Table Metric → Bytes
no_digest values = ascii "digest"

abbrev word : String → Json
word s = text (ascii s)

abbrev entry_of : Json → Json
entry_of output = object (
    entry (ascii "input_file") (word "data/in.bin") (
      entry (ascii "output_file") (word "data/out.json") (
        entry (ascii "evidence_kind") (word "synthetic_fixture")
          (entry (ascii "output") output close))))

abbrev gap : String → Json
gap field =
    object (entry (ascii "field") (word field) (entry (ascii "code") (word "missing") close))

abbrev scan : Json
scan = object (
    entry (ascii "status") (word "complete") (
      entry (ascii "finding_count") (integer (pos 2))
        (entry (ascii "instruction_count") (integer (pos 9)) close)))

abbrev review : Json
review =
    object (entry (ascii "gaps") (array (item (gap "version") (item (gap "services") end))) close)

abbrev request : Json
request = object (
    entry (ascii "schema_version") (integer (pos 1)) (
      entry (ascii "title") (word "Review") (
        entry (ascii "sections")
          (object (
            entry (ascii "fips") (entry_of review)
              (entry (ascii "constant_time") (entry_of scan) close)))
          close)))

abbrev absent : Section → Reported
absent s = reported_of s (no_source s) (map (λ e. (e.0, unmeasured)) (fields_of s))

abbrev present : Section → Table Metric → Reported
present s values =
    reported_of s
      (record {
        module_name = module_of s;
        input_file = ascii "data/in.bin";
        output_file = ascii "data/out.json";
        evidence_kind = ascii "synthetic_fixture";
        excerpt_sha256 = ascii "digest";
      })
      values

abbrev report : Report
report = record {
  title = ascii "Review";
  sections =
      absent security
      ∷ absent quantum
      ∷ absent cbom
      ∷ present constant_time (
          (ascii "status", measured (word "complete"))
          ∷ (ascii "finding_count", measured (integer (pos 2)))
          ∷ (ascii "instruction_count", measured (integer (pos 9)))
          ∷ (ascii "scan_complete", unmeasured)
          ∷ (ascii "findings_truncated", unmeasured)
          ∷ [])
      ∷ absent pki
      ∷ absent tls
      ∷ present fips (
          (ascii "overall_status", unmeasured)
          ∷ (
            ascii "gaps",
            gaps ((ascii "services", ascii "missing") ∷ (ascii "version", ascii "missing") ∷ []),
          )
          ∷ [])
      ∷ [];
}

built : build_report space control no_digest (λ r. 900) request ≡ ok report
unfolding build_report check_object check_version check_text check_sections check_supplied
    check_entry check_locator check_evidence check_metrics check_metric check_number check_integer
    check_boolean check_status check_gaps check_gaps_of check_gap all_different has_pair check_scan
    unmeasured_names find every mem bytes_eq less_text split_on sort_texts insert_text sort_by
    insert_by drop_spaces reverse_onto
built = refl

build_report_lem_example :
    (is_text space control 512 report.title ≡ true)
    × AreReported space control no_digest (given_sections request) all_sections report.sections
    × (leb 900 65536 ≡ true)
build_report_lem_example = build_report_lem space control no_digest (λ r. 900) request report built
