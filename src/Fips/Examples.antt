-- ===== src/Fips/Examples.antt =====
-- A review of two documents that disagree.
use post_quantum_cryptograph.Common.{
  ℕ, ◌≤◌, ◌≡◌, refl, String, Bool, true, false, not, ◌&&◌, ◌||◌, List, [], ◌∷◌, ltb, ◌==◌, length,
}
use post_quantum_cryptograph.Common.Bytes.{ascii, bytes_eq, less_text}
use post_quantum_cryptograph.Common.Sets.{mem, set_of, every, insert_text, sort_texts}
use post_quantum_cryptograph.Common.Table.{find}
use post_quantum_cryptograph.Common.Checked.{ok, rejected}
use post_quantum_cryptograph.Fips.{
  Json, text, array, object, end, item, Entries, close, entry, Field, module_id, certificate_status,
  Assertion, word, scope, is_unset, Document, asserted, is_target_field, check_object, reverse_onto,
  value_of, insert_document, sort_documents, drop_spaces, is_text, check_text, check_texts,
  services_value, word_value, check_value, check_values, check_document, check_documents,
  document_list, normalize,
}
use post_quantum_cryptograph.Fips.Matrix.{
  evidence_of, is_unknown, usable_of, values_of, value_in, is_match, any_evidence, is_word,
  codes_of, row_of, Gap, has_gap, row_gaps, document_gaps, review_gaps, build_matrix, matrix_of,
}
use post_quantum_cryptograph.Fips.Conflict.{some_document, disagree}
use post_quantum_cryptograph.Fips.Rows.{is_standard, is_status, row_of-gaps}
use post_quantum_cryptograph.Fips.Documents.{IsAscending}
use post_quantum_cryptograph.Fips.Accepted.{build_matrix_lem}

abbrev is_space : ℕ → Bool
is_space c = c == 32 || c == 9

abbrev is_control : ℕ → Bool
is_control c = ltb c 32

abbrev field : String → String → Entries → Entries
field k v = entry (ascii k) (text (ascii v))

abbrev document : String → String → Json
document id status = object (
    field "document_id" id
      (field "locator" "p. 1" (field "module_id" "m" (field "certificate_status" status close))))

abbrev request : String → Json
request id = object (
    entry (ascii "target")
      (object (
        field "module_id" "m" (
          entry (ascii "services")
            (array (item (text (ascii "sign")) (item (text (ascii "hash")) end))) close)))
      (entry (ascii "documents")
        (array (item (document "d2" "revoked") (item (document id "active") end))) close))

abbrev described : String → String → Document
described id status = record {
  document_id = ascii id;
  locator = ascii "p. 1";
  values =
      (module_id, word (ascii "m"))
      ∷ (Field.version, Assertion.unset)
      ∷ (Field.environment, Assertion.unset)
      ∷ (Field.certificate_reference, Assertion.unset)
      ∷ (Field.certificate_standard, Assertion.unset)
      ∷ (certificate_status, word (ascii status))
      ∷ (Field.security_policy_reference, Assertion.unset)
      ∷ (Field.approved_mode, Assertion.unset)
      ∷ (Field.services, Assertion.unset)
      ∷ [];
}

abbrev documents : List Document
documents = described "d1" "active" ∷ described "d2" "revoked" ∷ []

abbrev target : List (Field × Assertion)
target =
    (module_id, word (ascii "m"))
    ∷ (Field.version, Assertion.unset)
    ∷ (Field.environment, Assertion.unset)
    ∷ (Field.approved_mode, Assertion.unset)
    ∷ (Field.services, scope (ascii "hash" ∷ ascii "sign" ∷ []))
    ∷ []

accepted : normalize is_space is_control (request "d1") ≡ ok (target, documents)
unfolding bytes_eq mem find every set_of sort_texts insert_text less_text check_object reverse_onto
    value_of insert_document sort_documents drop_spaces is_text check_text check_texts
    services_value word_value check_value check_values check_document check_documents document_list
    normalize
accepted = refl

matrix : build_matrix is_space is_control (request "d1") ≡ ok (matrix_of target documents)
unfolding build_matrix
matrix = rw accepted refl

status_gaps :
    (row_of target documents certificate_status).gaps
    ≡ ascii "certificate_revoked" ∷ ascii "conflicting_evidence" ∷ []
unfolding bytes_eq mem sort_texts insert_text less_text value_of evidence_of usable_of values_of
    value_in any_evidence codes_of row_of
status_gaps = refl

duplicate : build_matrix is_space is_control (request "d2") ≡ rejected "duplicate document_id"
unfolding bytes_eq mem find every set_of sort_texts insert_text less_text check_object reverse_onto
    value_of insert_document sort_documents drop_spaces is_text check_text check_texts
    services_value word_value check_value check_values check_document check_documents document_list
    normalize build_matrix
duplicate = refl

row_of-gaps_example :
    let row = row_of target documents certificate_status in
    let desired = asserted certificate_status target in
    let open_scope = is_unset desired || is_unknown desired in
    let f = certificate_status in
    (row.is_verifiable ≡ some_document (λ v. true) f documents)
    × (mem (ascii "missing_evidence") row.gaps ≡ not (some_document (λ v. true) f documents))
    × (mem (ascii "conflicting_evidence") row.gaps ≡ disagree f documents)
    × (mem (ascii "missing_target_scope") row.gaps ≡ (is_target_field f && open_scope))
    × (mem (ascii "target_scope_mismatch") row.gaps ≡ (
        is_target_field f
        && (not open_scope && some_document (λ v. not (is_match f desired v)) f documents)))
    × (mem (ascii "wrong_standard") row.gaps
        ≡ (is_standard f && some_document (λ v. not (is_word "FIPS 140-3" v)) f documents))
    × (mem (ascii "certificate_historical") row.gaps
        ≡ (is_status f && some_document (is_word "historical") f documents))
    × (mem (ascii "certificate_revoked") row.gaps
        ≡ (is_status f && some_document (is_word "revoked") f documents))
row_of-gaps_example = row_of-gaps target documents certificate_status

build_matrix_lem_example :
    let m = matrix_of target documents in
    (is_unset (asserted module_id m.target) ≡ false)
    × IsAscending m.documents
    × (length m.documents ≤ 64)
    × ((g : Gap)
        → has_gap g m.gaps ≡ (
            has_gap g (row_gaps m.rows)
            || (has_gap g (document_gaps m.documents) || has_gap g review_gaps)))
build_matrix_lem_example =
    build_matrix_lem is_space is_control (request "d1") (matrix_of target documents) matrix
