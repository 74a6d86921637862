-- ===== src/Fips/Matrix.antt =====
-- The rows and the gaps of the matrix (fips_evidence.py, lines 123 to 182).
use post_quantum_cryptograph.Common.{
  ℕ, String, Bool, true, false, not, ◌&&◌, ◌||◌, List, [], ◌∷◌, ◌++◌, map, ltb, if◌then◌else◌,
  length,
}
use post_quantum_cryptograph.Common.Bytes.{Bytes, ascii, bytes_eq, less_text}
use post_quantum_cryptograph.Common.Sets.{mem, sort_texts, every}
use post_quantum_cryptograph.Common.Checked.{Checked, ok, ◌>>=◌}
use post_quantum_cryptograph.Fips.{
  Json, Field, module_id, version, environment, certificate_reference, certificate_standard,
  certificate_status, field_name, fields, is_target_field, is_services, Assertion, unset, word,
  scope, is_unset, Document, asserted, normalize,
}

-- Equality of two values.
unfoldable pub same_texts : List Bytes → List Bytes → Bool
same_texts [] [] = true
same_texts (x ∷ xs) (y ∷ ys) = bytes_eq x y && same_texts xs ys
same_texts xs ys = false

abbrev pub same_value : Assertion → Assertion → Bool
same_value unset unset = true
same_value (word x) (word y) = bytes_eq x y
same_value (scope xs) (scope ys) = same_texts xs ys
same_value a b = false

pub record Evidence : Type 0 where
  pub document_id : Bytes
  pub locator : Bytes
  pub value : Assertion

-- [… for doc in documents if doc[field] is not None]
unfoldable pub evidence_of : Field → List Document → List Evidence
evidence_of f [] = []
evidence_of f (d ∷ ds) =
    let rest = evidence_of f ds in
    let a = asserted f d.values in
    if is_unset a
    then rest
    else record { document_id = d.document_id; locator = d.locator; value = a } ∷ rest

abbrev pub is_unknown : Assertion → Bool
is_unknown (word t) = bytes_eq t (ascii "unknown")
is_unknown a = false

unfoldable pub usable_of : List Evidence → List Evidence
usable_of [] = []
usable_of (e ∷ es) = if is_unknown e.value then usable_of es else e ∷ usable_of es

-- The set of the values.
unfoldable pub value_in : Assertion → List Assertion → Bool
value_in a [] = false
value_in a (b ∷ bs) = same_value a b || value_in a bs

unfoldable pub values_of : List Evidence → List Assertion
values_of [] = []
values_of (e ∷ es) =
    let rest = values_of es in if value_in e.value rest then rest else e.value ∷ rest

-- set(desired).issubset(value), or desired == value.
abbrev pub services_in : Assertion → Assertion → Bool
services_in (scope xs) (scope ys) = every (λ x. mem x ys) xs
services_in a b = false

abbrev pub is_match : Field → Assertion → Assertion → Bool
is_match f desired value =
    if is_services f then services_in desired value else same_value desired value

unfoldable pub any_evidence : (Assertion → Bool) → List Evidence → Bool
any_evidence test [] = false
any_evidence test (e ∷ es) = test e.value || any_evidence test es

-- codes.add(code), under a condition.
abbrev pub add_code : Bool → String → List Bytes → List Bytes
add_code true code codes = if mem (ascii code) codes then codes else codes ++ ascii code ∷ []
add_code false code codes = codes

abbrev pub is_no_evidence : List Evidence → Bool
is_no_evidence [] = true
is_no_evidence (e ∷ es) = false

-- The comparison with the intended scope.
abbrev pub target_codes : Field → Assertion → List Evidence → List Bytes → List Bytes
target_codes f desired usable codes =
    if is_unset desired || is_unknown desired
    then add_code true "missing_target_scope" codes
    else add_code (any_evidence (λ v. not (is_match f desired v)) usable) "target_scope_mismatch"
        codes

abbrev pub is_word : String → Assertion → Bool
is_word s (word t) = bytes_eq t (ascii s)
is_word s a = false

-- The two fields with rules of their own.
abbrev pub certificate_codes : Field → List Evidence → List Bytes → List Bytes
certificate_codes certificate_standard usable codes =
    add_code (any_evidence (λ v. not (is_word "FIPS 140-3" v)) usable) "wrong_standard" codes
certificate_codes certificate_status usable codes =
    add_code (any_evidence (is_word "revoked") usable) "certificate_revoked"
      (add_code (any_evidence (is_word "historical") usable) "certificate_historical" codes)
certificate_codes f usable codes = codes

unfoldable pub codes_of : Field → List (Field × Assertion) → List Evidence → List Bytes
codes_of f target usable =
    let missing = add_code (is_no_evidence usable) "missing_evidence" [] in
    let conflicts = add_code (ltb 1 (length (values_of usable))) "conflicting_evidence" missing in
    certificate_codes f usable
      (if is_target_field f then target_codes f (asserted f target) usable conflicts else conflicts)

pub record Row : Type 0 where
  pub field : Field
  pub target : Assertion
  pub evidence : List Evidence
  pub is_verifiable : Bool
  pub gaps : List Bytes

-- One turn of the loop over the fields; `is_verifiable` is the status not_verified, else unknown.
unfoldable pub row_of : List (Field × Assertion) → List Document → Field → Row
row_of target documents f =
    let evidence = evidence_of f documents in
    let usable = usable_of evidence in
    record {
      field = f;
      target = asserted f target;
      evidence = evidence;
      is_verifiable = not (is_no_evidence usable);
      gaps = sort_texts (codes_of f target usable);
    }

-- A gap is a pair of texts; the set of them is a list without duplicates, sorted at the end.
pub record Gap : Type 0 where
  pub field : Bytes
  pub code : Bytes

abbrev pub same_gap : Gap → Gap → Bool
same_gap g h = bytes_eq g.field h.field && bytes_eq g.code h.code

unfoldable pub has_gap : Gap → List Gap → Bool
has_gap g [] = false
has_gap g (h ∷ hs) = same_gap g h || has_gap g hs

abbrev pub add_gap : Gap → List Gap → List Gap
add_gap g gs = if has_gap g gs then gs else gs ++ g ∷ []

unfoldable pub add_gaps : List Gap → List Gap → List Gap
add_gaps [] gs = gs
add_gaps (h ∷ hs) gs = add_gaps hs (add_gap h gs)

unfoldable pub row_gaps : List Row → List Gap
row_gaps [] = []
row_gaps (r ∷ rs) = map (λ c. record { field = field_name r.field; code = c }) r.gaps ++ row_gaps rs

-- doc[field] is None or doc[field] == "unknown", for the fields that bind a document.
abbrev pub bound_fields : List Field
bound_fields = module_id ∷ version ∷ environment ∷ certificate_reference ∷ []

abbrev pub is_unbound : Assertion → Bool
is_unbound a = is_unset a || is_unknown a

unfoldable pub unbound_gaps : List Field → Document → List Gap
unbound_gaps [] d = []
unbound_gaps (f ∷ fs) d =
    let rest = unbound_gaps fs d in
    if is_unbound (asserted f d.values)
    then record {
      field = ascii "document:" ++ (d.document_id ++ (ascii ":" ++ field_name f));
      code = ascii "unbound_document_scope";
    }
      ∷ rest
    else rest

unfoldable pub asserts_any : List Field → Document → Bool
asserts_any [] d = false
asserts_any (f ∷ fs) d = not (is_unset (asserted f d.values)) || asserts_any fs d

unfoldable pub document_gaps : List Document → List Gap
document_gaps [] = []
document_gaps (d ∷ ds) =
    (if asserts_any fields d then unbound_gaps bound_fields d else []) ++ document_gaps ds

abbrev review : String → Gap
review code = record { field = ascii "review"; code = ascii code }

abbrev pub review_gaps : List Gap
review_gaps =
    review "authenticity_not_verified"
    ∷ review "current_cmvp_status_not_verified"
    ∷ review "runtime_mode_not_verified"
    ∷ []

-- sorted(gaps)
unfoldable pub less_gap : Gap → Gap → Bool
less_gap g h = less_text g.field h.field || (bytes_eq g.field h.field && less_text g.code h.code)

unfoldable pub insert_gap : Gap → List Gap → List Gap
insert_gap g [] = g ∷ []
insert_gap g (h ∷ hs) = if less_gap h g then h ∷ insert_gap g hs else g ∷ h ∷ hs

unfoldable pub sort_gaps : List Gap → List Gap
sort_gaps [] = []
sort_gaps (g ∷ gs) = insert_gap g (sort_gaps gs)

pub record Matrix : Type 0 where
  pub target : List (Field × Assertion)
  pub documents : List Document
  pub rows : List Row
  pub gaps : List Gap

abbrev pub matrix_of : List (Field × Assertion) → List Document → Matrix
matrix_of target documents =
    let rows = map (row_of target documents) fields in
    record {
      target = target;
      documents = documents;
      rows = rows;
      gaps = sort_gaps (add_gaps (row_gaps rows ++ (document_gaps documents ++ review_gaps)) []);
    }

unfoldable pub build_matrix : (ℕ → Bool) → (ℕ → Bool) → Json → Checked Matrix
build_matrix is_space is_control j =
    normalize is_space is_control j >>= λ (target, documents). ok (matrix_of target documents)
