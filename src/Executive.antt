-- ===== src/Executive.antt =====
-- src/pqc_bench/executive_report.py: the report of excerpts of the modules' outputs.
--
-- A request is the value that JSON or a caller gives, with integers apart from floats; a finite float
-- is m / 2 ^ k exactly. The keys of an object are texts, and a text is the list of its characters'
-- codes. The Unicode tables (white space, and the categories that begin with C), the digest of an
-- excerpt and the length of a report's JSON are parameters. The constant entries of a report are left
-- out; load_request and the two printers work on texts.
pub mod Order
pub mod Metrics
pub mod Built
mod Examples
use post_quantum_cryptograph.Common.{
  ℕ, suc, ◌*◌, ◌^◌, String, Bool, true, false, not, ◌&&◌, ◌||◌, Option, none, some, List, [], ◌∷◌,
  map, leb, ltb, ◌==◌, if◌then◌else◌, length,
}
use post_quantum_cryptograph.Common.Int.{ℤ, pos, leb_ℤ, ltb_ℤ, ◌==ℤ◌}
use post_quantum_cryptograph.Common.Bytes.{Bytes, ascii, bytes_eq, less_text, split_on}
use post_quantum_cryptograph.Common.Sorting.{sort_by}
use post_quantum_cryptograph.Common.Sets.{mem, every, sort_texts}
use post_quantum_cryptograph.Common.Table.{Table, find, has}
use post_quantum_cryptograph.Common.Checked.{Checked, ok, rejected, ◌>>=◌, ◌>>◌, require}
use post_quantum_cryptograph.Fips.{strip}

mutual
  pub data Json : Type 0 where
    null : Json
    text : Bytes → Json
    boolean : Bool → Json
    integer : ℤ → Json
    float : ℤ → ℕ → Json
    not_finite : Json
    array : Items → Json
    object : Entries → Json

  pub data Items : Type 0 where
    end : Items
    item : Json → Items → Items

  pub data Entries : Type 0 where
    close : Entries
    entry : Bytes → Json → Entries → Entries

abbrev pub size_of : Items → ℕ
size_of end = 0
size_of (item j js) = suc (size_of js)

abbrev pub table_of : Entries → Table Json
table_of close = []
table_of (entry k j es) = (k, j) ∷ table_of es

-- The kinds of a field.
pub data Kind : Type 0 where
  of_text of_number of_integer of_boolean of_gaps of_policy of_scan of_fips : Kind

-- The keys of `SECTIONS`.
pub data Section : Type 0 where
  security quantum cbom constant_time pki tls fips : Section

abbrev pub all_sections : List Section
all_sections = security ∷ quantum ∷ cbom ∷ constant_time ∷ pki ∷ tls ∷ fips ∷ []

abbrev pub section_key : Section → Bytes
section_key security = ascii "security"
section_key quantum = ascii "quantum"
section_key cbom = ascii "cbom"
section_key constant_time = ascii "constant_time"
section_key pki = ascii "pki"
section_key tls = ascii "tls"
section_key fips = ascii "fips"

abbrev pub module_of : Section → Bytes
module_of security = ascii "pqc_bench.security_estimation.lattice_runner"
module_of quantum = ascii "pqc_bench.quantum_cost"
module_of cbom = ascii "pqc_bench.cbom.policy"
module_of constant_time = ascii "pqc_bench.constant_time.binary_auditor"
module_of pki = ascii "pqc_bench.pki.hybrid_certs"
module_of tls = ascii "pqc_bench.tls_simulator"
module_of fips = ascii "pqc_bench.fips_evidence"

abbrev pub fields_of : Section → Table Kind
fields_of security =
    (ascii "scheme", of_text)
    ∷ (ascii "classical_security_bits", of_number)
    ∷ (ascii "quantum_security_bits", of_number)
    ∷ []
fields_of quantum =
    (ascii "scheme", of_text)
    ∷ (ascii "logical_qubits", of_integer)
    ∷ (ascii "t_gate_count", of_integer)
    ∷ (ascii "t_depth", of_integer)
    ∷ (ascii "physical_qubits", of_integer)
    ∷ (ascii "runtime_seconds", of_number)
    ∷ []
fields_of cbom =
    (ascii "cNSA_2_0_status", of_policy) ∷ (ascii "nist_sp_800_208_status", of_policy) ∷ []
fields_of constant_time =
    (ascii "status", of_scan)
    ∷ (ascii "finding_count", of_integer)
    ∷ (ascii "instruction_count", of_integer)
    ∷ (ascii "scan_complete", of_boolean)
    ∷ (ascii "findings_truncated", of_boolean)
    ∷ []
fields_of pki = (ascii "chain_verified", of_boolean) ∷ []
fields_of tls =
    (ascii "local_duration_ns", of_integer)
    ∷ (ascii "client_application_match", of_boolean)
    ∷ (ascii "server_application_match", of_boolean)
    ∷ []
fields_of fips = (ascii "overall_status", of_fips) ∷ (ascii "gaps", of_gaps) ∷ []

-- `_metric`'s result: None, the value that was given, or the sorted gaps.
pub data Metric : Type 0 where
  unmeasured : Metric
  measured : Json → Metric
  gaps : List (Bytes × Bytes) → Metric

abbrev pub names {ℓ} : {A : Type ℓ} → Table A → List Bytes
names table = map (λ e. e.0) table

-- `_object`
unfoldable pub check_object : List Bytes → List Bytes → Json → Checked (Table Json)
check_object allowed required (object es) =
    let table = table_of es in
    require (every (λ k. mem k allowed) (names table) && every (λ k. has k table) required)
      "object contains invalid, missing or unknown fields"
    >> ok table
check_object allowed required j = rejected "object contains invalid, missing or unknown fields"

-- d.get(k), with what stands for a missing value.
abbrev pub or_else {ℓ} : {A : Type ℓ} → A → Option A → A
or_else other none = other
or_else other (some x) = x

abbrev pub get : Bytes → Table Json → Json
get k table = or_else null (find k table)

abbrev pub value_at : String → Table Metric → Metric
value_at name values = or_else unmeasured (find (ascii name) values)

abbrev pub limit : ℕ
limit = 1000000000000000000000000000000

abbrev pub in_range : ℤ → ℕ → Bool
in_range m k = leb_ℤ (pos 0) m && leb_ℤ m (pos (limit * 2 ^ k))

abbrev pub policies : List Bytes
policies =
    ascii "compliant"
    ∷ ascii "partial"
    ∷ ascii "non-compliant"
    ∷ ascii "transitional"
    ∷ ascii "unknown"
    ∷ []

abbrev pub scans : List Bytes
scans = ascii "complete" ∷ ascii "incomplete" ∷ []

abbrev pub reviews : List Bytes
reviews = ascii "not_verified" ∷ []

unfoldable pub check_number : Json → Checked Metric
check_number (integer n) =
    require (in_range n 0) "expected bounded finite nonnegative number (not bool)"
    >> ok (measured (integer n))
check_number (float m k) =
    require (in_range m k) "expected bounded finite nonnegative number (not bool)"
    >> ok (measured (float m k))
check_number j = rejected "expected bounded finite nonnegative number (not bool)"

unfoldable pub check_integer : Json → Checked Metric
check_integer (integer n) =
    require (in_range n 0) "expected bounded finite nonnegative number (not bool)"
    >> ok (measured (integer n))
check_integer j = rejected "expected bounded finite nonnegative number (not bool)"

unfoldable pub check_boolean : Json → Checked Metric
check_boolean (boolean b) = ok (measured (boolean b))
check_boolean j = rejected "expected boolean"

unfoldable pub check_status : List Bytes → Json → Checked Metric
check_status allowed (text t) = require (mem t allowed) "invalid status" >> ok (measured (text t))
check_status allowed j = rejected "invalid status"

-- The order of pairs of texts.
abbrev pub less_pair : Bytes × Bytes → Bytes × Bytes → Bool
less_pair p q = less_text p.0 q.0 || bytes_eq p.0 q.0 && less_text p.1 q.1

-- len(set(pairs)) == len(pairs)
unfoldable pub has_pair : Bytes × Bytes → List (Bytes × Bytes) → Bool
has_pair p [] = false
has_pair p (q ∷ qs) = bytes_eq p.0 q.0 && bytes_eq p.1 q.1 || has_pair p qs

unfoldable pub all_different : List (Bytes × Bytes) → Bool
all_different [] = true
all_different (p ∷ ps) = not (has_pair p ps) && all_different ps

abbrev is_locator_char : ℕ → Bool
is_locator_char c =
    leb 65 c && leb c 90
    || leb 97 c && leb c 122
    || leb 48 c && leb c 57
    || c == 95
    || c == 46
    || c == 32
    || c == 47
    || c == 45

abbrev pub forbidden_parts : List Bytes
forbidden_parts = ascii "" ∷ ascii "." ∷ ascii ".." ∷ []

abbrev pub is_locator : Bytes → Bool
is_locator t =
    every is_locator_char t && every (λ part. not (mem part forbidden_parts)) (split_on 47 t)

abbrev pub gap_keys : List Bytes
gap_keys = ascii "field" ∷ ascii "code" ∷ []

abbrev pub evidence_kinds : List Bytes
evidence_kinds = ascii "synthetic_fixture" ∷ ascii "local_output_excerpt" ∷ []

abbrev pub entry_keys : List Bytes
entry_keys = ascii "input_file" ∷ ascii "output_file" ∷ ascii "evidence_kind" ∷ ascii "output" ∷ []

abbrev pub request_keys : List Bytes
request_keys = ascii "schema_version" ∷ ascii "title" ∷ ascii "sections" ∷ []

abbrev pub has_status : String → Metric → Bool
has_status s (measured (text t)) = bytes_eq t (ascii s)
has_status s v = false

abbrev pub is_true : Metric → Bool
is_true (measured (boolean b)) = b
is_true v = false

abbrev pub is_false : Metric → Bool
is_false (measured (boolean b)) = not b
is_false v = false

abbrev pub exceeds : Metric → Metric → Bool
exceeds (measured (integer a)) (measured (integer b)) = ltb_ℤ b a
exceeds v w = false

unfoldable pub check_scan : Table Metric → Checked (Unit {0})
check_scan values =
    let status = value_at "status" values in
    let scan_complete = value_at "scan_complete" values in
    let truncated = value_at "findings_truncated" values in
    require (not (has_status "complete" status && (is_false scan_complete || is_true truncated)))
      "contradictory scan completion"
    >> (require
          (not (has_status "incomplete" status && is_true scan_complete && is_false truncated))
          "contradictory scan incompletion"
        >> require
            (not (exceeds (value_at "finding_count" values) (value_at "instruction_count" values)))
            "findings exceed instruction count")

-- The checks that only the section constant_time has.
abbrev pub check_section : Section → Table Metric → Checked (Unit {0})
check_section constant_time values = check_scan values
check_section s values = ok tt

abbrev pub is_unmeasured : Metric → Bool
is_unmeasured unmeasured = true
is_unmeasured v = false

unfoldable pub unmeasured_names : Table Metric → List Bytes
unmeasured_names [] = []
unmeasured_names ((name, v) ∷ vs) =
    if is_unmeasured v then name ∷ unmeasured_names vs else unmeasured_names vs

pub record Source : Type 0 where
  pub module_name : Bytes
  pub input_file : Bytes
  pub output_file : Bytes
  pub evidence_kind : Bytes
  pub excerpt_sha256 : Bytes

abbrev pub no_source : Section → Source
no_source s = record {
  module_name = module_of s;
  input_file = ascii "unmeasured";
  output_file = ascii "unmeasured";
  evidence_kind = ascii "unmeasured";
  excerpt_sha256 = ascii "unmeasured";
}

pub record Reported : Type 0 where
  pub id : Section
  pub source : Source
  pub values : Table Metric
  pub unmeasured_fields : List Bytes

pub record Report : Type 0 where
  pub title : Bytes
  pub sections : List Reported

abbrev pub reported_of : Section → Source → Table Metric → Reported
reported_of s source values = record {
  id = s;
  source = source;
  values = values;
  unmeasured_fields = sort_texts (unmeasured_names values);
}

unfoldable pub check_version : Json → Checked (Unit {0})
check_version (integer n) = require (n ==ℤ pos 1) "unsupported schema version"
check_version j = rejected "unsupported schema version"

unfoldable pub check_evidence : Json → Checked Bytes
check_evidence (text t) = require (mem t evidence_kinds) "invalid evidence kind" >> ok t
check_evidence j = rejected "invalid evidence kind"

module _ (is_space is_control : ℕ → Bool) where
  abbrev pub is_text : ℕ → Bytes → Bool
  is_text n t =
      leb 1 (length t)
      && leb (length t) n
      && bytes_eq t (strip is_space is_control t)
      && every (λ c. not (is_control c)) t

  -- `_text`
  unfoldable pub check_text : ℕ → Json → Checked Bytes
  check_text n (text t) = require (is_text n t) "expected trimmed printable characters" >> ok t
  check_text n j = rejected "expected trimmed printable characters"

  -- `_locator`
  unfoldable pub check_locator : Json → Checked Bytes
  check_locator j = check_text 512 j >>= λ t.
      require (is_locator t) "expected relative local file locator without traversal or URL" >> ok t

  unfoldable pub check_gap : Json → Checked (Bytes × Bytes)
  check_gap j = check_object gap_keys gap_keys j >>= λ table.
      check_text 550 (get (ascii "field") table) >>= λ field.
      check_text 512 (get (ascii "code") table) >>= λ code. ok (field, code)

  unfoldable pub check_gaps_of : Items → Checked (List (Bytes × Bytes))
  check_gaps_of end = ok []
  check_gaps_of (item j js) = check_gap j >>= λ p. check_gaps_of js >>= λ ps. ok (p ∷ ps)

  unfoldable pub check_gaps : Json → Checked Metric
  check_gaps (array js) =
      require (leb (size_of js) 512) "expected at most 512 evidence gaps"
      >> (check_gaps_of js >>= λ ps.
          require (all_different ps) "duplicate evidence gaps" >> ok (gaps (sort_by less_pair ps)))
  check_gaps j = rejected "expected at most 512 evidence gaps"

  abbrev pub check_kind : Kind → Json → Checked Metric
  check_kind of_text j = check_text 512 j >>= λ t. ok (measured (text t))
  check_kind of_number j = check_number j
  check_kind of_integer j = check_integer j
  check_kind of_boolean j = check_boolean j
  check_kind of_gaps j = check_gaps j
  check_kind of_policy j = check_status policies j
  check_kind of_scan j = check_status scans j
  check_kind of_fips j = check_status reviews j

  -- `_metric`
  unfoldable pub check_metric : Kind → Json → Checked Metric
  check_metric kind null = ok unmeasured
  check_metric kind j = check_kind kind j

  unfoldable pub check_metrics : Table Kind → Table Json → Checked (Table Metric)
  check_metrics [] output = ok []
  check_metrics ((name, kind) ∷ fields) output = check_metric kind (get name output) >>= λ v.
      check_metrics fields output >>= λ vs. ok ((name, v) ∷ vs)

  module _ (digest : Table Metric → Bytes) where
    -- One section, from its entry in the request.
    unfoldable pub check_entry : Section → Json → Checked Reported
    check_entry s j = check_object entry_keys entry_keys j >>= λ given.
        check_locator (get (ascii "input_file") given) >>= λ input_file.
        check_locator (get (ascii "output_file") given) >>= λ output_file.
        check_evidence (get (ascii "evidence_kind") given) >>= λ evidence_kind.
        check_object (names (fields_of s)) [] (get (ascii "output") given) >>= λ output.
        check_metrics (fields_of s) output >>= λ values.
        check_section s values
        >> ok (
            reported_of s
              (record {
                module_name = module_of s;
                input_file = input_file;
                output_file = output_file;
                evidence_kind = evidence_kind;
                excerpt_sha256 = digest values;
              })
              values)

    unfoldable pub check_supplied : Section → Option Json → Checked Reported
    check_supplied s none =
        ok (reported_of s (no_source s) (map (λ e. (e.0, unmeasured)) (fields_of s)))
    check_supplied s (some j) = check_entry s j

    unfoldable pub check_sections : List Section → Table Json → Checked (List Reported)
    check_sections [] supplied = ok []
    check_sections (s ∷ ss) supplied = check_supplied s (find (section_key s) supplied) >>= λ r.
        check_sections ss supplied >>= λ rs. ok (r ∷ rs)

    -- The last argument is the length of the report's JSON in bytes.
    unfoldable pub build_report : (Report → ℕ) → Json → Checked Report
    build_report length_of j = check_object request_keys request_keys j >>= λ request.
        check_version (get (ascii "schema_version") request)
        >> (check_text 512 (get (ascii "title") request) >>= λ title.
            check_object (map section_key all_sections) [] (get (ascii "sections") request)
            >>= λ supplied. check_sections all_sections supplied >>= λ rs.
                let report : Report = record { title = title; sections = rs } in
                require (leb (length_of report) 65536) "report exceeds byte budget" >> ok report)
