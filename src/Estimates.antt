-- ===== src/Estimates.antt =====
-- src/pqc_bench/security_estimator.py and src/pqc_bench/quantum_cost/__init__.py: security levels and
-- quantum resources by name.
--
-- A text is the list of its characters' codes, and `lower` is that of Cbom. What the command aqre or
-- qualtran gives is an argument, and the parser of JSON a parameter.
-- Printing a summary and the command line are not modelled.
pub mod Security
pub mod Quantum
mod Examples
use post_quantum_cryptograph.Common.{
  ℕ, ◌+◌, String, Bool, true, false, not, ◌&&◌, ◌||◌, Option, none, some, List, [], ◌∷◌, ◌==◌,
  if◌then◌else◌,
}
use post_quantum_cryptograph.Common.Int.{ℤ, pos, ◌+ℤ◌, ◌-ℤ◌, leb_ℤ}
use post_quantum_cryptograph.Common.Bytes.{Bytes, ascii, bytes_eq, starts_with, has_text, split_on}
use post_quantum_cryptograph.Common.Table.{Table, find}
use post_quantum_cryptograph.Common.Checked.{Checked, ok, rejected, ◌>>=◌}
use post_quantum_cryptograph.Cbom.{lower}

pub record Level : Type 0 where
  pub security_bits : ℕ
  pub nist_category : Bytes

abbrev level : String → ℕ → String → Bytes × Level
level key bits category =
    (ascii key, record { security_bits = bits; nist_category = ascii category })

abbrev pub pqc_security_levels : Table Level
pqc_security_levels =
    level "ml-kem-512" 128 "cat1"
    ∷ level "ml-kem-768" 192 "cat3"
    ∷ level "ml-kem-1024" 256 "cat5"
    ∷ level "ml-dsa-44" 128 "cat1"
    ∷ level "ml-dsa-65" 192 "cat3"
    ∷ level "ml-dsa-87" 256 "cat5"
    ∷ level "slh-dsa-simple" 128 "cat1"
    ∷ level "slh-dsa-medium" 192 "cat3"
    ∷ level "slh-dsa-full" 256 "cat5"
    ∷ []

-- text.replace("-", "")
unfoldable pub without_hyphens : Bytes → Bytes
without_hyphens [] = []
without_hyphens (c ∷ cs) = if c == 45 then without_hyphens cs else c ∷ without_hyphens cs

-- One text starts with the other.
abbrev pub related : Bytes → Bytes → Bool
related s t = starts_with s t || starts_with t s

unfoldable pub any_part : Bytes → List Bytes → Bool
any_part name [] = false
any_part name (part ∷ parts) = related name part || any_part name parts

abbrev pub matches_key : Bytes → Bytes → Bool
matches_key name key =
    related name (without_hyphens key)
    || has_text (ascii "-") key && any_part name (split_on 45 key)

-- The loop over partial matches.
unfoldable pub partial_match : Bytes → Table Level → Option ℕ
partial_match name [] = none
partial_match name ((key, l) ∷ table) =
    if matches_key name key then some l.security_bits else partial_match name table

abbrev pub by_family : Bytes → ℕ
by_family name =
    if has_text (ascii "ml-kem") name || has_text (ascii "kem") name
    then (if has_text (ascii "1024") name
        then 256
        else if has_text (ascii "768") name
        then 192
        else if has_text (ascii "512") name
        then 128
        else 128)
    else if has_text (ascii "ml-dsa") name
    then (if has_text (ascii "87") name
        then 256
        else if has_text (ascii "65") name
        then 192
        else if has_text (ascii "44") name
        then 128
        else 128)
    else if has_text (ascii "slh-dsa") name
    then (if has_text (ascii "full") name
        then 256
        else if has_text (ascii "medium") name
        then 192
        else 128)
    else 128

abbrev pub or_family : Bytes → Option ℕ → ℕ
or_family name none = by_family name
or_family name (some bits) = bits

abbrev pub bits_or : Option Level → ℕ → ℕ
bits_or none other = other
bits_or (some l) other = l.security_bits

unfoldable pub estimate_security_bits : Bytes → ℕ
estimate_security_bits algorithm =
    let name = lower algorithm in
    let plain = without_hyphens name in
    bits_or (find name pqc_security_levels) (
      bits_or (find plain pqc_security_levels)
        (or_family name (partial_match plain pqc_security_levels)))

unfoldable pub category_without_hyphens : Bytes → Table Level → Option Bytes
category_without_hyphens plain [] = none
category_without_hyphens plain ((key, l) ∷ table) =
    if bytes_eq (without_hyphens key) plain
    then some l.nist_category
    else category_without_hyphens plain table

abbrev pub category_or : Option Level → Option Bytes → Option Bytes
category_or none other = other
category_or (some l) other = some l.nist_category

unfoldable pub get_nist_category : Bytes → Option Bytes
get_nist_category algorithm =
    let name = lower algorithm in
    category_or (find name pqc_security_levels)
      (category_without_hyphens (without_hyphens name) pqc_security_levels)

pub record Verification : Type 0 where
  pub algorithm : Bytes
  pub claimed_bits : ℤ
  pub estimated_bits : ℤ
  pub tolerance : ℤ
  pub lower_bound : ℤ
  pub upper_bound : ℤ
  -- Whether the status is "valid".
  pub is_valid : Bool

unfoldable pub verify_security_claim : Bytes → ℤ → ℤ → Verification
verify_security_claim algorithm claimed tolerance =
    let estimated = pos (estimate_security_bits algorithm) in
    record {
      algorithm = algorithm;
      claimed_bits = claimed;
      estimated_bits = estimated;
      tolerance = tolerance;
      lower_bound = estimated -ℤ tolerance;
      upper_bound = estimated +ℤ tolerance;
      is_valid = leb_ℤ (estimated -ℤ tolerance) claimed && leb_ℤ claimed (estimated +ℤ tolerance);
    }

pub record SecurityInfo : Type 0 where
  pub algorithm : Bytes
  pub security_bits : ℕ
  pub nist_category : Option Bytes
  pub verification : Verification

unfoldable pub get_security_info : Bytes → SecurityInfo
get_security_info algorithm =
    let estimated = estimate_security_bits algorithm in
    record {
      algorithm = algorithm;
      security_bits = estimated;
      nist_category = get_nist_category algorithm;
      verification = verify_security_claim algorithm (pos estimated) (pos 2);
    }

pub record Resources : Type 0 where
  pub n : ℕ
  pub q : ℕ
  pub logical_qubits : ℕ
  pub t_gate_count : ℕ
  pub t_depth : ℕ
  pub physical_qubits : ℕ
  pub surface_code_distance : ℕ
  pub runtime_seconds : ℕ
  pub description : String

abbrev resources : ℕ → ℕ → ℕ → ℕ → ℕ → ℕ → ℕ → String → Resources
resources n logical gates depth physical distance runtime description = record {
  n = n;
  q = 3329;
  logical_qubits = logical;
  t_gate_count = gates;
  t_depth = depth;
  physical_qubits = physical;
  surface_code_distance = distance;
  runtime_seconds = runtime;
  description = description;
}

abbrev pub ml_kem_quantum_resources : Table Resources
ml_kem_quantum_resources =
    (
      ascii "ml-kem-512",
      resources 256 2361 1707050 3414100 4740480 67 3600 "Kyber-512 quantum resource estimate",
    )
    ∷ (
      ascii "ml-kem-768",
      resources 512 4215 5474000 10948000 13459200 101 14400 "Kyber-768 quantum resource estimate",
    )
    ∷ (
      ascii "ml-kem-1024",
      resources 1024 7281 11536000 23072000 27852800 133 28800
          "Kyber-1024 quantum resource estimate",
    )
    ∷ []

unfoldable pub first_related : Bytes → Table Resources → Checked Resources
first_related name [] = rejected "Unknown ML-KEM scheme"
first_related name ((key, r) ∷ table) = if related name key then ok r else first_related name table

abbrev pub resources_or : Option Resources → Checked Resources → Checked Resources
resources_or none other = other
resources_or (some r) other = ok r

-- `get_ml_kem_resources`, which `estimate_quantum_resources` repeats with the name of the scheme.
unfoldable pub get_ml_kem_resources : Bytes → Checked Resources
get_ml_kem_resources scheme =
    let name = lower scheme in
    resources_or (find name ml_kem_quantum_resources) (first_related name ml_kem_quantum_resources)

-- subprocess.run(…): the two exceptions that are caught, any other one, as of a command that may not be
-- run or of an output that is no text, or the exit status and the output.
pub data Run : Type 0 where
  missing timed_out : Run
  failed : String → Run
  exited : ℕ → Bytes → Run

-- json.loads(…): a document, `JSONDecodeError`, or any other exception.
pub data Parsed : Type 0 where
  document : Bytes → Parsed
  not_json : Parsed
  unreadable : String → Parsed

-- An estimation: the document of a tool, or the internal estimate.
pub data Estimation : Type 0 where
  reported : Bytes → Estimation
  internal : Bytes → Resources → Estimation

unfoldable pub estimate_quantum_resources : Bytes → Checked Estimation
estimate_quantum_resources scheme = do r ← get_ml_kem_resources scheme; ok (internal scheme r)

abbrev pub parsed_or : Parsed → Checked Estimation → Checked Estimation
parsed_or (document d) other = ok (reported d)
parsed_or not_json other = other
parsed_or (unreadable message) other = rejected message

unfoldable pub run_aqre_estimation : (Bytes → Parsed) → Run → Bytes → Checked Estimation
run_aqre_estimation parse missing scheme = estimate_quantum_resources scheme
run_aqre_estimation parse timed_out scheme = estimate_quantum_resources scheme
run_aqre_estimation parse (failed message) scheme = rejected message
run_aqre_estimation parse (exited code stdout) scheme =
    if code == 0
    then parsed_or (parse stdout) (estimate_quantum_resources scheme)
    else estimate_quantum_resources scheme

unfoldable pub run_qualtran_estimation : Run → Bytes → Checked Estimation
run_qualtran_estimation missing scheme = estimate_quantum_resources scheme
run_qualtran_estimation timed_out scheme = estimate_quantum_resources scheme
run_qualtran_estimation (failed message) scheme = rejected message
run_qualtran_estimation (exited code stdout) scheme =
    if code == 0 then ok (reported stdout) else estimate_quantum_resources scheme
