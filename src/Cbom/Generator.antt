-- ===== src/Cbom/Generator.antt =====
-- src/pqc_bench/cbom/generator.py: the bill of materials of a directory.
--
-- The walk of the directory is an argument: whether it exists, and its Python files in order, each
-- with its text or `none` where reading it raises. A text is the list of its characters' codes, as
-- in Cbom. Descriptions and the constant entries of the bill are left out.
-- Writing the bill to a file and printing its summary is I/O.
pub mod Bill
pub mod Mentions
pub mod Scan
pub mod Names
pub mod Components
pub mod Policy
mod Examples
use post_quantum_cryptograph.Common.{
  ℕ, ◌+◌, ◌-◌, String, Bool, true, false, not, ◌&&◌, ◌||◌, Option, none, some, List, [], ◌∷◌, ◌++◌,
  map, leb, ◌==◌, if◌then◌else◌,
}
use post_quantum_cryptograph.Common.Bytes.{Bytes, ascii, bytes_eq, less_text, has_text}
use post_quantum_cryptograph.Common.Table.{Table, find, put, has}
use post_quantum_cryptograph.Cbom.{Property, Component, Bom, lower, mem}

-- An entry of `PQC_ALGORITHMS`.
pub record Algorithm : Type 0 where
  pub name : Bytes
  pub asset_type : Bytes
  pub family : Bytes
  pub nist_ref : Bytes

abbrev algorithm : String → String → String → String → Algorithm
algorithm name asset_type family nist_ref = record {
  name = ascii name;
  asset_type = ascii asset_type;
  family = ascii family;
  nist_ref = ascii nist_ref;
}

abbrev pub pqc_algorithms : Table Algorithm
pqc_algorithms =
    (ascii "ml-kem-512", algorithm "ML-KEM-512" "pkc" "kem" "FIPS-203")
    ∷ (ascii "ml-kem-768", algorithm "ML-KEM-768" "pkc" "kem" "FIPS-203")
    ∷ (ascii "ml-kem-1024", algorithm "ML-KEM-1024" "pkc" "kem" "FIPS-203")
    ∷ (ascii "ml-dsa-44", algorithm "ML-DSA-44" "pkc" "dsa" "FIPS-204")
    ∷ (ascii "ml-dsa-65", algorithm "ML-DSA-65" "pkc" "dsa" "FIPS-204")
    ∷ (ascii "ml-dsa-87", algorithm "ML-DSA-87" "pkc" "dsa" "FIPS-204")
    ∷ (ascii "slh-dsa-simple", algorithm "SLH-DSA-Simple" "pqc" "hashbased" "FIPS-205")
    ∷ (ascii "slh-dsa-medium", algorithm "SLH-DSA-Medium" "pqc" "hashbased" "FIPS-205")
    ∷ (ascii "slh-dsa-full", algorithm "SLH-DSA-Full" "pqc" "hashbased" "FIPS-205")
    ∷ []

pub record FileRef : Type 0 where
  pub path : Bytes
  pub relative : Bytes

pub record PyFile : Type 0 where
  pub ref : FileRef
  pub text : Option Bytes

-- A value of `detected`; a hybrid has no reference.
pub record Detection : Type 0 where
  pub name : Bytes
  pub asset_type : Bytes
  pub family : Bytes
  pub nist_ref : Option Bytes
  pub files : List FileRef

abbrev pub Detected : Type 0
Detected = Table Detection

abbrev pub new_detection : Algorithm → Detection
new_detection a = record {
  name = a.name;
  asset_type = a.asset_type;
  family = a.family;
  nist_ref = some a.nist_ref;
  files = [];
}

abbrev pub with_file : FileRef → Detection → Detection
with_file f e = record e { files = e.files ++ f ∷ [] }

abbrev pub or_new : Algorithm → Option Detection → Detection
or_new a none = new_detection a
or_new a (some e) = e

-- if key not in detected: detected[key] = {…}; detected[key]["files"].append(file)
unfoldable pub record_file : Bytes → Algorithm → FileRef → Detected → Detected
record_file key a f d = put key (with_file f (or_new a (find key d))) d

-- The same for `PQC_ALGORITHMS[key]`, which the table has for each key that the loops form.
abbrev pub record_known : Bytes → FileRef → Detected → Detected
record_known key f d = elim (find key pqc_algorithms) [ none ↦ d | some a ↦ record_file key a f d ]

-- The three loops over one file's content, which is lowered.
unfoldable pub detect_kem : Table Algorithm → Bytes → FileRef → Detected → Detected
detect_kem [] content f d = d
detect_kem ((key, a) ∷ table) content f d =
    detect_kem table content f
      (if bytes_eq a.family (ascii "kem") && has_text key content then record_file key a f d else d)

abbrev pub dsa_levels : List Bytes
dsa_levels = ascii "44" ∷ ascii "65" ∷ ascii "87" ∷ []

unfoldable pub detect_levels : List Bytes → Bytes → FileRef → Detected → Detected
detect_levels [] content f d = d
detect_levels (level ∷ levels) content f d =
    let key = ascii "ml-dsa-" ++ level in
    detect_levels levels content f (
      if has_text key content || has_text (ascii "mldsa-" ++ level) content
      then record_known key f d
      else d)

unfoldable pub detect_dsa : Bytes → FileRef → Detected → Detected
detect_dsa content f d =
    if has_text (ascii "ml-dsa") content || has_text (ascii "mldsa") content
    then detect_levels dsa_levels content f d
    else d

abbrev pub slh_levels : List Bytes
slh_levels = ascii "simple" ∷ ascii "medium" ∷ ascii "full" ∷ []

unfoldable pub record_levels : List Bytes → FileRef → Detected → Detected
record_levels [] f d = d
record_levels (level ∷ levels) f d =
    record_levels levels f (record_known (ascii "slh-dsa-" ++ level) f d)

unfoldable pub detect_slh : Bytes → FileRef → Detected → Detected
detect_slh content f d =
    if has_text (ascii "slh-dsa") content || has_text (ascii "slhdsa") content
    then record_levels slh_levels f d
    else d

-- `_detect_hybrid`: the first combination whose terms all occur.
abbrev pair : String → String → String → Bytes × List Bytes
pair key a b = (ascii key, ascii a ∷ ascii b ∷ [])

abbrev pub hybrids : Table (List Bytes)
hybrids =
    pair "ml-kem-768_ml-dsa-65" "ml-kem-768" "ml-dsa-65"
    ∷ pair "ml-kem-512_ml-dsa-44" "ml-kem-512" "ml-dsa-44"
    ∷ pair "ml-kem-1024_ml-dsa-87" "ml-kem-1024" "ml-dsa-87"
    ∷ pair "ml-dsa-65_slh-dsa-simple" "ml-dsa-65" "slh-dsa-simple"
    ∷ pair "ml-kem-768_slh-dsa-medium" "ml-kem-768" "slh-dsa-medium"
    ∷ []

unfoldable pub all_in : List Bytes → Bytes → Bool
all_in [] content = true
all_in (term ∷ terms) content = has_text term content && all_in terms content

unfoldable pub any_in : List Bytes → Bytes → Bool
any_in [] content = false
any_in (term ∷ terms) content = has_text term content || any_in terms content

unfoldable pub first_hybrid : Table (List Bytes) → Bytes → Option Bytes
first_hybrid [] content = none
first_hybrid ((key, terms) ∷ table) content =
    if all_in terms content then some key else first_hybrid table content

abbrev pub detect_hybrid : Bytes → Option Bytes
detect_hybrid content = first_hybrid hybrids content

-- `key.replace("_", " ")`
abbrev pub spaced : Bytes → Bytes
spaced = map (λ c. if c == 95 then 32 else c)

abbrev is_lower : ℕ → Bool
is_lower c = leb 97 c && leb c 122

abbrev is_upper : ℕ → Bool
is_upper c = leb 65 c && leb c 90

abbrev cased : Bool → ℕ → ℕ
cased inside c =
    if inside then (if is_upper c then c + 32 else c) else (if is_lower c then c - 32 else c)

-- `str.title`: a letter is a capital unless it follows a letter.
unfoldable pub title_from : Bool → Bytes → Bytes
title_from inside [] = []
title_from inside (c ∷ cs) = cased inside c ∷ title_from (is_lower c || is_upper c) cs

abbrev pub hybrid_name : Bytes → Bytes
hybrid_name key = title_from false (spaced key)

abbrev pub new_hybrid : Bytes → FileRef → Detection
new_hybrid key f = record {
  name = hybrid_name key;
  asset_type = ascii "pqc";
  family = ascii "hybrid";
  nist_ref = none;
  files = f ∷ [];
}

abbrev pub record_hybrid : Option Bytes → FileRef → Detected → Detected
record_hybrid none f d = d
record_hybrid (some key) f d = if has key d then d else put key (new_hybrid key f) d

abbrev pub hybrid_terms : List Bytes
hybrid_terms = ascii "hybrid" ∷ ascii "combined" ∷ ascii "parallel" ∷ ascii "dual" ∷ []

unfoldable pub detect_hybrids : Bool → Bytes → FileRef → Detected → Detected
detect_hybrids include content f d =
    if include && any_in hybrid_terms content then record_hybrid (detect_hybrid content) f d else d

-- One file, in the order of the code.
unfoldable pub detect_content : Bool → Bytes → FileRef → Detected → Detected
detect_content include content f d =
    detect_hybrids include content f
      (detect_slh content f (detect_dsa content f (detect_kem pqc_algorithms content f d)))

unfoldable pub detect_files : Bool → List PyFile → Detected → Detected
detect_files include [] d = d
detect_files include (p ∷ ps) d =
    detect_files include ps
      (elim p.text [ none ↦ d | some text ↦ detect_content include (lower text) p.ref d ])

unfoldable pub detect_pqc_components : Bool → List PyFile → Bool → Detected
detect_pqc_components exists files include = if exists then detect_files include files [] else []
