-- ===== src/Cbom.antt =====
-- src/pqc_bench/cbom/policy.py: a bill of materials against CNSA 2.0 and NIST SP 800-208.
--
-- The document that `json.load` returns is an argument, a key that is missing `none`. A text is the
-- list of its characters' codes. `lower` keeps the letters whose lower case is beyond ASCII: its
-- results are only compared with names of ASCII characters, so that these letters match nothing in
-- either case. A set is a list without duplicates, whose order means nothing. A recommendation holds
-- the names that the code joins into a sentence.
pub mod Status
pub mod Detected
pub mod Generator
mod Examples
use post_quantum_cryptograph.Common.{
  ℕ, ◌+◌, String, Bool, true, false, not, ◌&&◌, ◌||◌, Option, none, some, List, [], ◌∷◌, ◌++◌, ltb,
  ◌==◌, leb, if◌then◌else◌, length, map,
}
unfoldable pub use post_quantum_cryptograph.Common.Sets.{mem}
use post_quantum_cryptograph.Common.Bytes.{Bytes, ascii, bytes_eq}

-- `get("name")` and `get("value")` of a property; `get("properties", [])` of a component.
pub record Property : Type 0 where
  pub name : Option Bytes
  pub value : Option Bytes

pub record Component : Type 0 where
  pub properties : List Property

pub record Bom : Type 0 where
  pub components : List Component
  pub timestamp : Bytes

-- The letters whose lower case has a letter of ASCII: A to Z, the Kelvin sign, and the dotted I.
abbrev lower_letter : ℕ → Bytes
lower_letter c =
    if leb 65 c && leb c 90
    then (c + 32) ∷ []
    else if c == 8490
    then 107 ∷ []
    else if c == 304
    then 105 ∷ 775 ∷ []
    else c ∷ []

-- text.lower()
abbrev pub lower : Bytes → Bytes
lower [] = []
lower (c ∷ cs) = lower_letter c ++ lower cs

-- s.add(x)
abbrev pub add : Bytes → List Bytes → List Bytes
add x s = if mem x s then s else s ++ x ∷ []

-- The elements of a list that a set holds, or does not hold.
unfoldable pub found_in : List Bytes → List Bytes → List Bytes
found_in [] s = []
found_in (x ∷ xs) s = if mem x s then x ∷ found_in xs s else found_in xs s

unfoldable pub missing_in : List Bytes → List Bytes → List Bytes
missing_in [] s = []
missing_in (x ∷ xs) s = if mem x s then missing_in xs s else x ∷ missing_in xs s

abbrev pub or_empty : Option Bytes → Bytes
or_empty none = []
or_empty (some v) = v

abbrev pub is_algorithm : Option Bytes → Bool
is_algorithm none = false
is_algorithm (some n) = bytes_eq n (ascii "algorithm")

-- The two loops over the components and their properties.
unfoldable pub detect_properties : List Property → List Bytes → List Bytes
detect_properties [] s = s
detect_properties (p ∷ ps) s =
    detect_properties ps (if is_algorithm p.name then add (lower (or_empty p.value)) s else s)

unfoldable pub detect_components : List Component → List Bytes → List Bytes
detect_components [] s = s
detect_components (c ∷ cs) s = detect_components cs (detect_properties c.properties s)

unfoldable pub detected_algorithms : Bom → List Bytes
detected_algorithms bom = detect_components bom.components []

abbrev names : List String → List Bytes
names = map ascii

-- `CNSA_2_0_REQUIREMENTS["tl_tls"]`
abbrev pub required_ka : List Bytes
required_ka = names ("ml-kem-768" ∷ "ml-kem-1024" ∷ [])

abbrev pub required_sig : List Bytes
required_sig = names ("ml-dsa-65" ∷ "ml-dsa-87" ∷ [])

-- `NIST_SP_800_208`, and the legacy patterns of the CNSA evaluation.
abbrev pub legacy : List Bytes
legacy = names ("rsa-2048" ∷ "ecdsa-p256" ∷ "ecdsa-p384" ∷ [])

abbrev pub transitional : List Bytes
transitional = names ("ml-kem-512" ∷ "ml-dsa-44" ∷ "slh-dsa-simple" ∷ [])

abbrev pub recommended : List Bytes
recommended = names (
    "ml-kem-768" ∷ "ml-kem-1024" ∷ "ml-dsa-65" ∷ "ml-dsa-87" ∷ "slh-dsa-medium" ∷ "slh-dsa-full"
    ∷ [])

abbrev pub all_pqc : List Bytes
all_pqc = names (
    "ml-kem-512" ∷ "ml-kem-768" ∷ "ml-kem-1024" ∷ "ml-dsa-44" ∷ "ml-dsa-65" ∷ "ml-dsa-87"
    ∷ "slh-dsa-simple" ∷ "slh-dsa-medium" ∷ "slh-dsa-full" ∷ [])

pub data OverallStatus : Type 0 where
  non_compliant transitional_only partial compliant : OverallStatus

pub data Recommendation : Type 0 where
  add_key_agreement add_signature phase_out add_recommended phase_out_legacy :
      List Bytes → Recommendation
  none_recognized : Recommendation

pub record Compliance : Type 0 where
  pub cnsa_level : Bytes
  pub timestamp : Bytes
  pub overall_status : OverallStatus
  pub ka_compliant : Bool
  pub signature_compliant : Bool
  pub missing_ka : List Bytes
  pub missing_signature : List Bytes
  pub recommendations : List Recommendation

abbrev pub not_empty : List Bytes → Bool
not_empty [] = false
not_empty (x ∷ xs) = true

abbrev pub recommend_if : Bool → Recommendation → List Recommendation
recommend_if true r = r ∷ []
recommend_if false r = []

abbrev pub cnsa_status : Bool → Bool → OverallStatus
cnsa_status ka sig = if ka && sig then compliant else if ka || sig then partial else non_compliant

-- The body of `evaluate_cnsA_2_0_compliance` from the detected algorithms on.
unfoldable pub cnsa_of : Bytes → Bytes → List Bytes → Compliance
cnsa_of level timestamp detected =
    let ka = ltb 0 (length (found_in required_ka detected)) in
    let sig = ltb 0 (length (found_in required_sig detected)) in
    let found_legacy = found_in legacy detected in
    record {
      cnsa_level = level;
      timestamp = timestamp;
      overall_status = cnsa_status ka sig;
      ka_compliant = ka;
      signature_compliant = sig;
      missing_ka = missing_in required_ka detected;
      missing_signature = missing_in required_sig detected;
      recommendations =
          recommend_if (not ka) (add_key_agreement required_ka)
          ++ (recommend_if (not sig) (add_signature required_sig)
              ++ recommend_if (not_empty found_legacy) (phase_out found_legacy));
    }

unfoldable pub evaluate_cnsa : Bytes → Bom → Compliance
evaluate_cnsa level bom = cnsa_of level bom.timestamp (detected_algorithms bom)

pub record Evaluation : Type 0 where
  pub overall_status : OverallStatus
  pub legacy_algorithms : List Bytes
  pub transitional_algorithms : List Bytes
  pub recommended_algorithms : List Bytes
  pub missing_recommended : List Bytes
  pub unclassified_algorithms : List Bytes
  pub recommendations : List Recommendation

abbrev pub nist_status : ℕ → ℕ → OverallStatus
nist_status recommended_count transitional_count =
    if leb 3 recommended_count
    then compliant
    else if leb 1 recommended_count
    then partial
    else if ltb 0 transitional_count
    then transitional_only
    else non_compliant

-- The body of `evaluate_nist_sp_800_208` from the detected algorithms on.
unfoldable pub nist_of : List Bytes → Evaluation
nist_of detected =
    let found_legacy = found_in legacy detected in
    let found_transitional = found_in transitional detected in
    let found_recommended = found_in recommended detected in
    let missing = missing_in recommended detected in
    record {
      overall_status = nist_status (length found_recommended) (length found_transitional);
      legacy_algorithms = found_legacy;
      transitional_algorithms = found_transitional;
      recommended_algorithms = found_recommended;
      missing_recommended = missing;
      unclassified_algorithms = missing_in detected all_pqc;
      recommendations =
          recommend_if (not_empty missing) (add_recommended missing)
          ++ (recommend_if (not_empty found_legacy) (phase_out_legacy found_legacy)
              ++ recommend_if (not (not_empty found_recommended) && not (not_empty found_legacy))
                  none_recognized);
    }

unfoldable pub evaluate_nist : Bom → Evaluation
evaluate_nist bom = nist_of (detected_algorithms bom)
