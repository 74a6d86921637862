-- ===== src/Cbom/Generator/Policy.antt =====
-- A generated bill under the policy (generator.py, lines 210 to 325; policy.py, lines 53 to 147).
use post_quantum_cryptograph.Common.{◌≡◌, ◌↔◌, refl, sym, ◌∙◌, Bool, true, false, ◌&&◌, ◌||◌, List}
use post_quantum_cryptograph.Common.Bytes.{Bytes, bytes_eq}
use post_quantum_cryptograph.Cbom.{
  compliant, non_compliant, mem, evaluate_cnsa, detected_algorithms,
}
use post_quantum_cryptograph.Cbom.Status.{evaluate_cnsa_lem}
use post_quantum_cryptograph.Cbom.Detected.{detected-component_names}
use post_quantum_cryptograph.Cbom.Generator.{PyFile, detect_pqc_components}
use post_quantum_cryptograph.Cbom.Generator.Bill.{algo_order, generate_cyclonedx_bom, to_policy}
use post_quantum_cryptograph.Cbom.Generator.Mentions.{
  Asset, kem_512, kem_768, kem_1024, dsa_44, dsa_65, dsa_87, slh_simple, slh_medium, slh_full,
  key_of, any_mentions,
}
use post_quantum_cryptograph.Cbom.Generator.Scan.{has-detect_pqc_components}
use post_quantum_cryptograph.Cbom.Generator.Names.{detect_pqc_components-IsNamed}
use post_quantum_cryptograph.Cbom.Generator.Components.{components_of-mem}

in_order : (a : Asset) → mem (key_of a) algo_order ≡ true
unfolding mem bytes_eq
in_order kem_512 = refl
in_order kem_768 = refl
in_order kem_1024 = refl
in_order dsa_44 = refl
in_order dsa_65 = refl
in_order dsa_87 = refl
in_order slh_simple = refl
in_order slh_medium = refl
in_order slh_full = refl

module _ (exists : Bool) (files : List PyFile) (name version : Bytes) (include : Bool)
    (timestamp : Bytes) where
  -- The policy detects an algorithm of the generator's table in a generated bill exactly if the
  -- directory exists and holds a Python file that can be read and mentions the algorithm: ML-KEM by
  -- its parameter set; ML-DSA by its set after ml-dsa- or mldsa-; each of the three variants of
  -- SLH-DSA by any mention of slh-dsa or slhdsa.
  pub generate-detected :
      (a : Asset)
      → mem (key_of a) (
          detected_algorithms
            (to_policy (generate_cyclonedx_bom exists files name version include timestamp)))
        ≡ (exists && any_mentions a files)
  unfolding generate_cyclonedx_bom
  generate-detected a =
      let d = detect_pqc_components exists files include in
      let bom = to_policy (generate_cyclonedx_bom exists files name version include timestamp) in
      detected-component_names (key_of a) bom
      ∙ components_of-mem version (key_of a) include d (in_order a)
          (detect_pqc_components-IsNamed exists files include)
      ∙ has-detect_pqc_components exists files include a

  -- The bill of a directory that exists is compliant with CNSA 2.0 exactly if its Python files that
  -- can be read mention ML-KEM-768 or ML-KEM-1024, and ML-DSA-65 or ML-DSA-87; and non-compliant
  -- exactly if they mention none of these.
  pub scan-compliant :
      (level : Bytes)
      → exists ≡ true
      → let e =
          evaluate_cnsa level
            (to_policy (generate_cyclonedx_bom exists files name version include timestamp)) in
        let ka = any_mentions kem_768 files || any_mentions kem_1024 files in
        let sig = any_mentions dsa_65 files || any_mentions dsa_87 files in
        ((e.overall_status ≡ compliant) ↔ ((ka && sig) ≡ true))
        × ((e.overall_status ≡ non_compliant) ↔ ((ka || sig) ≡ false))
  scan-compliant level there =
      let bom = to_policy (generate_cyclonedx_bom exists files name version include timestamp) in
      let (good, bad, advice) = evaluate_cnsa_lem level bom in
      let seen : (a : Asset) → any_mentions a files ≡ mem (key_of a) (detected_algorithms bom) =
        λ a. sym (generate-detected a ∙ rw there refl) in
      rw (seen kem_768, seen kem_1024, seen dsa_65, seen dsa_87) (good, bad)
