-- ===== src/Cbom/Generator/Examples.antt =====
-- A directory with three files, one of which cannot be read.
use post_quantum_cryptograph.Common.{
  ◌≡◌, ◌↔◌, refl, true, false, ◌&&◌, ◌||◌, Option, none, some, List, [], ◌∷◌, map, String,
}
use post_quantum_cryptograph.Common.Bytes.{Bytes, ascii, bytes_eq, has_text, starts_with, less_text}
use post_quantum_cryptograph.Common.Sets.{insert_text}
use post_quantum_cryptograph.Common.Table.{find, put}
use post_quantum_cryptograph.Cbom.{
  mem, compliant, non_compliant, evaluate_cnsa, detected_algorithms,
}
use post_quantum_cryptograph.Cbom.Generator.{
  PyFile, hybrid_name, record_file, detect_kem, detect_levels, detect_dsa, record_levels,
  detect_slh, all_in, any_in, first_hybrid, title_from, detect_hybrids, detect_content,
  detect_files, detect_pqc_components,
}
use post_quantum_cryptograph.Cbom.Generator.Bill.{
  BomComponent, generate_cyclonedx_bom, to_policy, components_for, hybrid_keys, components_of,
}
use post_quantum_cryptograph.Cbom.Generator.Mentions.{
  slh_full, kem_768, kem_1024, dsa_65, dsa_87, any_mentions,
}
use post_quantum_cryptograph.Cbom.Generator.Policy.{generate-detected, scan-compliant}

abbrev file : String → Option Bytes → PyFile
file name text = record { ref = record { path = ascii name; relative = ascii name }; text = text }

abbrev files : List PyFile
files =
    file "a.py" (some (ascii "# hybrid ML-KEM-768 with ml-dsa-65"))
    ∷ file "b.py" none
    ∷ file "c.py" (some (ascii "SLH-DSA-Simple"))
    ∷ []

abbrev names : List BomComponent → List Bytes
names = map (λ c. c.name)

title : hybrid_name (ascii "ml-kem-768_ml-dsa-65") ≡ ascii "Ml-Kem-768 Ml-Dsa-65"
unfolding title_from
title = refl

bill_names :
    names (generate_cyclonedx_bom true files (ascii "n") (ascii "v") true (ascii "t")).components
    ≡ ascii "ML-KEM-768"
      ∷ ascii "ML-DSA-65"
      ∷ ascii "SLH-DSA-Simple"
      ∷ ascii "SLH-DSA-Medium"
      ∷ ascii "SLH-DSA-Full"
      ∷ ascii "Ml-Kem-768 Ml-Dsa-65"
      ∷ []
unfolding mem bytes_eq has_text starts_with less_text find put record_file detect_kem detect_levels
    detect_dsa record_levels detect_slh all_in any_in first_hybrid title_from detect_hybrids
    detect_content detect_files detect_pqc_components components_for insert_text hybrid_keys
    components_of generate_cyclonedx_bom
bill_names = refl

generate-detected_example :
    mem (ascii "slh-dsa-full") (
      detected_algorithms
        (to_policy (generate_cyclonedx_bom true files (ascii "n") (ascii "v") true (ascii "t"))))
    ≡ (true && any_mentions slh_full files)
generate-detected_example =
    generate-detected true files (ascii "n") (ascii "v") true (ascii "t") slh_full

scan-compliant_example :
    let e =
      evaluate_cnsa
        (ascii "tl_tls")
        (to_policy (generate_cyclonedx_bom true files (ascii "n") (ascii "v") true (ascii "t"))) in
    let ka = any_mentions kem_768 files || any_mentions kem_1024 files in
    let sig = any_mentions dsa_65 files || any_mentions dsa_87 files in
    ((e.overall_status ≡ compliant) ↔ ((ka && sig) ≡ true))
    × ((e.overall_status ≡ non_compliant) ↔ ((ka || sig) ≡ false))
scan-compliant_example =
    scan-compliant true files (ascii "n") (ascii "v") true (ascii "t") (ascii "tl_tls") refl
