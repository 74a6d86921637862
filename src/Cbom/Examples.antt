-- ===== src/Cbom/Examples.antt =====
-- The theorems about policy.py at concrete inputs.
use post_quantum_cryptograph.Common.{◌≡◌, refl, none, some, [], ◌∷◌, arith}
use post_quantum_cryptograph.Common.Bytes.{Bytes, ascii, bytes_eq}
use post_quantum_cryptograph.Cbom.{
  Component, Bom, mem, lower, detected_algorithms, detect_components, detect_properties,
}
use post_quantum_cryptograph.Cbom.Status.{Includes}

abbrev component : Bytes → Component
component value = record {
  properties =
      record { name = some (ascii "algorithm"); value = some value }
      ∷ record { name = some (ascii "bits"); value = none }
      ∷ [];
}

abbrev old_bom : Bom
old_bom = record { components = component (ascii "RSA-2048") ∷ []; timestamp = [] }

abbrev new_bom : Bom
new_bom = record {
  components = component (ascii "RSA-2048") ∷ component (ascii "ML-KEM-768") ∷ [];
  timestamp = [];
}

old_detected : detected_algorithms old_bom ≡ ascii "rsa-2048" ∷ []
unfolding detected_algorithms detect_components detect_properties mem bytes_eq
old_detected = refl

new_detected : detected_algorithms new_bom ≡ ascii "rsa-2048" ∷ ascii "ml-kem-768" ∷ []
unfolding detected_algorithms detect_components detect_properties mem bytes_eq
new_detected = refl

-- ML-KEM with the Kelvin sign.
kelvin : lower (77 ∷ 76 ∷ 45 ∷ 8490 ∷ 69 ∷ 77 ∷ []) ≡ ascii "ml-kem"
kelvin = refl

old-Includes-new : Includes (detected_algorithms old_bom) (detected_algorithms new_bom)
old-Includes-new x = rw (old_detected, new_detected) (λ h. unfold mem in ground arith)
