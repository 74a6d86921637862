-- ===== src/Cbom/Generator/Bill.antt =====
-- The bill of what was detected (generator.py, lines 210 to 325), and what the policy reads of it.
use post_quantum_cryptograph.Common.{
  String, Bool, Option, none, some, List, [], ◌∷◌, ◌++◌, map, if◌then◌else◌,
}
use post_quantum_cryptograph.Common.Bytes.{Bytes, ascii}
use post_quantum_cryptograph.Common.Sets.{insert_text}
use post_quantum_cryptograph.Common.Table.{find}
use post_quantum_cryptograph.Cbom.{Property, Bom, mem}
use post_quantum_cryptograph.Cbom.Generator.{
  FileRef, PyFile, Detection, Detected, detect_pqc_components,
}

-- A component of the bill; one without `components` has no files.
pub record BomComponent : Type 0 where
  pub name : Bytes
  pub version : Bytes
  pub properties : List Property
  pub files : List FileRef

abbrev pub property : String → Option Bytes → Property
property name value = record { name = some (ascii name); value = value }

abbrev pub algorithm_component : Bytes → Detection → BomComponent
algorithm_component version e = record {
  name = e.name;
  version = version;
  properties =
      property "algorithm" (some e.name)
      ∷ property "nist_reference" e.nist_ref
      ∷ property "family" (some e.family)
      ∷ [];
  files = e.files;
}

abbrev pub hybrid_component : Bytes → Detection → BomComponent
hybrid_component version e = record {
  name = e.name;
  version = version;
  properties = property "algorithm" (some e.name) ∷ property "family" (some e.family) ∷ [];
  files = e.files;
}

abbrev pub algo_order : List Bytes
algo_order =
    ascii "ml-kem-512"
    ∷ ascii "ml-kem-768"
    ∷ ascii "ml-kem-1024"
    ∷ ascii "ml-dsa-44"
    ∷ ascii "ml-dsa-65"
    ∷ ascii "ml-dsa-87"
    ∷ ascii "slh-dsa-simple"
    ∷ ascii "slh-dsa-medium"
    ∷ ascii "slh-dsa-full"
    ∷ []

-- The components for those of the keys that were detected.
abbrev pub add_component :
    (Detection → BomComponent) → Option Detection → List BomComponent → List BomComponent
add_component make none rest = rest
add_component make (some e) rest = make e ∷ rest

unfoldable pub components_for :
    (Detection → BomComponent) → List Bytes → Detected → List BomComponent
components_for make [] d = []
components_for make (key ∷ keys) d = add_component make (find key d) (components_for make keys d)

-- sorted(k for k in detected if k not in algo_order)
unfoldable pub hybrid_keys : Detected → List Bytes
hybrid_keys [] = []
hybrid_keys ((key, e) ∷ d) =
    if mem key algo_order then hybrid_keys d else insert_text key (hybrid_keys d)

abbrev pub placeholder : Bytes → BomComponent
placeholder version = record {
  name = ascii "No PQC components detected";
  version = version;
  properties =
      property "note" (some (ascii "No recognized PQC algorithms found in scan path")) ∷ [];
  files = [];
}

abbrev pub or_placeholder : Bytes → List BomComponent → List BomComponent
or_placeholder version [] = placeholder version ∷ []
or_placeholder version (c ∷ cs) = c ∷ cs

pub record GeneratedBom : Type 0 where
  pub timestamp : Bytes
  pub components : List BomComponent
  pub component_name : Bytes
  pub component_version : Bytes

unfoldable pub components_of : Bytes → Bool → Detected → List BomComponent
components_of version include d =
    components_for (algorithm_component version) algo_order d
    ++ (if include then components_for (hybrid_component version) (hybrid_keys d) d else [])

unfoldable pub generate_cyclonedx_bom :
    Bool → List PyFile → Bytes → Bytes → Bool → Bytes → GeneratedBom
generate_cyclonedx_bom exists files component_name component_version include timestamp =
    let detected = detect_pqc_components exists files include in
    record {
      timestamp = timestamp;
      components =
          or_placeholder component_version (components_of component_version include detected);
      component_name = component_name;
      component_version = component_version;
    }

-- What `json.load` gives the policy of a bill that was written.
abbrev pub to_policy : GeneratedBom → Bom
to_policy bom = record {
  components = map (λ c. record { properties = c.properties }) bom.components;
  timestamp = bom.timestamp;
}
