-- ===== src/Cbom/Detected.antt =====
-- Which algorithms are detected, and how they are sorted (policy.py, lines 170 to 215).
use post_quantum_cryptograph.Common.{
  ◌≡◌, refl, sym, ap, ◌∙◌, inl, inr, Bool, true, false, not, ◌&&◌, ◌||◌, List, [], ◌∷◌, ◌++◌,
  Bool-cases, if◌then◌else◌, arith,
}
use post_quantum_cryptograph.Common.Bytes.{Bytes, ascii, bytes_eq, bytes_eq_iff}
use post_quantum_cryptograph.Common.Sets.{mem-append}
use post_quantum_cryptograph.Cbom.{
  Property, Component, Bom, lower, mem, add, or_empty, is_algorithm, found_in, missing_in,
  detect_properties, detect_components, detected_algorithms, legacy, transitional, recommended,
  all_pqc, nist_of, evaluate_nist,
}

-- The values of all properties with the name algorithm, lowered.
abbrev property_names : List Property → List Bytes
property_names [] = []
property_names (p ∷ ps) =
    (if is_algorithm p.name then lower (or_empty p.value) ∷ [] else []) ++ property_names ps

abbrev pub component_names : List Component → List Bytes
component_names [] = []
component_names (c ∷ cs) = property_names c.properties ++ component_names cs

-- Equal texts are in the same sets.
mem-same : (x y : Bytes) (s : List Bytes) → bytes_eq x y ≡ true → mem x s ≡ mem y s
mem-same x y s h = ap (λ z. mem z s) ((bytes_eq_iff x y).0 h)

mem-add : (x y : Bytes) (s : List Bytes) → mem x (add y s) ≡ (mem x s || bytes_eq x y)
unfolding mem
mem-add x y s = ground (arith, mem-append x s (y ∷ []), mem-same x y s)

mem-detect_properties :
    (x : Bytes) (ps : List Property) (s : List Bytes)
    → mem x (detect_properties ps s) ≡ (mem x s || mem x (property_names ps))
unfolding detect_properties
mem-detect_properties x [] s = unfold mem in ground arith
mem-detect_properties x (p ∷ ps) s = elim (Bool-cases (is_algorithm p.name)) [
  | inl named ↦ rw named (
      mem-detect_properties x ps (add (lower (or_empty p.value)) s)
      ∙ ap (λ b. b || mem x (property_names ps)) (mem-add x (lower (or_empty p.value)) s)
      ∙ unfold mem in ground arith)
  | inr other ↦ rw other (mem-detect_properties x ps s)
]

mem-detect_components :
    (x : Bytes) (cs : List Component) (s : List Bytes)
    → mem x (detect_components cs s) ≡ (mem x s || mem x (component_names cs))
unfolding detect_components
mem-detect_components x [] s = unfold mem in ground arith
mem-detect_components x (c ∷ cs) s = ground (
  arith,
  mem-detect_components x cs (detect_properties c.properties s),
  mem-detect_properties x c.properties s,
  mem-append x (property_names c.properties) (component_names cs),
)

mem-found_in : (x : Bytes) (xs s : List Bytes) → mem x (found_in xs s) ≡ (mem x xs && mem x s)
unfolding mem found_in
mem-found_in x [] s = refl
mem-found_in x (y ∷ xs) s = ground (arith, mem-found_in x xs s, mem-same x y s)

mem-missing_in :
    (x : Bytes) (xs s : List Bytes) → mem x (missing_in xs s) ≡ (mem x xs && not (mem x s))
unfolding mem missing_in
mem-missing_in x [] s = refl
mem-missing_in x (y ∷ xs) s = ground (arith, mem-missing_in x xs s, mem-same x y s)

pub detected-component_names :
    (x : Bytes) (bom : Bom)
    → mem x (detected_algorithms bom) ≡ mem x (component_names bom.components)
unfolding detected_algorithms mem
detected-component_names x bom = mem-detect_components x bom.components []

-- The algorithms detected are the lowered values of all properties named algorithm; of them the
-- evaluation by SP 800-208 lists as legacy, transitional and recommended those of its table, as
-- missing the recommended ones that are not detected, and as unclassified those that are not in its
-- set of post-quantum names.
pub evaluate_nist-mem :
    (x : Bytes) (bom : Bom)
    → let e = evaluate_nist bom in
      let d = mem x (component_names bom.components) in
      (mem x (detected_algorithms bom) ≡ d)
      × (mem x e.legacy_algorithms ≡ (mem x legacy && d))
      × (mem x e.transitional_algorithms ≡ (mem x transitional && d))
      × (mem x e.recommended_algorithms ≡ (mem x recommended && d))
      × (mem x e.missing_recommended ≡ (mem x recommended && not d))
      × (mem x e.unclassified_algorithms ≡ (d && not (mem x all_pqc)))
unfolding evaluate_nist nist_of
evaluate_nist-mem x bom =
    let same = detected-component_names x bom in
    let s = detected_algorithms bom in
    (
      same,
      mem-found_in x legacy s ∙ ap (λ b. mem x legacy && b) same,
      mem-found_in x transitional s ∙ ap (λ b. mem x transitional && b) same,
      mem-found_in x recommended s ∙ ap (λ b. mem x recommended && b) same,
      mem-missing_in x recommended s ∙ ap (λ b. mem x recommended && not b) same,
      mem-missing_in x s all_pqc ∙ ap (λ b. b && not (mem x all_pqc)) same,
    )

legacy-all_pqc : (x : Bytes) → mem x legacy ≡ true → mem x all_pqc ≡ false
legacy-all_pqc x h = elim (Bool-cases (bytes_eq x (ascii "rsa-2048"))) [
  | inl a ↦ mem-same x (ascii "rsa-2048") all_pqc a ∙ outside.0
  | inr a ↦ elim (Bool-cases (bytes_eq x (ascii "ecdsa-p256"))) [
    | inl b ↦ mem-same x (ascii "ecdsa-p256") all_pqc b ∙ outside.1
    | inr b ↦ mem-same x (ascii "ecdsa-p384") all_pqc (third a b h) ∙ outside.2
  ]
]
  where
    outside :
        (mem (ascii "rsa-2048") all_pqc ≡ false)
        × (mem (ascii "ecdsa-p256") all_pqc ≡ false)
        × (mem (ascii "ecdsa-p384") all_pqc ≡ false)
    outside = unfold mem bytes_eq in (refl, refl, refl)

    third :
        bytes_eq x (ascii "rsa-2048") ≡ false
        → bytes_eq x (ascii "ecdsa-p256") ≡ false
        → mem x legacy ≡ true
        → bytes_eq x (ascii "ecdsa-p384") ≡ true
    third a b h = unfold mem in ground arith

-- Every algorithm that is listed as legacy is listed as unclassified too.
pub legacy-unclassified :
    (x : Bytes) (bom : Bom)
    → mem x (evaluate_nist bom).legacy_algorithms ≡ true
    → mem x (evaluate_nist bom).unclassified_algorithms ≡ true
legacy-unclassified x bom h =
    let (_, old, _, _, _, other) = evaluate_nist-mem x bom in
    let member = both (mem x legacy) (mem x (component_names bom.components)) (sym old ∙ h) in
    other ∙ rw (member.1, legacy-all_pqc x member.0) refl
  where
    both : (a b : Bool) → (a && b) ≡ true → (a ≡ true) × (b ≡ true)
    both a b h = ground arith
