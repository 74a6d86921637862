-- ===== src/Cbom/Status.antt =====
-- The statuses of the two evaluations (policy.py, lines 84 to 147 and 178 to 248).
use post_quantum_cryptograph.Common.{
  ℕ, ◌≤◌, ◌≡◌, ◌↔◌, refl, sym, Bool, true, false, not, ◌&&◌, ◌||◌, List, [], ◌∷◌, ◌++◌, ltb, length,
  arith,
}
use post_quantum_cryptograph.Common.Bytes.{Bytes, ascii}
use post_quantum_cryptograph.Cbom.{
  Bom, mem, found_in, detected_algorithms, required_ka, required_sig, legacy, transitional,
  recommended, OverallStatus, non_compliant, transitional_only, partial, compliant, Recommendation,
  not_empty, cnsa_of, evaluate_cnsa, cnsa_status, nist_status, recommend_if, add_key_agreement,
  add_signature, phase_out, nist_of, evaluate_nist,
}

-- What one set holds, the other holds.
abbrev pub Includes : List Bytes → List Bytes → Type 0
Includes d d' = (x : Bytes) → mem x d ≡ true → mem x d' ≡ true

found_in-le :
    (xs d d' : List Bytes) → Includes d d' → length (found_in xs d) ≤ length (found_in xs d')
unfolding found_in
found_in-le [] d d' h = omega arith
found_in-le (x ∷ xs) d d' h = ground (arith, found_in-le xs d d' h, h x)

-- The order of the statuses, from the worst.
abbrev pub rank : OverallStatus → ℕ
rank non_compliant = 0
rank transitional_only = 1
rank partial = 2
rank compliant = 3

cnsa_status-le :
    (a b a' b' : ℕ)
    → a ≤ a'
    → b ≤ b'
    → rank (cnsa_status (ltb 0 a) (ltb 0 b)) ≤ rank (cnsa_status (ltb 0 a') (ltb 0 b'))
cnsa_status-le a b a' b' h k = ground arith

nist_status-le :
    (a b a' b' : ℕ) → a ≤ a' → b ≤ b' → rank (nist_status a b) ≤ rank (nist_status a' b')
nist_status-le a b a' b' h k = ground arith

-- More algorithms never make either status worse: if every algorithm of one bill of materials is
-- detected in another, then both statuses of the other rank at least as high.
pub status-monotone :
    (level : Bytes) (bom bom' : Bom)
    → Includes (detected_algorithms bom) (detected_algorithms bom')
    → (rank (evaluate_cnsa level bom).overall_status
        ≤ rank (evaluate_cnsa level bom').overall_status)
      × (rank (evaluate_nist bom).overall_status ≤ rank (evaluate_nist bom').overall_status)
unfolding evaluate_cnsa evaluate_nist cnsa_of nist_of
status-monotone level bom bom' h =
    let le =
      λ (xs : List Bytes). found_in-le xs (detected_algorithms bom) (detected_algorithms bom') h in
    (
      cnsa_status-le _ _ _ _ (le required_ka) (le required_sig),
      nist_status-le _ _ _ _ (le recommended) (le transitional),
    )

found_in-two :
    (x y : Bytes) (d : List Bytes) → ltb 0 (length (found_in (x ∷ y ∷ []) d)) ≡ (mem x d || mem y d)
unfolding found_in
found_in-two x y d = ground arith

found_in-three :
    (x y z : Bytes) (d : List Bytes)
    → not_empty (found_in (x ∷ y ∷ z ∷ []) d) ≡ (mem x d || mem y d || mem z d)
unfolding found_in
found_in-three x y z d = ground arith

-- The recommendations of a CNSA evaluation.
abbrev advice : Bool → Bool → Bool → List Bytes → List Recommendation
advice ka sig old found =
    recommend_if (not ka) (add_key_agreement required_ka)
    ++ (recommend_if (not sig) (add_signature required_sig) ++ recommend_if old (phase_out found))

advice-nil :
    (ka sig old : Bool) (found : List Bytes)
    → (advice ka sig old found ≡ []) ↔ ((ka && sig && not old) ≡ true)
advice-nil true true true found = (λ h. cc, λ h. cc)
advice-nil true true false found = (λ h. refl, λ h. refl)
advice-nil true false old found = (λ h. cc, λ h. cc)
advice-nil false sig old found = (λ h. cc, λ h. cc)

cnsa_status-cases :
    (ka sig : Bool)
    → ((cnsa_status ka sig ≡ compliant) ↔ ((ka && sig) ≡ true))
      × ((cnsa_status ka sig ≡ non_compliant) ↔ ((ka || sig) ≡ false))
cnsa_status-cases true true = ((λ h. refl, λ h. refl), (λ h. cc, λ h. cc))
cnsa_status-cases true false = ((λ h. cc, λ h. cc), (λ h. cc, λ h. cc))
cnsa_status-cases false true = ((λ h. cc, λ h. cc), (λ h. cc, λ h. cc))
cnsa_status-cases false false = ((λ h. cc, λ h. cc), (λ h. refl, λ h. refl))

-- An evaluation by CNSA 2.0 is compliant exactly if one of the required algorithms for key agreement
-- is detected and one for signatures, and non-compliant exactly if none is; and it recommends
-- nothing exactly if it is compliant and no legacy algorithm is detected.
pub evaluate_cnsa_lem :
    (level : Bytes) (bom : Bom)
    → let d = detected_algorithms bom in
      let e = evaluate_cnsa level bom in
      let ka = mem (ascii "ml-kem-768") d || mem (ascii "ml-kem-1024") d in
      let sig = mem (ascii "ml-dsa-65") d || mem (ascii "ml-dsa-87") d in
      let old =
        mem (ascii "rsa-2048") d || mem (ascii "ecdsa-p256") d || mem (ascii "ecdsa-p384") d in
      ((e.overall_status ≡ compliant) ↔ ((ka && sig) ≡ true))
      × ((e.overall_status ≡ non_compliant) ↔ ((ka || sig) ≡ false))
      × ((e.recommendations ≡ []) ↔ ((ka && sig && not old) ≡ true))
unfolding evaluate_cnsa cnsa_of
evaluate_cnsa_lem level bom =
    let d = detected_algorithms bom in
    let ka = found_in-two (ascii "ml-kem-768") (ascii "ml-kem-1024") d in
    let sig = found_in-two (ascii "ml-dsa-65") (ascii "ml-dsa-87") d in
    let old = found_in-three (ascii "rsa-2048") (ascii "ecdsa-p256") (ascii "ecdsa-p384") d in
    let (good, bad) =
      cnsa_status-cases (ltb 0 (length (found_in required_ka d)))
        (ltb 0 (length (found_in required_sig d))) in
    let none_given =
      advice-nil (ltb 0 (length (found_in required_ka d)))
        (ltb 0 (length (found_in required_sig d))) (not_empty (found_in legacy d))
        (found_in legacy d) in
    rw (sym ka, sym sig, sym old) (good, bad, none_given)
