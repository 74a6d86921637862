-- ===== src/Fips/Rows.antt =====
-- When a row has a gap (fips_evidence.py, lines 134 to 166).
use post_quantum_cryptograph.Common.{
  ◌≡◌, refl, sym, ap, ◌∙◌, String, Bool, true, false, not, ◌&&◌, ◌||◌, List, [], ◌∷◌, ltb,
  if◌then◌else◌, length, arith, Bool-cases, inl, inr,
}
use post_quantum_cryptograph.Common.Bytes.{Bytes, ascii, bytes_eq, bytes_eq_iff}
use post_quantum_cryptograph.Common.Sets.{mem, mem-sort_texts, mem-append}
use post_quantum_cryptograph.Fips.{
  Field, module_id, version, environment, certificate_reference, certificate_standard,
  certificate_status, security_policy_reference, approved_mode, services, is_target_field,
  Assertion, is_unset, Document, asserted,
}
use post_quantum_cryptograph.Fips.Matrix.{
  Evidence, evidence_of, is_unknown, usable_of, values_of, is_match, any_evidence, add_code,
  is_no_evidence, target_codes, is_word, certificate_codes, codes_of, row_of,
}
use post_quantum_cryptograph.Fips.Conflict.{
  some_document, any_usable, any_true, conflict, values_of-conflict, disagree, conflict-disagree,
}

or_false : (b : Bool) → b ≡ (b || false)
or_false true = refl
or_false false = refl

mem-add_code :
    (x : Bytes) (b : Bool) (code : String) (codes : List Bytes)
    → mem x (add_code b code codes) ≡ (mem x codes || b && bytes_eq x (ascii code))
mem-add_code x false code codes = or_false (mem x codes)
mem-add_code x true code codes = elim (Bool-cases (mem (ascii code) codes)) [
  | inl t ↦ rw t (there (bytes_eq x (ascii code)) refl t)
  | inr t ↦ rw (t, mem-append x codes (ascii code ∷ [])) (unfold mem in ground arith)
]
  where
    there :
        (b : Bool)
        → bytes_eq x (ascii code) ≡ b
        → mem (ascii code) codes ≡ true
        → mem x codes ≡ (mem x codes || b)
    there false e t = or_false (mem x codes)
    there true e t =
        let same : mem x codes ≡ true =
          ap (λ y. mem y codes) ((bytes_eq_iff x (ascii code)).0 e) ∙ t in
        rw same refl

abbrev pub is_standard : Field → Bool
is_standard certificate_standard = true
is_standard f = false

abbrev pub is_status : Field → Bool
is_status certificate_status = true
is_status f = false

-- The codes of the two fields with rules of their own.
abbrev certificate_code : Field → List Evidence → Bytes → Bool
certificate_code f es x =
    is_standard f
      && (any_evidence (λ v. not (is_word "FIPS 140-3" v)) es
          && bytes_eq x (ascii "wrong_standard"))
    || is_status f
      && (any_evidence (is_word "historical") es && bytes_eq x (ascii "certificate_historical")
          || any_evidence (is_word "revoked") es && bytes_eq x (ascii "certificate_revoked"))

mem-certificate_codes :
    (f : Field) (es : List Evidence) (codes : List Bytes) (x : Bytes)
    → mem x (certificate_codes f es codes) ≡ (mem x codes || certificate_code f es x)
mem-certificate_codes certificate_standard es codes x =
    mem-add_code x (any_evidence (λ v. not (is_word "FIPS 140-3" v)) es) "wrong_standard" codes
    ∙ ground arith
mem-certificate_codes certificate_status es codes x =
    mem-add_code x (any_evidence (is_word "revoked") es) "certificate_revoked"
      (add_code (any_evidence (is_word "historical") es) "certificate_historical" codes)
    ∙ ground (
      arith,
      mem-add_code x (any_evidence (is_word "historical") es) "certificate_historical" codes,
    )
mem-certificate_codes module_id es codes x = or_false (mem x codes)
mem-certificate_codes version es codes x = or_false (mem x codes)
mem-certificate_codes environment es codes x = or_false (mem x codes)
mem-certificate_codes certificate_reference es codes x = or_false (mem x codes)
mem-certificate_codes security_policy_reference es codes x = or_false (mem x codes)
mem-certificate_codes approved_mode es codes x = or_false (mem x codes)
mem-certificate_codes services es codes x = or_false (mem x codes)

-- The code of the comparison with the intended scope.
abbrev target_code : Field → Assertion → List Evidence → Bytes → Bool
target_code f desired es x =
    if is_unset desired || is_unknown desired
    then bytes_eq x (ascii "missing_target_scope")
    else any_evidence (λ v. not (is_match f desired v)) es
      && bytes_eq x (ascii "target_scope_mismatch")

mem-target_codes :
    (f : Field) (desired : Assertion) (es : List Evidence) (codes : List Bytes) (x : Bytes)
    → mem x (target_codes f desired es codes) ≡ (mem x codes || target_code f desired es x)
mem-target_codes f desired es codes x = elim (Bool-cases (is_unset desired || is_unknown desired)) [
  | inl t ↦ rw t (mem-add_code x true "missing_target_scope" codes)
  | inr t ↦ rw t (mem-add_code x _ "target_scope_mismatch" codes)
]

mem-codes_of :
    (f : Field) (target : List (Field × Assertion)) (es : List Evidence) (x : Bytes)
    → mem x (codes_of f target es) ≡ (
        is_no_evidence es && bytes_eq x (ascii "missing_evidence")
        || (conflict es && bytes_eq x (ascii "conflicting_evidence")
            || (is_target_field f && target_code f (asserted f target) es x
                || certificate_code f es x)))
unfolding codes_of mem
mem-codes_of f target es x =
    let desired = asserted f target in
    let missing = add_code (is_no_evidence es) "missing_evidence" [] in
    let many = ltb 1 (length (values_of es)) in
    let conflicts = add_code many "conflicting_evidence" missing in
    assembled _ _ _ _ _ _ _ _ (mem-add_code x (is_no_evidence es) "missing_evidence" [])
      (mem-add_code x many "conflicting_evidence" missing
        ∙ ap (λ b. mem x missing || b && bytes_eq x (ascii "conflicting_evidence"))
            (values_of-conflict es))
      (targets (is_target_field f) desired conflicts)
      (mem-certificate_codes f es
        (if is_target_field f then target_codes f desired es conflicts else conflicts) x)
  where
    targets :
        (b : Bool) (desired : Assertion) (codes : List Bytes)
        → mem x (if b then target_codes f desired es codes else codes)
          ≡ (mem x codes || b && target_code f desired es x)
    targets true desired codes = mem-target_codes f desired es codes x
    targets false desired codes = or_false (mem x codes)

    assembled :
        (m c t k m' c' t' all : Bool)
        → m' ≡ (false || m)
        → c' ≡ (m' || c)
        → t' ≡ (c' || t)
        → all ≡ (t' || k)
        → all ≡ (m || (c || (t || k)))
    assembled m c t k m' c' t' all e₁ e₂ e₃ e₄ = ground arith

-- The gaps of a row, whatever the target and the documents: evidence is missing exactly if no
-- document asserts a usable value of the field, and else the status is not_verified; it conflicts
-- exactly if two documents assert different ones; for a field of the target, the target's scope is
-- missing exactly if it is unset or unknown, and else does not match exactly if a document asserts
-- a usable value that does not match it; the standard is wrong exactly if a document asserts another
-- than FIPS 140-3, and the certificate historical or revoked exactly if a document asserts so.
pub row_of-gaps :
    (target : List (Field × Assertion)) (ds : List Document) (f : Field)
    → let row = row_of target ds f in
      let desired = asserted f target in
      let open_scope = is_unset desired || is_unknown desired in
      (row.is_verifiable ≡ some_document (λ v. true) f ds)
      × (mem (ascii "missing_evidence") row.gaps ≡ not (some_document (λ v. true) f ds))
      × (mem (ascii "conflicting_evidence") row.gaps ≡ disagree f ds)
      × (mem (ascii "missing_target_scope") row.gaps ≡ (is_target_field f && open_scope))
      × (mem (ascii "target_scope_mismatch") row.gaps ≡ (
          is_target_field f
          && (not open_scope && some_document (λ v. not (is_match f desired v)) f ds)))
      × (mem (ascii "wrong_standard") row.gaps
          ≡ (is_standard f && some_document (λ v. not (is_word "FIPS 140-3" v)) f ds))
      × (mem (ascii "certificate_historical") row.gaps
          ≡ (is_status f && some_document (is_word "historical") f ds))
      × (mem (ascii "certificate_revoked") row.gaps
          ≡ (is_status f && some_document (is_word "revoked") f ds))
unfolding row_of bytes_eq
row_of-gaps target ds f =
    let es = usable_of (evidence_of f ds) in
    let code =
      λ (x : Bytes). mem-sort_texts x (codes_of f target es) ∙ mem-codes_of f target es x in
    let seen = λ (test : Assertion → Bool). any_usable test f ds in
    let some_usable = sym (any_true es) ∙ seen (λ v. true) in
    let both = conflict-disagree f ds in
    let mismatch = seen (λ v. not (is_match f (asserted f target) v)) in
    let wrong = seen (λ v. not (is_word "FIPS 140-3" v)) in
    let historical = seen (is_word "historical") in
    let revoked = seen (is_word "revoked") in
    (
      some_usable,
      code (ascii "missing_evidence") ∙ ground (arith, some_usable),
      code (ascii "conflicting_evidence") ∙ ground (arith, both),
      code (ascii "missing_target_scope") ∙ ground arith,
      code (ascii "target_scope_mismatch") ∙ ground (arith, mismatch),
      code (ascii "wrong_standard") ∙ ground (arith, wrong),
      code (ascii "certificate_historical") ∙ ground (arith, historical),
      code (ascii "certificate_revoked") ∙ ground (arith, revoked),
    )
