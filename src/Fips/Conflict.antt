-- ===== src/Fips/Conflict.antt =====
-- The evidence of a row, and when it conflicts (fips_evidence.py, lines 135 to 144).
use post_quantum_cryptograph.Common.{
  ℕ, suc, ◌≤◌, ◌≡◌, ◌↔◌, refl, sym, ap, ◌∙◌, Bool, true, false, not, ◌&&◌, ◌||◌, List, [], ◌∷◌, ltb,
  length, arith, Bool-cases, inl, inr,
}
use post_quantum_cryptograph.Common.Bytes.{Bytes, bytes_eq_iff}
use post_quantum_cryptograph.Fips.{
  Field, Assertion, unset, word, scope, is_unset, Document, asserted,
}
use post_quantum_cryptograph.Fips.Matrix.{
  same_texts, same_value, Evidence, evidence_of, is_unknown, usable_of, value_in, values_of,
  any_evidence, is_no_evidence,
}

-- Some document asserts a usable value of the field that passes the test.
abbrev pub some_document : (Assertion → Bool) → Field → List Document → Bool
some_document test f [] = false
some_document test f (d ∷ ds) =
    let a = asserted f d.values in
    not (is_unset a) && not (is_unknown a) && test a || some_document test f ds

same_texts_iff : (xs ys : List Bytes) → (same_texts xs ys ≡ true) ↔ (xs ≡ ys)
unfolding same_texts
same_texts_iff [] [] = (λ h. refl, λ h. refl)
same_texts_iff [] (y ∷ ys) = (λ h. cc, λ h. cc)
same_texts_iff (x ∷ xs) [] = (λ h. cc, λ h. cc)
same_texts_iff (x ∷ xs) (y ∷ ys) = ground (arith, bytes_eq_iff x y, same_texts_iff xs ys)

same_value_iff : (a b : Assertion) → (same_value a b ≡ true) ↔ (a ≡ b)
same_value_iff unset unset = (λ h. refl, λ h. refl)
same_value_iff unset (word y) = (λ h. cc, λ h. cc)
same_value_iff unset (scope ys) = (λ h. cc, λ h. cc)
same_value_iff (word x) unset = (λ h. cc, λ h. cc)
same_value_iff (word x) (word y) = ground (arith, bytes_eq_iff x y)
same_value_iff (word x) (scope ys) = (λ h. cc, λ h. cc)
same_value_iff (scope xs) unset = (λ h. cc, λ h. cc)
same_value_iff (scope xs) (word y) = (λ h. cc, λ h. cc)
same_value_iff (scope xs) (scope ys) = ground (arith, same_texts_iff xs ys)

pub any_usable :
    (test : Assertion → Bool) (f : Field) (ds : List Document)
    → any_evidence test (usable_of (evidence_of f ds)) ≡ some_document test f ds
unfolding any_evidence usable_of evidence_of
any_usable test f [] = refl
any_usable test f (d ∷ ds) = ground (arith, any_usable test f ds)

pub any_true : (es : List Evidence) → any_evidence (λ v. true) es ≡ not (is_no_evidence es)
unfolding any_evidence
any_true [] = refl
any_true (e ∷ es) = refl

any-or :
    (p q : Assertion → Bool) (es : List Evidence)
    → any_evidence (λ v. p v || q v) es ≡ (any_evidence p es || any_evidence q es)
unfolding any_evidence
any-or p q [] = refl
any-or p q (e ∷ es) = ground (arith, any-or p q es)

any_intro :
    (test : Assertion → Bool) (a : Assertion) (es : List Evidence)
    → any_evidence (same_value a) es ≡ true
    → test a ≡ true
    → any_evidence test es ≡ true
unfolding any_evidence
any_intro test a [] h t = cc
any_intro test a (e ∷ es) h t = elim (Bool-cases (same_value a e.value)) [
  | inl s ↦
      let same = (same_value_iff a e.value).0 s in
      let here : test e.value ≡ true = ap test (sym same) ∙ t in rw here refl
  | inr n ↦ rw (any_intro test a es (rw n at h) t) (or_true (test e.value))
]
  where
    or_true : (b : Bool) → (b || true) ≡ true
    or_true true = refl
    or_true false = refl

value_in-values_of :
    (a : Assertion) (es : List Evidence)
    → value_in a (values_of es) ≡ any_evidence (same_value a) es
unfolding value_in values_of any_evidence
value_in-values_of a [] = refl
value_in-values_of a (e ∷ es) =
    ground (arith, value_in-values_of a es, value_in-values_of e.value es, same_value_iff a e.value)

abbrev differ : Assertion → List Evidence → Bool
differ v es = any_evidence (λ w. not (same_value v w)) es

abbrev pub conflict : List Evidence → Bool
conflict es = any_evidence (λ v. differ v es) es

differ_sym :
    (a : Assertion) (es : List Evidence) → any_evidence (λ v. not (same_value v a)) es ≡ differ a es
unfolding any_evidence
differ_sym a [] = refl
differ_sym a (e ∷ es) =
    ground (arith, differ_sym a es, same_value_iff a e.value, same_value_iff e.value a)

conflict_cons :
    (e : Evidence) (es : List Evidence) → conflict (e ∷ es) ≡ (differ e.value es || conflict es)
unfolding any_evidence
conflict_cons e es =
    let own = (same_value_iff e.value e.value).1 refl in
    let split = any-or (λ v. not (same_value v e.value)) (λ v. differ v es) es in
    rw (own, split, differ_sym e.value es) (joined (differ e.value es) (conflict es))
  where
    joined : (p q : Bool) → (p || (p || q)) ≡ (p || q)
    joined true q = refl
    joined false q = refl

value_in-length : (a : Assertion) (s : List Assertion) → value_in a s ≡ true → 1 ≤ length s
unfolding value_in
value_in-length a [] h = cc
value_in-length a (b ∷ s) h = omega arith

values_of-nil :
    (a : Assertion) (es : List Evidence)
    → any_evidence (same_value a) es ≡ false
    → ltb 0 (length (values_of es)) ≡ differ a es
unfolding any_evidence values_of
values_of-nil a [] h = refl
values_of-nil a (e ∷ es) h = ground (arith, value_in-length e.value (values_of es))

no_conflict :
    (a : Assertion) (es : List Evidence)
    → any_evidence (same_value a) es ≡ false
    → differ a es ≡ false
    → conflict es ≡ false
unfolding any_evidence
no_conflict a [] h g = refl
no_conflict a (e ∷ es) h g = absurd (ground arith)

-- More than one value is more than one in the set.
pub values_of-conflict : (es : List Evidence) → ltb 1 (length (values_of es)) ≡ conflict es
unfolding values_of
values_of-conflict [] = unfold any_evidence in refl
values_of-conflict (e ∷ es) = elim (Bool-cases (value_in e.value (values_of es))) [
  | inl old ↦
      let seen = sym (value_in-values_of e.value es) ∙ old in
      let implied = any_intro (λ v. differ v es) e.value es seen in
      rw (old, conflict_cons e es) (values_of-conflict es ∙ absorbed _ _ implied)
  | inr new ↦
      let fresh = sym (value_in-values_of e.value es) ∙ new in
      let none_differ = no_conflict e.value es fresh in
      rw (new, conflict_cons e es)
        (more (length (values_of es)) ∙ values_of-nil e.value es fresh ∙ kept _ _ none_differ)
]
  where
    absorbed : (p q : Bool) → (p ≡ true → q ≡ true) → q ≡ (p || q)
    absorbed true q h = h refl
    absorbed false q h = refl

    kept : (p q : Bool) → (p ≡ false → q ≡ false) → p ≡ (p || q)
    kept true q h = refl
    kept false q h = sym (h refl)

    more : (n : ℕ) → ltb 1 (suc n) ≡ ltb 0 n
    more n = ground arith

-- Two documents assert different usable values of the field.
abbrev pub disagree : Field → List Document → Bool
disagree f ds = some_document (λ v. some_document (λ w. not (same_value v w)) f ds) f ds

pub conflict-disagree :
    (f : Field) (ds : List Document) → conflict (usable_of (evidence_of f ds)) ≡ disagree f ds
conflict-disagree f ds =
    let inner : (v : Assertion)
        → differ v (usable_of (evidence_of f ds)) ≡ some_document (λ w. not (same_value v w)) f ds =
      λ v. any_usable (λ w. not (same_value v w)) f ds in
    any_cong _ _ inner (usable_of (evidence_of f ds)) ∙ any_usable _ f ds
  where
    any_cong :
        (p q : Assertion → Bool)
        → ((v : Assertion) → p v ≡ q v)
        → (es : List Evidence) → any_evidence p es ≡ any_evidence q es
    any_cong p q h es = ap (λ t. any_evidence t es) (λ i v. h v i)
