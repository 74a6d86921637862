-- ===== src/Estimates/Security.antt =====
-- What an estimate and a category say of a name (security_estimator.py).
use post_quantum_cryptograph.Common.{
  ℕ, ◌≡◌, ◌⊎◌, refl, subst, inl, inr, Bool, true, ◌&&◌, Option, none, some, [], ◌∷◌, All, arith,
  Bool-cases,
}
use post_quantum_cryptograph.Common.Int.{pos, +ℤ_parts, -ℤ_parts, leb_ℤ, ◌+ℤ◌, ◌-ℤ◌}
use post_quantum_cryptograph.Common.Bytes.{
  Bytes, bytes_eq, bytes_eq_iff, has_text, starts_with, split_on,
}
use post_quantum_cryptograph.Common.Table.{Table, find, All-find}
use post_quantum_cryptograph.Cbom.{lower}
use post_quantum_cryptograph.Estimates.{
  Level, pqc_security_levels, without_hyphens, matches_key, any_part, partial_match, by_family,
  or_family, bits_or, estimate_security_bits, category_without_hyphens, category_or,
  get_nist_category, verify_security_claim, get_security_info,
}

-- One of the three strengths.
abbrev pub IsGrade : ℕ → Type 0
IsGrade bits = (bits ≡ 128) ⊎ (bits ≡ 192) ⊎ (bits ≡ 256)

abbrev HasGrade : Bytes × Level → Type 0
HasGrade (key, l) = IsGrade l.security_bits

levels-HasGrade : All HasGrade pqc_security_levels
levels-HasGrade = (
  inl refl,
  (
    inr (inl refl),
    (
      inr (inr refl),
      (
        inl refl,
        (inr (inl refl), (inr (inr refl), (inl refl, (inr (inl refl), (inr (inr refl), tt))))),
      ),
    ),
  ),
)

partial_match-HasGrade :
    (name : Bytes) (table : Table Level) (bits : ℕ)
    → All HasGrade table
    → partial_match name table ≡ some bits
    → IsGrade bits
unfolding partial_match
partial_match-HasGrade name [] bits h e = cc
partial_match-HasGrade name ((key, l) ∷ table) bits h e = elim (Bool-cases (matches_key name key)) [
  | inl t ↦ let same : l.security_bits ≡ bits = let g = rw t at e in cc in subst IsGrade same h.0
  | inr f ↦ partial_match-HasGrade name table bits h.1 (rw f at e)
]

-- A property of the keys without hyphens holds of the text whose category is found.
All-category :
    (P : Bytes → Type 0) (plain c : Bytes) (table : Table Level)
    → All (λ (e : Bytes × Level). P (without_hyphens e.0)) table
    → category_without_hyphens plain table ≡ some c
    → P plain
unfolding category_without_hyphens
All-category P plain c [] h e = cc
All-category P plain c ((key, l) ∷ table) h e =
    elim (Bool-cases (bytes_eq (without_hyphens key) plain)) [
      | inl t ↦ subst P ((bytes_eq_iff (without_hyphens key) plain).0 t) h.0
      | inr f ↦ All-category P plain c table h.1 (rw f at e)
    ]

-- The estimate of a name that is no key, from its form without hyphens.
abbrev not_exact : Bytes → Bytes → ℕ
not_exact name plain =
    bits_or (find plain pqc_security_levels)
      (or_family name (partial_match plain pqc_security_levels))

-- Each key without its hyphens first meets a key of 128 bits.
levels-weak :
    (name : Bytes)
    → All (λ (e : Bytes × Level). not_exact name (without_hyphens e.0) ≡ 128) pqc_security_levels
unfolding find partial_match without_hyphens bytes_eq starts_with has_text any_part split_on
levels-weak name = (refl, (refl, (refl, (refl, (refl, (refl, (refl, (refl, (refl, tt)))))))))

by_family-IsGrade : (name : Bytes) → IsGrade (by_family name)
by_family-IsGrade name = ground arith

bits_or-IsGrade :
    (o : Option Level) (other : ℕ)
    → ((l : Level) → o ≡ some l → IsGrade l.security_bits)
    → IsGrade other
    → IsGrade (bits_or o other)
bits_or-IsGrade none other h g = g
bits_or-IsGrade (some l) other h g = h l refl

or_family-IsGrade :
    (name : Bytes) (o : Option ℕ)
    → ((bits : ℕ) → o ≡ some bits → IsGrade bits)
    → IsGrade (or_family name o)
or_family-IsGrade name none h = by_family-IsGrade name
or_family-IsGrade name (some bits) h = h bits refl

not_exact-IsGrade : (name plain : Bytes) → IsGrade (not_exact name plain)
not_exact-IsGrade name plain =
    bits_or-IsGrade (find plain pqc_security_levels)
      (or_family name (partial_match plain pqc_security_levels))
      (λ l e. All-find HasGrade plain l pqc_security_levels levels-HasGrade e)
      (or_family-IsGrade name (partial_match plain pqc_security_levels)
        (λ bits e. partial_match-HasGrade plain pqc_security_levels bits levels-HasGrade e))

-- What the bits and the category are, by the level of the lowered name and the category of the
-- key that equals it without hyphens.
abbrev pub IsGraded : Option Level → Option Bytes → ℕ → Option Bytes → Type 0
IsGraded (some l) c bits category = (bits ≡ l.security_bits) × (category ≡ some l.nist_category)
IsGraded none (some c) bits category = (bits ≡ 128) × (category ≡ some c)
IsGraded none none bits category = IsGrade bits × (category ≡ none)

choice-IsGraded :
    (name plain : Bytes) (l : Option Level) (c : Option Bytes)
    → category_without_hyphens plain pqc_security_levels ≡ c
    → IsGraded l c (bits_or l (not_exact name plain)) (category_or l c)
choice-IsGraded name plain (some l) c e = (refl, refl)
choice-IsGraded name plain none (some c) e = (
  All-category (λ p. not_exact name p ≡ 128) plain c pqc_security_levels (levels-weak name) e,
  refl,
)
choice-IsGraded name plain none none e = (not_exact-IsGrade name plain, refl)

abbrev pub within : ℕ → Bool
within n = leb_ℤ (pos n -ℤ pos 2) (pos n) && leb_ℤ (pos n) (pos n +ℤ pos 2)

within-true : (n : ℕ) → within n ≡ true
within-true n = ground (arith, -ℤ_parts (pos n) (pos 2), +ℤ_parts (pos n) (pos 2))

-- What is reported of a name, by the lowered name: a key of the table has the key's bits and
-- category; a name that is no key, but equals a key once the hyphens of both are removed, has that
-- key's category and 128 bits, whatever the key's own bits are; and any other name has no category
-- and 128, 192 or 256 bits. The verification that comes with it is always valid, since it takes the
-- estimate itself as the claim.
pub get_security_info_lem :
    (algorithm : Bytes)
    → let info = get_security_info algorithm in
      IsGraded
        (find (lower algorithm) pqc_security_levels)
        (category_without_hyphens (without_hyphens (lower algorithm)) pqc_security_levels)
        info.security_bits
        info.nist_category
      × (info.verification.estimated_bits ≡ pos info.security_bits)
      × (info.verification.is_valid ≡ true)
unfolding estimate_security_bits get_nist_category get_security_info verify_security_claim
get_security_info_lem algorithm =
    let name = lower algorithm in
    let plain = without_hyphens name in
    (
      choice-IsGraded name plain (find name pqc_security_levels)
          (category_without_hyphens plain pqc_security_levels) refl,
      refl,
      within-true (estimate_security_bits algorithm),
    )
