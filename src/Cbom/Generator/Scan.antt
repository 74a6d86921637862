-- ===== src/Cbom/Generator/Scan.antt =====
-- The detection of one file and of all (generator.py, lines 109 to 187).
use post_quantum_cryptograph.Common.{
  ◌≡◌, refl, ◌∙◌, Bool, true, false, ◌&&◌, ◌||◌, Option, none, some, List, [], ◌∷◌, arith,
  Bool-cases, inl, inr,
}
use post_quantum_cryptograph.Common.Bytes.{Bytes, ascii, bytes_eq, has_text}
use post_quantum_cryptograph.Common.Table.{find, has}
use post_quantum_cryptograph.Cbom.{lower}
use post_quantum_cryptograph.Cbom.Generator.{
  pqc_algorithms, FileRef, PyFile, Detected, dsa_levels, detect_kem, detect_dsa, slh_levels,
  detect_slh, detect_content, detect_files, detect_pqc_components,
}
use post_quantum_cryptograph.Cbom.Generator.Mentions.{
  Asset, kem_512, kem_768, kem_1024, dsa_44, dsa_65, dsa_87, slh_simple, slh_medium, slh_full,
  key_of, mentions, mentions_slh, any_mentions, has_text-append, kem_adds, level_adds, variant_adds,
  has-detect_kem, has-detect_levels, has-record_levels, has-detect_hybrids,
}

abbrev mentions_dsa : Bytes → Bool
mentions_dsa t = has_text (ascii "ml-dsa") t || has_text (ascii "mldsa") t

has-detect_dsa :
    (j t : Bytes) (f : FileRef) (d : Detected)
    → has j (detect_dsa t f d) ≡ (has j d || mentions_dsa t && level_adds dsa_levels j t)
unfolding detect_dsa
has-detect_dsa j t f d = elim (Bool-cases (mentions_dsa t)) [
  | inl on ↦ rw on (has-detect_levels dsa_levels j t f d)
  | inr off ↦ rw off (ground arith)
]

has-detect_slh :
    (j t : Bytes) (f : FileRef) (d : Detected)
    → has j (detect_slh t f d) ≡ (has j d || mentions_slh t && variant_adds slh_levels j)
unfolding detect_slh
has-detect_slh j t f d = elim (Bool-cases (mentions_slh t)) [
  | inl on ↦ rw on (has-record_levels slh_levels j f d)
  | inr off ↦ rw off (ground arith)
]

-- What the loops add for each algorithm of the table.
adds :
    (a : Asset) (t : Bytes)
    → (kem_adds pqc_algorithms (key_of a) t
        || (mentions_dsa t && level_adds dsa_levels (key_of a) t
            || mentions_slh t && variant_adds slh_levels (key_of a)))
      ≡ mentions a t
unfolding find bytes_eq
adds kem_512 t = ground arith
adds kem_768 t = ground arith
adds kem_1024 t = ground arith
adds dsa_44 t = ground (
  arith,
  has_text-append (ascii "ml-dsa") (ascii "-44") t,
  has_text-append (ascii "mldsa") (ascii "-44") t,
)
adds dsa_65 t = ground (
  arith,
  has_text-append (ascii "ml-dsa") (ascii "-65") t,
  has_text-append (ascii "mldsa") (ascii "-65") t,
)
adds dsa_87 t = ground (
  arith,
  has_text-append (ascii "ml-dsa") (ascii "-87") t,
  has_text-append (ascii "mldsa") (ascii "-87") t,
)
adds slh_simple t = ground arith
adds slh_medium t = ground arith
adds slh_full t = ground arith

has-detect_content :
    (include : Bool) (a : Asset) (t : Bytes) (f : FileRef) (d : Detected)
    → has (key_of a) (detect_content include t f d) ≡ (has (key_of a) d || mentions a t)
unfolding detect_content
has-detect_content include a t f d =
    let j = key_of a in
    let d₁ = detect_kem pqc_algorithms t f d in
    let d₂ = detect_dsa t f d₁ in
    has-detect_hybrids include a t f (detect_slh t f d₂)
    ∙ has-detect_slh j t f d₂
    ∙ joined (has j d) (kem_adds pqc_algorithms j t) (mentions_dsa t && level_adds dsa_levels j t)
        (mentions_slh t && variant_adds slh_levels j) (has j d₁) (has j d₂) (mentions a t)
        (has-detect_kem pqc_algorithms j t f d) (has-detect_dsa j t f d₁) (adds a t)
  where
    joined :
        (p k l s p₁ p₂ m : Bool)
        → p₁ ≡ (p || k)
        → p₂ ≡ (p₁ || l)
        → (k || (l || s)) ≡ m
        → (p₂ || s) ≡ (p || m)
    joined p k l s p₁ p₂ m e₁ e₂ e = ground arith

has-detect_files :
    (include : Bool) (a : Asset) (files : List PyFile) (d : Detected)
    → has (key_of a) (detect_files include files d) ≡ (has (key_of a) d || any_mentions a files)
unfolding detect_files
has-detect_files include a [] d = ground arith
has-detect_files include a (p ∷ ps) d = read p.text (has-detect_files include a ps)
  where
    read :
        (o : Option Bytes)
        → ((d : Detected)
            → has (key_of a) (detect_files include ps d) ≡ (has (key_of a) d || any_mentions a ps))
        → has (key_of a) (
            detect_files include ps
              (elim o [ none ↦ d | some text ↦ detect_content include (lower text) p.ref d ]))
          ≡ (has (key_of a) d
              || (elim o [ none ↦ false | some text ↦ mentions a (lower text) ]
                  || any_mentions a ps))
    read none rest = rest d
    read (some text) rest =
        rest (detect_content include (lower text) p.ref d)
        ∙ ground (arith, has-detect_content include a (lower text) p.ref d)

-- An algorithm of the table is detected exactly if the directory exists and a file mentions it.
pub has-detect_pqc_components :
    (exists : Bool) (files : List PyFile) (include : Bool) (a : Asset)
    → has (key_of a) (detect_pqc_components exists files include) ≡ (exists && any_mentions a files)
unfolding detect_pqc_components find
has-detect_pqc_components true files include a = has-detect_files include a files []
has-detect_pqc_components false files include a = refl
