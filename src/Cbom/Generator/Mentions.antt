-- ===== src/Cbom/Generator/Mentions.antt =====
-- Which algorithms a scan detects (generator.py, lines 89 to 187).
use post_quantum_cryptograph.Common.{
  ◌≡◌, refl, ◌∙◌, Bool, true, false, ◌&&◌, ◌||◌, Option, none, some, List, [], ◌∷◌, ◌++◌, map,
  arith, Bool-cases, inl, inr,
}
use post_quantum_cryptograph.Common.Bytes.{
  Bytes, ascii, bytes_eq, bytes_eq_iff, has_text, starts_with,
}
use post_quantum_cryptograph.Common.Table.{Table, find, has, has-put}
use post_quantum_cryptograph.Common.Dict.{is_some}
use post_quantum_cryptograph.Cbom.{mem, lower}
use post_quantum_cryptograph.Cbom.Generator.{
  Algorithm, pqc_algorithms, FileRef, PyFile, Detected, record_file, record_known, detect_kem,
  detect_levels, record_levels, hybrids, first_hybrid, detect_hybrid, record_hybrid, hybrid_terms,
  any_in, detect_hybrids,
}

-- The nine algorithms of the table.
pub data Asset : Type 0 where
  kem_512 kem_768 kem_1024 dsa_44 dsa_65 dsa_87 slh_simple slh_medium slh_full : Asset

abbrev pub key_of : Asset → Bytes
key_of kem_512 = ascii "ml-kem-512"
key_of kem_768 = ascii "ml-kem-768"
key_of kem_1024 = ascii "ml-kem-1024"
key_of dsa_44 = ascii "ml-dsa-44"
key_of dsa_65 = ascii "ml-dsa-65"
key_of dsa_87 = ascii "ml-dsa-87"
key_of slh_simple = ascii "slh-dsa-simple"
key_of slh_medium = ascii "slh-dsa-medium"
key_of slh_full = ascii "slh-dsa-full"

-- What a lowered text has to contain: for SLH-DSA any mention of it, whatever the variant.
abbrev pub mentions_slh : Bytes → Bool
mentions_slh t = has_text (ascii "slh-dsa") t || has_text (ascii "slhdsa") t

abbrev pub mentions : Asset → Bytes → Bool
mentions kem_512 t = has_text (ascii "ml-kem-512") t
mentions kem_768 t = has_text (ascii "ml-kem-768") t
mentions kem_1024 t = has_text (ascii "ml-kem-1024") t
mentions dsa_44 t = has_text (ascii "ml-dsa-44") t || has_text (ascii "mldsa-44") t
mentions dsa_65 t = has_text (ascii "ml-dsa-65") t || has_text (ascii "mldsa-65") t
mentions dsa_87 t = has_text (ascii "ml-dsa-87") t || has_text (ascii "mldsa-87") t
mentions slh_simple t = mentions_slh t
mentions slh_medium t = mentions_slh t
mentions slh_full t = mentions_slh t

-- Some file that can be read mentions the algorithm.
abbrev pub any_mentions : Asset → List PyFile → Bool
any_mentions a [] = false
any_mentions a (p ∷ ps) =
    elim p.text [ none ↦ false | some text ↦ mentions a (lower text) ] || any_mentions a ps

-- A text that contains another contains its beginning.
starts_with-append : (n m t : Bytes) → starts_with (n ++ m) t ≡ true → starts_with n t ≡ true
unfolding starts_with
starts_with-append [] m t h = refl
starts_with-append (c ∷ n) m [] h = cc
starts_with-append (c ∷ n) m (d ∷ t) h = ground (arith, starts_with-append n m t)

pub has_text-append : (n m t : Bytes) → has_text (n ++ m) t ≡ true → has_text n t ≡ true
unfolding has_text
has_text-append n m [] h = starts_with-append n m [] h
has_text-append n m (d ∷ t) h =
    ground (arith, starts_with-append n m (d ∷ t), has_text-append n m t)

has-record_file :
    (k j : Bytes) (a : Algorithm) (f : FileRef) (d : Detected)
    → has j (record_file k a f d) ≡ (bytes_eq k j || has j d)
unfolding record_file
has-record_file k j a f d = has-put k j _ d

has-record_known :
    (k j : Bytes) (f : FileRef) (d : Detected)
    → has j (record_known k f d) ≡ (has k pqc_algorithms && bytes_eq k j || has j d)
has-record_known k j f d = known (find k pqc_algorithms)
  where
    known :
        (o : Option Algorithm)
        → has j (elim o [ none ↦ d | some a ↦ record_file k a f d ])
          ≡ (is_some o && bytes_eq k j || has j d)
    known none = refl
    known (some a) = has-record_file k j a f d

-- What each loop adds.
abbrev pub kem_adds : Table Algorithm → Bytes → Bytes → Bool
kem_adds [] j t = false
kem_adds ((k, a) ∷ table) j t =
    bytes_eq a.family (ascii "kem") && has_text k t && bytes_eq k j || kem_adds table j t

pub has-detect_kem :
    (table : Table Algorithm) (j t : Bytes) (f : FileRef) (d : Detected)
    → has j (detect_kem table t f d) ≡ (has j d || kem_adds table j t)
unfolding detect_kem
has-detect_kem [] j t f d = ground arith
has-detect_kem ((k, a) ∷ table) j t f d =
    elim (Bool-cases (bytes_eq a.family (ascii "kem") && has_text k t)) [
      | inl on ↦ rw on (
          has-detect_kem table j t f (record_file k a f d)
          ∙ ground (arith, has-record_file k j a f d))
      | inr off ↦ rw off (has-detect_kem table j t f d ∙ ground arith)
    ]

abbrev pub level_adds : List Bytes → Bytes → Bytes → Bool
level_adds [] j t = false
level_adds (level ∷ levels) j t =
    let key = ascii "ml-dsa-" ++ level in
    (has_text key t || has_text (ascii "mldsa-" ++ level) t)
      && (has key pqc_algorithms && bytes_eq key j)
    || level_adds levels j t

pub has-detect_levels :
    (levels : List Bytes) (j t : Bytes) (f : FileRef) (d : Detected)
    → has j (detect_levels levels t f d) ≡ (has j d || level_adds levels j t)
unfolding detect_levels
has-detect_levels [] j t f d = ground arith
has-detect_levels (level ∷ levels) j t f d =
    let key = ascii "ml-dsa-" ++ level in
    elim (Bool-cases (has_text key t || has_text (ascii "mldsa-" ++ level) t)) [
      | inl on ↦ rw on (
          has-detect_levels levels j t f (record_known key f d)
          ∙ ground (arith, has-record_known key j f d))
      | inr off ↦ rw off (has-detect_levels levels j t f d ∙ ground arith)
    ]

abbrev pub variant_adds : List Bytes → Bytes → Bool
variant_adds [] j = false
variant_adds (level ∷ levels) j =
    let key = ascii "slh-dsa-" ++ level in
    (has key pqc_algorithms && bytes_eq key j) || variant_adds levels j

pub has-record_levels :
    (levels : List Bytes) (j : Bytes) (f : FileRef) (d : Detected)
    → has j (record_levels levels f d) ≡ (has j d || variant_adds levels j)
unfolding record_levels
has-record_levels [] j f d = ground arith
has-record_levels (level ∷ levels) j f d =
    let key = ascii "slh-dsa-" ++ level in
    has-record_levels levels j f (record_known key f d) ∙ ground (arith, has-record_known key j f d)

-- A combination is one of the table.
abbrev pub hybrid_names : Table (List Bytes) → List Bytes
hybrid_names = map (λ e. e.0)

pub first_hybrid-mem :
    (table : Table (List Bytes)) (t k : Bytes)
    → first_hybrid table t ≡ some k
    → mem k (hybrid_names table) ≡ true
unfolding first_hybrid mem
first_hybrid-mem [] t k h = cc
first_hybrid-mem ((j, terms) ∷ table) t k h =
    ground (arith, first_hybrid-mem table t k, bytes_eq_iff k j)

has-record_hybrid :
    (o : Option Bytes) (j : Bytes) (f : FileRef) (d : Detected)
    → ((k : Bytes) → o ≡ some k → bytes_eq k j ≡ false)
    → has j (record_hybrid o f d) ≡ has j d
has-record_hybrid none j f d h = refl
has-record_hybrid (some k) j f d h =
    let other = h k refl in
    elim (Bool-cases (has k d)) [
      | inl t ↦ rw t refl
      | inr t ↦ rw t (has-put k j _ d ∙ rw other refl)
    ]

-- The tables' facts, which compute.
asset_known : (a : Asset) → mem (key_of a) (hybrid_names hybrids) ≡ false
unfolding mem bytes_eq
asset_known kem_512 = refl
asset_known kem_768 = refl
asset_known kem_1024 = refl
asset_known dsa_44 = refl
asset_known dsa_65 = refl
asset_known dsa_87 = refl
asset_known slh_simple = refl
asset_known slh_medium = refl
asset_known slh_full = refl

pub has-detect_hybrids :
    (include : Bool) (a : Asset) (t : Bytes) (f : FileRef) (d : Detected)
    → has (key_of a) (detect_hybrids include t f d) ≡ has (key_of a) d
unfolding detect_hybrids
has-detect_hybrids include a t f d = elim (Bool-cases (include && any_in hybrid_terms t)) [
  | inl on ↦ rw on (has-record_hybrid (detect_hybrid t) (key_of a) f d other)
  | inr off ↦ rw off refl
]
  where
    other : (k : Bytes) → detect_hybrid t ≡ some k → bytes_eq k (key_of a) ≡ false
    other k h =
        let known = first_hybrid-mem hybrids t k h in
        let unknown = asset_known a in
        elim (Bool-cases (bytes_eq k (key_of a))) [
          | inl e ↦ let same = (bytes_eq_iff k (key_of a)).0 e in absurd cc
          | inr e ↦ e
        ]
