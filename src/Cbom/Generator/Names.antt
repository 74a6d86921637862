-- ===== src/Cbom/Generator/Names.antt =====
-- The names under which algorithms are recorded (generator.py, lines 115 to 185).
use post_quantum_cryptograph.Common.{
  ◌≡◌, refl, ◌⊎◌, inl, inr, Bool, true, false, ◌&&◌, ◌||◌, Option, none, some, List, [], ◌∷◌, ◌++◌,
  Bool-cases, All,
}
use post_quantum_cryptograph.Common.Bytes.{Bytes, ascii, bytes_eq, has_text}
use post_quantum_cryptograph.Common.Table.{Table, find, has, All-put, All-find}
use post_quantum_cryptograph.Cbom.{mem, lower}
use post_quantum_cryptograph.Cbom.Generator.{
  Algorithm, pqc_algorithms, FileRef, PyFile, Detection, Detected, record_file, record_known,
  with_file, or_new, detect_kem, dsa_levels, detect_levels, detect_dsa, slh_levels, record_levels,
  detect_slh, hybrids, detect_hybrid, hybrid_name, new_hybrid, record_hybrid, hybrid_terms, any_in,
  detect_hybrids, detect_content, detect_files, detect_pqc_components,
}
use post_quantum_cryptograph.Cbom.Generator.Bill.{algo_order}
use post_quantum_cryptograph.Cbom.Generator.Mentions.{hybrid_names, first_hybrid-mem}

-- An entry of the table is in the order of the bill, and its name lowered is its key.
abbrev IsKnown : Bytes × Algorithm → Type 0
IsKnown (k, a) = (mem k algo_order ≡ true) × (lower a.name ≡ k)

-- What is recorded is an algorithm of the table or a combination.
abbrev pub IsNamed : Bytes × Detection → Type 0
IsNamed (k, e) =
    ((mem k algo_order ≡ true) × (lower e.name ≡ k))
    ⊎ ((mem k (hybrid_names hybrids) ≡ true) × (e.name ≡ hybrid_name k))

table-IsKnown : All IsKnown pqc_algorithms
unfolding mem bytes_eq
table-IsKnown = (
  (refl, refl),
  (
    (refl, refl),
    (
      (refl, refl),
      (
        (refl, refl),
        ((refl, refl), ((refl, refl), ((refl, refl), ((refl, refl), ((refl, refl), tt))))),
      ),
    ),
  ),
)

record_file-IsNamed :
    (k : Bytes) (a : Algorithm) (f : FileRef) (d : Detected)
    → IsKnown (k, a)
    → All IsNamed d
    → All IsNamed (record_file k a f d)
unfolding record_file
record_file-IsNamed k a f d known h = All-put IsNamed k _ d (named (find k d) refl) h
  where
    named : (o : Option Detection) → find k d ≡ o → IsNamed (k, with_file f (or_new a o))
    named none e = inl known
    named (some old) e = All-find IsNamed k old d h e

record_known-IsNamed :
    (k : Bytes) (f : FileRef) (d : Detected) → All IsNamed d → All IsNamed (record_known k f d)
record_known-IsNamed k f d h = named (find k pqc_algorithms) refl
  where
    named :
        (o : Option Algorithm)
        → find k pqc_algorithms ≡ o
        → All IsNamed (elim o [ none ↦ d | some a ↦ record_file k a f d ])
    named none e = h
    named (some a) e =
        record_file-IsNamed k a f d (All-find IsKnown k a pqc_algorithms table-IsKnown e) h

detect_kem-IsNamed :
    (table : Table Algorithm) (t : Bytes) (f : FileRef) (d : Detected)
    → All IsKnown table
    → All IsNamed d
    → All IsNamed (detect_kem table t f d)
unfolding detect_kem
detect_kem-IsNamed [] t f d known h = h
detect_kem-IsNamed ((k, a) ∷ table) t f d known h =
    elim (Bool-cases (bytes_eq a.family (ascii "kem") && has_text k t)) [
      | inl on ↦
          rw on (detect_kem-IsNamed table t f _ known.1 (record_file-IsNamed k a f d known.0 h))
      | inr off ↦ rw off (detect_kem-IsNamed table t f d known.1 h)
    ]

detect_levels-IsNamed :
    (levels : List Bytes) (t : Bytes) (f : FileRef) (d : Detected)
    → All IsNamed d
    → All IsNamed (detect_levels levels t f d)
unfolding detect_levels
detect_levels-IsNamed [] t f d h = h
detect_levels-IsNamed (level ∷ levels) t f d h =
    let key = ascii "ml-dsa-" ++ level in
    elim (Bool-cases (has_text key t || has_text (ascii "mldsa-" ++ level) t)) [
      | inl on ↦ rw on (detect_levels-IsNamed levels t f _ (record_known-IsNamed key f d h))
      | inr off ↦ rw off (detect_levels-IsNamed levels t f d h)
    ]

detect_dsa-IsNamed :
    (t : Bytes) (f : FileRef) (d : Detected) → All IsNamed d → All IsNamed (detect_dsa t f d)
unfolding detect_dsa
detect_dsa-IsNamed t f d h =
    elim (Bool-cases (has_text (ascii "ml-dsa") t || has_text (ascii "mldsa") t)) [
      | inl on ↦ rw on (detect_levels-IsNamed dsa_levels t f d h)
      | inr off ↦ rw off h
    ]

record_levels-IsNamed :
    (levels : List Bytes) (f : FileRef) (d : Detected)
    → All IsNamed d
    → All IsNamed (record_levels levels f d)
unfolding record_levels
record_levels-IsNamed [] f d h = h
record_levels-IsNamed (level ∷ levels) f d h =
    record_levels-IsNamed levels f _ (record_known-IsNamed (ascii "slh-dsa-" ++ level) f d h)

detect_slh-IsNamed :
    (t : Bytes) (f : FileRef) (d : Detected) → All IsNamed d → All IsNamed (detect_slh t f d)
unfolding detect_slh
detect_slh-IsNamed t f d h =
    elim (Bool-cases (has_text (ascii "slh-dsa") t || has_text (ascii "slhdsa") t)) [
      | inl on ↦ rw on (record_levels-IsNamed slh_levels f d h)
      | inr off ↦ rw off h
    ]

record_hybrid-IsNamed :
    (o : Option Bytes) (f : FileRef) (d : Detected)
    → ((k : Bytes) → o ≡ some k → mem k (hybrid_names hybrids) ≡ true)
    → All IsNamed d
    → All IsNamed (record_hybrid o f d)
record_hybrid-IsNamed none f d known h = h
record_hybrid-IsNamed (some k) f d known h = elim (Bool-cases (has k d)) [
  | inl old ↦ rw old h
  | inr new ↦ rw new (All-put IsNamed k (new_hybrid k f) d (inr (known k refl, refl)) h)
]

detect_hybrids-IsNamed :
    (include : Bool) (t : Bytes) (f : FileRef) (d : Detected)
    → All IsNamed d
    → All IsNamed (detect_hybrids include t f d)
unfolding detect_hybrids
detect_hybrids-IsNamed include t f d h = elim (Bool-cases (include && any_in hybrid_terms t)) [
  | inl on ↦ rw on (record_hybrid-IsNamed (detect_hybrid t) f d (first_hybrid-mem hybrids t) h)
  | inr off ↦ rw off h
]

detect_files-IsNamed :
    (include : Bool) (files : List PyFile) (d : Detected)
    → All IsNamed d
    → All IsNamed (detect_files include files d)
unfolding detect_files detect_content
detect_files-IsNamed include [] d h = h
detect_files-IsNamed include (p ∷ ps) d h = detect_files-IsNamed include ps _ (read p.text)
  where
    read :
        (o : Option Bytes)
        → All IsNamed
            (elim o [ none ↦ d | some text ↦ detect_content include (lower text) p.ref d ])
    read none = h
    read (some text) =
        let t = lower text in
        detect_hybrids-IsNamed include t p.ref _ (
          detect_slh-IsNamed t p.ref _ (
            detect_dsa-IsNamed t p.ref _
              (detect_kem-IsNamed pqc_algorithms t p.ref d table-IsKnown h)))

-- Everything that is detected is named so.
pub detect_pqc_components-IsNamed :
    (exists : Bool) (files : List PyFile) (include : Bool)
    → All IsNamed (detect_pqc_components exists files include)
unfolding detect_pqc_components
detect_pqc_components-IsNamed true files include = detect_files-IsNamed include files [] tt
detect_pqc_components-IsNamed false files include = tt
