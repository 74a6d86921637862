-- ===== src/Fips/Documents.antt =====
-- The documents are sorted by their distinct identifiers (fips_evidence.py, line 96).
use post_quantum_cryptograph.Common.{
  ◌≡◌, refl, sym, Bool, true, false, ◌||◌, List, [], ◌∷◌, length, arith, All, Bool-cases, inl, inr,
}
use post_quantum_cryptograph.Common.Bytes.{Bytes, bytes_eq, bytes_eq_iff, less_text}
use post_quantum_cryptograph.Common.TextOrder.{less_text_trans, less_text_total}
use post_quantum_cryptograph.Common.Sets.{mem}
use post_quantum_cryptograph.Fips.{Document, insert_document, sort_documents}

-- Identifiers ascend strictly.
abbrev pub IsAscending : List Document → Type 0
IsAscending [] = Unit
IsAscending (d ∷ ds) = All (λ e. less_text d.document_id e.document_id ≡ true) ds × IsAscending ds

-- No identifier is one of those before.
abbrev pub IsFresh : List Bytes → List Document → Type 0
IsFresh ids [] = Unit
IsFresh ids (d ∷ ds) = (mem d.document_id ids ≡ false) × IsFresh (d.document_id ∷ ids) ds

abbrev Differs : Bytes → Document → Type 0
Differs x e = bytes_eq e.document_id x ≡ false

fresh-Differs :
    (x : Bytes) (ids : List Bytes) (ds : List Document)
    → mem x ids ≡ true
    → IsFresh ids ds
    → All (Differs x) ds
unfolding mem
fresh-Differs x ids [] h fresh = tt
fresh-Differs x ids (d ∷ ds) h fresh = (
  apart (bytes_eq d.document_id x) refl,
  fresh-Differs x (d.document_id ∷ ids) ds (later (bytes_eq x d.document_id)) fresh.1,
)
  where
    apart : (b : Bool) → bytes_eq d.document_id x ≡ b → b ≡ false
    apart false e = refl
    apart true e = let same = (bytes_eq_iff d.document_id x).0 e in let miss = fresh.0 in absurd cc

    later : (b : Bool) → (b || mem x ids) ≡ true
    later true = refl
    later false = h

All-insert_document :
    (P : Document → Type 0) (d : Document) (ds : List Document)
    → P d
    → All P ds
    → All P (insert_document d ds)
unfolding insert_document
All-insert_document P d [] hd h = (hd, tt)
All-insert_document P d (e ∷ es) hd h = elim (Bool-cases (less_text e.document_id d.document_id)) [
  | inl t ↦ rw t (h.0, All-insert_document P d es hd h.1)
  | inr f ↦ rw f (hd, h)
]

All-sort_documents :
    (P : Document → Type 0) (ds : List Document) → All P ds → All P (sort_documents ds)
unfolding sort_documents
All-sort_documents P [] h = tt
All-sort_documents P (d ∷ ds) h =
    All-insert_document P d (sort_documents ds) h.0 (All-sort_documents P ds h.1)

all_above :
    (x y : Bytes) (ds : List Document)
    → less_text x y ≡ true
    → All (λ e. less_text y e.document_id ≡ true) ds
    → All (λ e. less_text x e.document_id ≡ true) ds
all_above x y [] h up = tt
all_above x y (d ∷ ds) h up = (less_text_trans x y d.document_id h up.0, all_above x y ds h up.1)

insert_document-IsAscending :
    (d : Document) (ds : List Document)
    → All (Differs d.document_id) ds
    → IsAscending ds
    → IsAscending (insert_document d ds)
unfolding insert_document
insert_document-IsAscending d [] other up = (tt, tt)
insert_document-IsAscending d (e ∷ es) other up =
    elim (Bool-cases (less_text e.document_id d.document_id)) [
      | inl t ↦
          rw t (All-insert_document _ d es t up.0, insert_document-IsAscending d es other.1 up.1)
      | inr f ↦
          let first = above (less_text d.document_id e.document_id) refl f in
          rw f ((first, all_above d.document_id e.document_id es first up.0), up)
    ]
  where
    above :
        (b : Bool)
        → less_text d.document_id e.document_id ≡ b
        → less_text e.document_id d.document_id ≡ false
        → less_text d.document_id e.document_id ≡ true
    above true h f = h
    above false h f =
        let same = less_text_total d.document_id e.document_id h f in
        let equal = (bytes_eq_iff e.document_id d.document_id).1 (sym same) in
        let differs = other.0 in absurd cc

pub sort_documents-IsAscending :
    (ids : List Bytes) (ds : List Document) → IsFresh ids ds → IsAscending (sort_documents ds)
unfolding sort_documents mem
sort_documents-IsAscending ids [] fresh = tt
sort_documents-IsAscending ids (d ∷ ds) fresh =
    let self = (bytes_eq_iff d.document_id d.document_id).1 refl in
    let other = fresh-Differs d.document_id (d.document_id ∷ ids) ds (rw self refl) fresh.1 in
    insert_document-IsAscending d (sort_documents ds) (All-sort_documents _ ds other)
      (sort_documents-IsAscending (d.document_id ∷ ids) ds fresh.1)

length-insert_document :
    (d : Document) (ds : List Document) → length (insert_document d ds) ≡ length (d ∷ ds)
unfolding insert_document
length-insert_document d [] = refl
length-insert_document d (e ∷ es) = ground (arith, length-insert_document d es)

pub length-sort_documents : (ds : List Document) → length (sort_documents ds) ≡ length ds
unfolding sort_documents
length-sort_documents [] = refl
length-sort_documents (d ∷ ds) =
    ground (arith, length-insert_document d (sort_documents ds), length-sort_documents ds)
