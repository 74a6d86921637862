-- ===== src/Fips/Accepted.antt =====
-- A request that is accepted, and all gaps of its matrix (fips_evidence.py, lines 73 to 96 and 123
-- to 182).
use post_quantum_cryptograph.Common.{
  ℕ, suc, ◌≤◌, ◌≡◌, ◌↔◌, subst, refl, ap, ◌∙◌, Bool, true, false, not, ◌||◌, List, [], ◌∷◌, ◌++◌,
  map, leb, length, arith, Bool-cases, inl, inr, leb→le,
}
use post_quantum_cryptograph.Common.Bytes.{Bytes, ascii, bytes_eq_iff}
use post_quantum_cryptograph.Common.Sets.{mem}
use post_quantum_cryptograph.Common.Checked.{ok, require-eq-ok, bind-eq-ok, ok-injective}
use post_quantum_cryptograph.Fips.{
  Json, null, text, object, other, array, Items, end, item, list_of, Field, module_id, fields,
  field_name, target_fields, Assertion, is_unset, asserted, names_of, document_keys, request_keys,
  Document, sort_documents, check_object, check_text, check_values, get, check_document,
  check_documents, document_list, normalize,
}
use post_quantum_cryptograph.Fips.Matrix.{
  Gap, same_gap, has_gap, add_gap, add_gaps, insert_gap, sort_gaps, row_gaps, document_gaps,
  review_gaps, less_gap, row_of, Matrix, matrix_of, build_matrix,
}
use post_quantum_cryptograph.Fips.Documents.{
  IsAscending, IsFresh, sort_documents-IsAscending, length-sort_documents,
}

same_gap_iff : (g h : Gap) → (same_gap g h ≡ true) ↔ (g ≡ h)
same_gap_iff g h = ground (arith, bytes_eq_iff g.field h.field, bytes_eq_iff g.code h.code)

has_gap-append :
    (g : Gap) (xs ys : List Gap) → has_gap g (xs ++ ys) ≡ (has_gap g xs || has_gap g ys)
unfolding has_gap
has_gap-append g [] ys = refl
has_gap-append g (x ∷ xs) ys = ground (arith, has_gap-append g xs ys)

has_gap-insert_gap :
    (g h : Gap) (gs : List Gap) → has_gap g (insert_gap h gs) ≡ (same_gap g h || has_gap g gs)
unfolding has_gap insert_gap
has_gap-insert_gap g h [] = refl
has_gap-insert_gap g h (x ∷ xs) = elim (Bool-cases (less_gap x h)) [
  | inl t ↦ rw (t, has_gap-insert_gap g h xs) (swap_or (same_gap g x) (same_gap g h) (has_gap g xs))
  | inr f ↦ rw f refl
]
  where
    swap_or : (p q r : Bool) → (p || (q || r)) ≡ (q || (p || r))
    swap_or p q r = ground arith

has_gap-sort_gaps : (g : Gap) (gs : List Gap) → has_gap g (sort_gaps gs) ≡ has_gap g gs
unfolding has_gap sort_gaps
has_gap-sort_gaps g [] = refl
has_gap-sort_gaps g (h ∷ gs) =
    has_gap-insert_gap g h (sort_gaps gs) ∙ ap (λ b. same_gap g h || b) (has_gap-sort_gaps g gs)

has_gap-add_gap :
    (g h : Gap) (gs : List Gap) → has_gap g (add_gap h gs) ≡ (has_gap g gs || same_gap g h)
has_gap-add_gap g h gs = elim (Bool-cases (has_gap h gs)) [
  | inl t ↦ rw t (there (same_gap g h) refl t)
  | inr t ↦ rw (t, has_gap-append g gs (h ∷ [])) (unfold has_gap in ground arith)
]
  where
    there : (b : Bool) → same_gap g h ≡ b → has_gap h gs ≡ true → has_gap g gs ≡ (has_gap g gs || b)
    there false e t = ground arith
    there true e t =
        let same : has_gap g gs ≡ true = ap (λ y. has_gap y gs) ((same_gap_iff g h).0 e) ∙ t in
        rw same refl

has_gap-add_gaps :
    (g : Gap) (hs gs : List Gap) → has_gap g (add_gaps hs gs) ≡ (has_gap g gs || has_gap g hs)
unfolding add_gaps
has_gap-add_gaps g [] gs = unfold has_gap in ground arith
has_gap-add_gaps g (h ∷ hs) gs =
    has_gap-add_gaps g hs (add_gap h gs) ∙ unfold has_gap in ground (arith, has_gap-add_gap g h gs)

not-true : (b : Bool) → not b ≡ true → b ≡ false
not-true true h = cc
not-true false h = refl

module _ (is_space is_control : ℕ → Bool) where
  check_document-fresh :
      (ids : List Bytes) (j : Json) (d : Document)
      → check_document is_space is_control ids j ≡ ok d
      → mem d.document_id ids ≡ false
  unfolding check_document
  check_document-fresh ids j d h =
      let (table, _, h₁) =
        bind-eq-ok (check_object (names_of fields ++ document_keys) document_keys j) _ h in
      let (id, _, h₂) =
        bind-eq-ok (check_text is_space is_control (get (ascii "document_id") table)) _ h₁ in
      let (fresh, h₃) = require-eq-ok (not (mem id ids)) _ _ h₂ in
      let (locator, _, h₄) =
        bind-eq-ok (check_text is_space is_control (get (ascii "locator") table)) _ h₃ in
      let (values, _, h₅) = bind-eq-ok (check_values is_space is_control fields table) _ h₄ in
      let same =
        ok-injective (record { document_id = id; locator = locator; values = values }) d h₅ in
      let id_same : id ≡ d.document_id = ap (λ e. e.document_id) same in
      rw id_same at (not-true (mem id ids) fresh)

  check_documents-IsFresh :
      (ids : List Bytes) (js : Items) (ds : List Document)
      → check_documents is_space is_control ids js ≡ ok ds
      → IsFresh ids ds × (length ds ≡ length (list_of js))
  unfolding check_documents
  check_documents-IsFresh ids end ds h =
      let same = ok-injective [] ds h in
      subst (λ ds. IsFresh ids ds × (length ds ≡ 0)) same (tt, refl)
  check_documents-IsFresh ids (item j js) ds h =
      let (d, first, h₁) = bind-eq-ok (check_document is_space is_control ids j) _ h in
      let (rest, later, h₂) =
        bind-eq-ok (check_documents is_space is_control (d.document_id ∷ ids) js) _ h₁ in
      let same = ok-injective (d ∷ rest) ds h₂ in
      let (fresh, count) = check_documents-IsFresh (d.document_id ∷ ids) js rest later in
      subst (λ ds. IsFresh ids ds × (length ds ≡ suc (length (list_of js)))) same
        ((check_document-fresh ids j d first, fresh), ap suc count)

  document_list-IsAscending :
      (j : Json) (ds : List Document)
      → document_list is_space is_control j ≡ ok ds
      → IsAscending ds × (length ds ≤ 64)
  unfolding document_list
  document_list-IsAscending (array js) ds h =
      let (few, h₁) = require-eq-ok (leb (length (list_of js)) 64) _ _ h in
      let (raw, checked, h₂) = bind-eq-ok (check_documents is_space is_control [] js) _ h₁ in
      let same = ok-injective (sort_documents raw) ds h₂ in
      let (fresh, count) = check_documents-IsFresh [] js raw checked in
      let size = length-sort_documents raw in
      let bound = leb→le (length (list_of js)) 64 few in
      subst (λ ds. IsAscending ds × (length ds ≤ 64)) same
        (sort_documents-IsAscending [] raw fresh, omega arith)
  document_list-IsAscending null ds h = cc
  document_list-IsAscending (text t) ds h = cc
  document_list-IsAscending (object es) ds h = cc
  document_list-IsAscending other ds h = cc

  normalize_lem :
      (j : Json) (target : List (Field × Assertion)) (ds : List Document)
      → normalize is_space is_control j ≡ ok (target, ds)
      → (is_unset (asserted module_id target) ≡ false) × IsAscending ds × (length ds ≤ 64)
  unfolding normalize
  normalize_lem j target ds h =
      let (request, _, h₁) = bind-eq-ok (check_object request_keys request_keys j) _ h in
      let (table, _, h₂) =
        bind-eq-ok
          (check_object (names_of target_fields) (field_name module_id ∷ [])
            (get (ascii "target") request))
          _ h₁ in
      let (values, _, h₃) =
        bind-eq-ok (check_values is_space is_control target_fields table) _ h₂ in
      let (named, h₄) = require-eq-ok (not (is_unset (asserted module_id values))) _ _ h₃ in
      let (documents, listed, h₅) =
        bind-eq-ok (document_list is_space is_control (get (ascii "documents") request)) _ h₄ in
      let same = ok-injective (values, documents) (target, ds) h₅ in
      let (up, few) =
        document_list-IsAscending (get (ascii "documents") request) documents listed in
      subst (λ p. (is_unset (asserted module_id p.0) ≡ false) × IsAscending p.1 × (length p.1 ≤ 64))
        same (not-true _ named, up, few)

  -- Whatever is given as a request: a matrix that is returned has a target module, at most 64
  -- documents, in the strict order of their identifiers, and exactly the gaps of its rows, of its
  -- documents without a scope, and the three of every review: that authenticity, the current status
  -- and the mode at run time are not verified.
  pub build_matrix_lem :
      (j : Json) (m : Matrix)
      → build_matrix is_space is_control j ≡ ok m
      → (is_unset (asserted module_id m.target) ≡ false)
        × IsAscending m.documents
        × (length m.documents ≤ 64)
        × ((g : Gap)
            → has_gap g m.gaps ≡ (
                has_gap g (row_gaps m.rows)
                || (has_gap g (document_gaps m.documents) || has_gap g review_gaps)))
  unfolding build_matrix
  build_matrix_lem j m h =
      let ((target, ds), normal, h₁) = bind-eq-ok (normalize is_space is_control j) _ h in
      let same = ok-injective (matrix_of target ds) m h₁ in
      let (named, up, few) = normalize_lem j target ds normal in
      subst
        (λ m.
          (is_unset (asserted module_id m.target) ≡ false)
          × IsAscending m.documents
          × (length m.documents ≤ 64)
          × ((g : Gap)
              → has_gap g m.gaps ≡ (
                  has_gap g (row_gaps m.rows)
                  || (has_gap g (document_gaps m.documents) || has_gap g review_gaps))))
        same (named, up, few, λ g. all_gaps g (row_gaps (map (row_of target ds) fields)) ds)
    where
      all_gaps :
          (g : Gap) (rows : List Gap) (ds : List Document)
          → has_gap g (sort_gaps (add_gaps (rows ++ (document_gaps ds ++ review_gaps)) []))
            ≡ (has_gap g rows || (has_gap g (document_gaps ds) || has_gap g review_gaps))
      all_gaps g rows ds =
          has_gap-sort_gaps g _
          ∙ has_gap-add_gaps g (rows ++ (document_gaps ds ++ review_gaps)) []
          ∙ unfold has_gap in
            (has_gap-append g rows (document_gaps ds ++ review_gaps)
              ∙ ap (λ b. has_gap g rows || b) (has_gap-append g (document_gaps ds) review_gaps))
