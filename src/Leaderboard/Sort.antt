-- ===== src/Leaderboard/Sort.antt =====
-- `sorted` with distinct identifiers (waveform_leaderboard.py, line 128).
use post_quantum_cryptograph.Common.{
  suc, ◌≡◌, ◌≢◌, refl, sym, ap, ◌∙◌, true, false, List, [], ◌∷◌, map, arith, length, All,
  Bool-cases, inl, inr,
}
use post_quantum_cryptograph.Common.Bytes.{Bytes, bytes_eq_iff}
use post_quantum_cryptograph.Common.Sets.{mem, set_of, distinct_head, length-set_of-reorder}
use post_quantum_cryptograph.Common.Reordering.{
  Reordering, reorder_refl, reorder_sym, All-reorder, map-reorder, length-reorder,
}
use post_quantum_cryptograph.Leaderboard.{Entry, before, insert_entry, sort}
use post_quantum_cryptograph.Leaderboard.Order.{before_asym, before_trans, before_total}

abbrev pub id_of : Entry → Bytes
id_of e = e.result.model_id

abbrev pub Apart : Entry → Entry → Type 0
Apart a b = id_of a ≢ id_of b

-- All identifiers differ, as the code tests it.
abbrev pub IsUnique : List Entry → Type 0
IsUnique es = length (set_of (map id_of es)) ≡ length es

-- Each entry goes before all that follow.
abbrev pub IsAscending : List Entry → Type 0
IsAscending [] = Unit
IsAscending (e ∷ es) = All (λ x. before e x ≡ true) es × IsAscending es

mem-Apart : (e : Entry) (es : List Entry) → mem (id_of e) (map id_of es) ≡ false → All (Apart e) es
unfolding mem
mem-Apart e [] h = tt
mem-Apart e (x ∷ xs) h = elim (Bool-cases (mem (id_of e) (map id_of xs))) [
  | inl t ↦ absurd (ground (arith, bytes_eq_iff (id_of e) (id_of x)))
  | inr f ↦ (λ same. absurd (ground (arith, bytes_eq_iff (id_of e) (id_of x))), mem-Apart e xs f)
]

length-map_ids : (es : List Entry) → length (map id_of es) ≡ length es
length-map_ids [] = refl
length-map_ids (e ∷ es) = ap suc (length-map_ids es)

pub IsUnique-tail :
    (e : Entry) (es : List Entry) → IsUnique (e ∷ es) → All (Apart e) es × IsUnique es
IsUnique-tail e es h =
    let n = length-map_ids es in
    let (none_same, rest) = distinct_head (id_of e) (map id_of es) (rw n h) in
    (mem-Apart e es none_same, rest ∙ n)

pub IsUnique-reorder : {xs ys : List Entry} → Reordering xs ys → IsUnique xs → IsUnique ys
IsUnique-reorder p h = sym (length-set_of-reorder (map-reorder id_of p)) ∙ h ∙ length-reorder p

insert-reorder : (e : Entry) (es : List Entry) → Reordering (insert_entry e es) (e ∷ es)
unfolding insert_entry
insert-reorder e [] = reorder_refl (e ∷ [])
insert-reorder e (x ∷ xs) = elim (Bool-cases (before x e)) [
  | inl t ↦
      rw t (Reordering.trans (Reordering.cons x (insert-reorder e xs)) (Reordering.swap x e xs))
  | inr f ↦ rw f (reorder_refl (e ∷ x ∷ xs))
]

pub sort-reorder : (es : List Entry) → Reordering (sort es) es
unfolding sort
sort-reorder [] = Reordering.nil
sort-reorder (e ∷ es) =
    Reordering.trans (insert-reorder e (sort es)) (Reordering.cons e (sort-reorder es))

before-Apart : (e x : Entry) → Apart e x → before x e ≡ false → before e x ≡ true
before-Apart e x apart h = elim (Bool-cases (before e x)) [
  | inl t ↦ t
  | inr f ↦ absurd (apart (before_total e x f h))
]

all_before :
    (e x : Entry) (xs : List Entry)
    → before e x ≡ true
    → All (λ y. before x y ≡ true) xs
    → All (λ y. before e y ≡ true) xs
all_before e x [] h below = tt
all_before e x (y ∷ ys) h below = (before_trans e x y h below.0, all_before e x ys h below.1)

insert-IsAscending :
    (e : Entry) (es : List Entry)
    → All (Apart e) es
    → IsAscending es
    → IsAscending (insert_entry e es)
unfolding insert_entry
insert-IsAscending e [] apart up = (tt, tt)
insert-IsAscending e (x ∷ xs) apart up = elim (Bool-cases (before x e)) [
  | inl t ↦ rw t (
    All-reorder (λ y. before x y ≡ true) (reorder_sym (insert-reorder e xs)) (t, up.0),
    insert-IsAscending e xs apart.1 up.1,
  )
  | inr f ↦
      let first = before-Apart e x apart.0 f in rw f ((first, all_before e x xs first up.0), up)
]

pub sort-IsAscending : (es : List Entry) → IsUnique es → IsAscending (sort es)
unfolding sort
sort-IsAscending [] h = tt
sort-IsAscending (e ∷ es) h =
    let (apart, unique) = IsUnique-tail e es h in
    insert-IsAscending e (sort es) (All-reorder (Apart e) (reorder_sym (sort-reorder es)) apart)
      (sort-IsAscending es unique)

insert_comm :
    (a b : Entry) (es : List Entry)
    → Apart a b
    → All (Apart a) es
    → All (Apart b) es
    → insert_entry a (insert_entry b es) ≡ insert_entry b (insert_entry a es)
unfolding insert_entry
insert_comm a b [] ab ha hb = ground (arith, before_asym a b, before-Apart a b ab, before_asym b a)
insert_comm a b (x ∷ xs) ab ha hb = ground (
  arith,
  before_asym a b,
  before-Apart a b ab,
  before-Apart a x ha.0,
  before-Apart b x hb.0,
  before_trans a x b,
  before_trans b x a,
  before_asym a x,
  before_asym b x,
  before_asym b a,
  insert_comm a b xs ab ha.1 hb.1,
)

-- The order of distinct entries makes no difference to the sorted list.
pub sort-eq-reorder : {xs ys : List Entry} → Reordering xs ys → IsUnique xs → sort xs ≡ sort ys
unfolding sort
sort-eq-reorder Reordering.nil h = refl
sort-eq-reorder (Reordering.cons e {xs} p) h =
    ap (insert_entry e) (sort-eq-reorder p (IsUnique-tail e xs h).1)
sort-eq-reorder (Reordering.swap a b xs) h =
    let (ha, unique) = IsUnique-tail a (b ∷ xs) h in
    let (hb, rest) = IsUnique-tail b xs unique in
    let kept = λ (e : Entry). All-reorder (Apart e) (reorder_sym (sort-reorder xs)) in
    insert_comm a b (sort xs) ha.0 (kept a ha.1) (kept b hb)
sort-eq-reorder (Reordering.trans p q) h =
    sort-eq-reorder p h ∙ sort-eq-reorder q (IsUnique-reorder p h)
