-- ===== src/Common/Reordering.antt =====
-- Lists that hold the same elements in another order: the library's `Perm` with its steps kept, so
-- that a proof can go through them.
use mathlib.Core.List.{Perm}
use mathlib.Core.List.Perm
use post_quantum_cryptograph.Common.{◌≡◌, refl, ap, ◌∙◌, List, [], ◌∷◌, map, length, suc, All}

pub data Reordering {ℓ} {A : Type ℓ} : List A → List A → Type ℓ where
  nil : Reordering [] []
  cons : (x : A) {xs ys : List A} → Reordering xs ys → Reordering (x ∷ xs) (x ∷ ys)
  swap : (x y : A) (xs : List A) → Reordering (x ∷ y ∷ xs) (y ∷ x ∷ xs)
  trans : {xs ys zs : List A} → Reordering xs ys → Reordering ys zs → Reordering xs zs

module _ {ℓ} {A : Type ℓ} where
  pub reorder_refl : (xs : List A) → Reordering xs xs
  reorder_refl [] = Reordering.nil
  reorder_refl (x ∷ xs) = Reordering.cons x (reorder_refl xs)

  pub reorder_sym : {xs ys : List A} → Reordering xs ys → Reordering ys xs
  reorder_sym Reordering.nil = Reordering.nil
  reorder_sym (Reordering.cons x p) = Reordering.cons x (reorder_sym p)
  reorder_sym (Reordering.swap x y xs) = Reordering.swap y x xs
  reorder_sym (Reordering.trans p q) = Reordering.trans (reorder_sym q) (reorder_sym p)

  pub Reordering-Perm : {xs ys : List A} → Reordering xs ys → Perm xs ys
  Reordering-Perm Reordering.nil = Perm.rfl
  Reordering-Perm (Reordering.cons x p) = Perm.cons x (Reordering-Perm p)
  Reordering-Perm (Reordering.swap x y xs) = Perm.swap y x xs
  Reordering-Perm (Reordering.trans p q) = Perm.trans (Reordering-Perm p) (Reordering-Perm q)

  pub length-reorder : {xs ys : List A} → Reordering xs ys → length xs ≡ length ys
  length-reorder Reordering.nil = refl
  length-reorder (Reordering.cons x p) = ap suc (length-reorder p)
  length-reorder (Reordering.swap x y xs) = refl
  length-reorder (Reordering.trans p q) = length-reorder p ∙ length-reorder q

  pub All-reorder {κ} : (P : A → Type κ) {xs ys : List A} → Reordering xs ys → All P xs → All P ys
  All-reorder P Reordering.nil h = h
  All-reorder P (Reordering.cons x p) h = (h.0, All-reorder P p h.1)
  All-reorder P (Reordering.swap x y xs) h = (h.1.0, (h.0, h.1.1))
  All-reorder P (Reordering.trans p q) h = All-reorder P q (All-reorder P p h)

pub map-reorder {ℓ κ} :
    {A : Type ℓ} {B : Type κ} (f : A → B) {xs ys : List A}
    → Reordering xs ys
    → Reordering (map f xs) (map f ys)
map-reorder f Reordering.nil = Reordering.nil
map-reorder f (Reordering.cons x p) = Reordering.cons (f x) (map-reorder f p)
map-reorder f (Reordering.swap x y xs) = Reordering.swap (f x) (f y) (map f xs)
map-reorder f (Reordering.trans p q) = Reordering.trans (map-reorder f p) (map-reorder f q)
