-- ===== src/Common/Sorting.antt =====
-- Insertion sort by an order; no two elements are equal.
use post_quantum_cryptograph.Common.{
  suc, ◌≡◌, refl, ap, ◌∙◌, Bool, true, false, List, [], ◌∷◌, All, length, if◌then◌else◌, Bool-cases,
  inl, inr,
}

unfoldable pub insert_by {ℓ} : {A : Type ℓ} → (A → A → Bool) → A → List A → List A
insert_by less x [] = x ∷ []
insert_by less x (y ∷ ys) = if less y x then y ∷ insert_by less x ys else x ∷ y ∷ ys

unfoldable pub sort_by {ℓ} : {A : Type ℓ} → (A → A → Bool) → List A → List A
sort_by less [] = []
sort_by less (x ∷ xs) = insert_by less x (sort_by less xs)

module _ {ℓ} {A : Type ℓ} (less : A → A → Bool) where
  -- The elements ascend strictly.
  abbrev pub IsStrict : List A → Type 0
  IsStrict [] = Unit
  IsStrict (x ∷ xs) = All (λ y. less x y ≡ true) xs × IsStrict xs

  -- Of any two elements one is less.
  abbrev IsComparable : A → A → Type 0
  IsComparable x y = less y x ≡ false → less x y ≡ true

  abbrev pub IsDistinct : List A → Type 0
  IsDistinct [] = Unit
  IsDistinct (x ∷ xs) = All (IsComparable x) xs × IsDistinct xs

  All-insert_by {κ} :
      (P : A → Type κ) (x : A) (xs : List A) → P x → All P xs → All P (insert_by less x xs)
  unfolding insert_by
  All-insert_by P x [] hx h = (hx, tt)
  All-insert_by P x (y ∷ ys) hx h = elim (Bool-cases (less y x)) [
    | inl t ↦ rw t (h.0, All-insert_by P x ys hx h.1)
    | inr f ↦ rw f (hx, h)
  ]

  pub All-sort_by {κ} : (P : A → Type κ) (xs : List A) → All P xs → All P (sort_by less xs)
  unfolding sort_by
  All-sort_by P [] h = tt
  All-sort_by P (x ∷ xs) h = All-insert_by P x (sort_by less xs) h.0 (All-sort_by P xs h.1)

  length-insert_by : (x : A) (xs : List A) → length (insert_by less x xs) ≡ suc (length xs)
  unfolding insert_by
  length-insert_by x [] = refl
  length-insert_by x (y ∷ ys) = elim (Bool-cases (less y x)) [
    | inl t ↦ rw t (ap suc (length-insert_by x ys))
    | inr f ↦ rw f refl
  ]

  pub length-sort_by : (xs : List A) → length (sort_by less xs) ≡ length xs
  unfolding sort_by
  length-sort_by [] = refl
  length-sort_by (x ∷ xs) = length-insert_by x (sort_by less xs) ∙ ap suc (length-sort_by xs)

  module _ (trans : (x y z : A) → less x y ≡ true → less y z ≡ true → less x z ≡ true) where
    all_above :
        (x y : A) (zs : List A)
        → less x y ≡ true
        → All (λ z. less y z ≡ true) zs
        → All (λ z. less x z ≡ true) zs
    all_above x y [] h up = tt
    all_above x y (z ∷ zs) h up = (trans x y z h up.0, all_above x y zs h up.1)

    insert_by-IsStrict :
        (x : A) (xs : List A)
        → All (IsComparable x) xs
        → IsStrict xs
        → IsStrict (insert_by less x xs)
    unfolding insert_by
    insert_by-IsStrict x [] apart up = (tt, tt)
    insert_by-IsStrict x (y ∷ ys) apart up = elim (Bool-cases (less y x)) [
      | inl t ↦ rw t (All-insert_by _ x ys t up.0, insert_by-IsStrict x ys apart.1 up.1)
      | inr f ↦ rw f ((apart.0 f, all_above x y ys (apart.0 f) up.0), up)
    ]

    pub sort_by-IsStrict : (xs : List A) → IsDistinct xs → IsStrict (sort_by less xs)
    unfolding sort_by
    sort_by-IsStrict [] h = tt
    sort_by-IsStrict (x ∷ xs) h =
        insert_by-IsStrict x (sort_by less xs) (All-sort_by (IsComparable x) xs h.0)
          (sort_by-IsStrict xs h.1)
