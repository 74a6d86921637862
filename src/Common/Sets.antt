-- ===== src/Common/Sets.antt =====
-- Python's sets of texts: lists without duplicates, whose order means nothing.
use post_quantum_cryptograph.Common.{
  suc, ◌≤◌, ◌≡◌, refl, ap, sym, ◌∙◌, Bool, true, false, ◌&&◌, ◌||◌, List, [], ◌∷◌, ◌++◌, arith,
  if◌then◌else◌, length,
}
use post_quantum_cryptograph.Common.Reordering.{Reordering, length-reorder}
use post_quantum_cryptograph.Common.Bytes.{Bytes, bytes_eq, bytes_eq_iff, bytes_eq_refl, less_text}

-- x in s
unfoldable pub mem : Bytes → List Bytes → Bool
mem x [] = false
mem x (y ∷ s) = bytes_eq x y || mem x s

-- set(xs)
unfoldable pub set_of : List Bytes → List Bytes
set_of [] = []
set_of (x ∷ xs) = let s = set_of xs in if mem x s then s else x ∷ s

-- all(test(x) for x in xs)
unfoldable pub every {ℓ} : {A : Type ℓ} → (A → Bool) → List A → Bool
every test [] = true
every test (x ∷ xs) = test x && every test xs

-- sorted(xs)
unfoldable pub insert_text : Bytes → List Bytes → List Bytes
insert_text x [] = x ∷ []
insert_text x (y ∷ ys) = if less_text y x then y ∷ insert_text x ys else x ∷ y ∷ ys

unfoldable pub sort_texts : List Bytes → List Bytes
sort_texts [] = []
sort_texts (x ∷ xs) = insert_text x (sort_texts xs)

pub mem-set_of : (x : Bytes) (xs : List Bytes) → mem x (set_of xs) ≡ mem x xs
unfolding mem set_of
mem-set_of x [] = refl
mem-set_of x (y ∷ ys) = ground (arith, bytes_eq_iff x y, mem-set_of x ys, mem-set_of y ys)

pub length-set_of_cons :
    (x : Bytes) (xs : List Bytes)
    → length (set_of (x ∷ xs)) ≡ (if mem x xs then length (set_of xs) else suc (length (set_of xs)))
unfolding set_of
length-set_of_cons x xs = ground (arith, mem-set_of x xs)

pub length-set_of-le : (xs : List Bytes) → length (set_of xs) ≤ length xs
unfolding set_of
length-set_of-le [] = omega arith
length-set_of-le (x ∷ xs) = ground (arith, length-set_of-le xs)

mem_cons : (x y : Bytes) (xs : List Bytes) → mem x (y ∷ xs) ≡ (bytes_eq x y || mem x xs)
unfolding mem
mem_cons x y xs = refl

-- Membership and the size of the set do not depend on the order.
pub mem-reorder : (z : Bytes) {xs ys : List Bytes} → Reordering xs ys → mem z xs ≡ mem z ys
unfolding mem
mem-reorder z Reordering.nil = refl
mem-reorder z (Reordering.cons x p) = ap (λ b. bytes_eq z x || b) (mem-reorder z p)
mem-reorder z (Reordering.swap x y xs) = ground (arith, bytes_eq_iff z x, bytes_eq_iff z y)
mem-reorder z (Reordering.trans p q) = mem-reorder z p ∙ mem-reorder z q

pub length-set_of-reorder :
    {xs ys : List Bytes} → Reordering xs ys → length (set_of xs) ≡ length (set_of ys)
length-set_of-reorder Reordering.nil = refl
length-set_of-reorder (Reordering.cons x {xs} {ys} p) = ground (
  arith,
  length-set_of_cons x xs,
  length-set_of_cons x ys,
  mem-reorder x p,
  length-set_of-reorder p,
)
length-set_of-reorder (Reordering.swap x y xs) = ground (
  arith,
  length-set_of_cons x (y ∷ xs),
  length-set_of_cons y (x ∷ xs),
  length-set_of_cons x xs,
  length-set_of_cons y xs,
  mem_cons x y xs,
  mem_cons y x xs,
  bytes_eq_iff x y,
  bytes_eq_iff y x,
)
length-set_of-reorder (Reordering.trans p q) = length-set_of-reorder p ∙ length-set_of-reorder q

-- A set with as many elements as the list: no element of the list comes twice.
pub distinct_head :
    (x : Bytes) (xs : List Bytes)
    → length (set_of (x ∷ xs)) ≡ suc (length xs)
    → (mem x xs ≡ false) × (length (set_of xs) ≡ length xs)
distinct_head x xs h = ground (arith, length-set_of_cons x xs, length-set_of-le xs)

pub distinct_cons :
    (x : Bytes) (xs : List Bytes)
    → mem x xs ≡ false
    → length (set_of xs) ≡ length xs
    → length (set_of (x ∷ xs)) ≡ suc (length xs)
distinct_cons x xs h k = ground (arith, length-set_of_cons x xs)

singleton : (x : Bytes) (s : List Bytes) → mem x s ≡ true → length s ≤ 1 → s ≡ x ∷ []
unfolding mem
singleton x [] h n = cc
singleton x (y ∷ []) h n = ground (arith, bytes_eq_iff x y)
singleton x (y ∷ z ∷ s) h n = absurd (omega arith)

mem_head : (x : Bytes) (xs : List Bytes) → mem x (x ∷ xs) ≡ true
unfolding mem
mem_head x xs = rw (bytes_eq_refl x) refl

-- The set of a list whose elements are all the same.
pub set_of-reorder :
    {xs ys : List Bytes} → Reordering xs ys → length (set_of xs) ≤ 1 → set_of xs ≡ set_of ys
set_of-reorder {xs = []} {ys = []} p n = refl
set_of-reorder {xs = []} {ys = y ∷ ys} p n = absurd (omega (arith, length-reorder p))
set_of-reorder {xs = x ∷ xs} {ys = []} p n = absurd (omega (arith, length-reorder p))
set_of-reorder {xs = x ∷ xs} {ys = y ∷ ys} p n =
    let in_left : mem y (set_of (x ∷ xs)) ≡ true =
      mem-set_of y (x ∷ xs) ∙ mem-reorder y p ∙ mem_head y ys in
    let in_right : mem y (set_of (y ∷ ys)) ≡ true = mem-set_of y (y ∷ ys) ∙ mem_head y ys in
    singleton y _ in_left n ∙ sym (singleton y _ in_right (rw (length-set_of-reorder p) at n))

pub mem-append : (x : Bytes) (s t : List Bytes) → mem x (s ++ t) ≡ (mem x s || mem x t)
unfolding mem
mem-append x [] t = refl
mem-append x (y ∷ s) t = ground (arith, mem-append x s t)

mem-insert_text :
    (x y : Bytes) (s : List Bytes) → mem x (insert_text y s) ≡ (bytes_eq x y || mem x s)
unfolding mem insert_text
mem-insert_text x y [] = refl
mem-insert_text x y (z ∷ s) = ground (arith, mem-insert_text x y s)

pub mem-sort_texts : (x : Bytes) (s : List Bytes) → mem x (sort_texts s) ≡ mem x s
unfolding mem sort_texts
mem-sort_texts x [] = refl
mem-sort_texts x (y ∷ s) = ground (arith, mem-insert_text x y (sort_texts s), mem-sort_texts x s)
