-- ===== src/Fuzzing/Spread.antt =====
-- When timings vary too much (ct_fuzzer.py, lines 175 to 229).
use post_quantum_cryptograph.Common.{
  ℕ, ◌+◌, ◌≡◌, refl, ◌∙◌, Bool, not, List, [], ◌∷◌, ltb, leb, arith, if◌then◌else◌,
}
use post_quantum_cryptograph.Common.Sets.{every}
use post_quantum_cryptograph.Fuzzing.{min_of, max_of, analyze_timings}

-- No two timings are further apart than the threshold.
abbrev pub all_close : ℕ → List ℕ → Bool
all_close threshold ts = every (λ x. every (λ y. leb x (y + threshold)) ts) ts

every-same {ℓ} :
    {A : Type ℓ} (f g : A → Bool) (xs : List A) → ((x : A) → f x ≡ g x) → every f xs ≡ every g xs
unfolding every
every-same f g [] h = refl
every-same f g (x ∷ xs) h = rw (h x, every-same f g xs h) refl

every-below : (m a : ℕ) (xs : List ℕ) → every (λ x. leb x m) (a ∷ xs) ≡ leb (max_of a xs) m
unfolding every max_of
every-below m a [] = ground arith
every-below m a (x ∷ xs) = let here = every-below m (if ltb a x then x else a) xs in ground arith

every-above :
    (m t a : ℕ) (xs : List ℕ) → every (λ y. leb m (y + t)) (a ∷ xs) ≡ leb m (min_of a xs + t)
unfolding every min_of
every-above m t a [] = ground arith
every-above m t a (x ∷ xs) =
    let here = every-above m t (if ltb x a then x else a) xs in ground arith

all_close-range :
    (threshold a : ℕ) (xs : List ℕ)
    → all_close threshold (a ∷ xs) ≡ leb (max_of a xs) (min_of a xs + threshold)
all_close-range threshold a xs =
    every-same (λ x. every (λ y. leb x (y + threshold)) (a ∷ xs))
      (λ x. leb x (min_of a xs + threshold)) (a ∷ xs) (λ x. every-above x threshold a xs)
    ∙ every-below (min_of a xs + threshold) a xs

pub exceeds-all_close :
    (threshold : ℕ) (ts : List ℕ)
    → let a = analyze_timings threshold ts in
      (a.variance_exceeds_threshold ≡ not (all_close threshold ts))
      × (a.safe_from_timing_side_channels ≡ all_close threshold ts)
unfolding every
exceeds-all_close threshold [] = (refl, refl)
exceeds-all_close threshold (t ∷ []) = (ground arith, ground arith)
exceeds-all_close threshold (t ∷ u ∷ ts) =
    rw (all_close-range threshold t (u ∷ ts)) (ground arith, ground arith)
