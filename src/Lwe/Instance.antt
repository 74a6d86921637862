-- ===== src/Lwe/Instance.antt =====
-- When a toy instance is generated (lwe_toy.py, lines 253 to 319).
use Prim.Native.Nat.{zero, suc}
use post_quantum_cryptograph.Common.{
  ℕ, ◌+◌, ◌*◌, ◌%◌, ◌≤◌, ◌<◌, ◌≡◌, refl, ap, ◌∙◌, Option, none, some, List, arith, length,
  get_elem?, All, Bool-cases, ltb, inl, inr,
}
use post_quantum_cryptograph.Lwe.{
  Draws, mod_ℤ, tabulate, sample_error, inner_product, compute_t, ToyInstance, dimension, secret_of,
  matrix_of, generate_toy_lwe_instance,
}

get_elem?-tabulate {ℓ} :
    {A : Type ℓ} (k n j : ℕ) (f : ℕ → A) → j < n → get_elem? (tabulate k n f) j ≡ some (f (k + j))
unfolding tabulate
get_elem?-tabulate k zero j f h = absurd (omega arith)
get_elem?-tabulate k (suc n) zero f h = ap (λ i. some (f i)) (omega arith)
get_elem?-tabulate k (suc n) (suc j) f h =
    get_elem?-tabulate (k + 1) n j f (omega arith) ∙ ap (λ i. some (f i)) (omega arith)

get_elem?-tabulate_zero {ℓ} :
    {A : Type ℓ} (n j : ℕ) (f : ℕ → A) → j < n → get_elem? (tabulate 0 n f) j ≡ some (f j)
get_elem?-tabulate_zero n j f h = get_elem?-tabulate 0 n j f h ∙ ap (λ i. some (f i)) (omega arith)

get_elem?-tabulate_past {ℓ} :
    {A : Type ℓ} (k n j : ℕ) (f : ℕ → A) → n ≤ j → get_elem? (tabulate k n f) j ≡ none
unfolding tabulate
get_elem?-tabulate_past k zero j f h = refl
get_elem?-tabulate_past k (suc n) zero f h = absurd (omega arith)
get_elem?-tabulate_past k (suc n) (suc j) f h = get_elem?-tabulate_past (k + 1) n j f (omega arith)

length-tabulate {ℓ} : {A : Type ℓ} (k n : ℕ) (f : ℕ → A) → length (tabulate k n f) ≡ n
unfolding tabulate
length-tabulate k zero f = refl
length-tabulate k (suc n) f = ap suc (length-tabulate (k + 1) n f)

-- The sum that an inner product stands for.
abbrev pub sum_of : ℕ → ℕ → (ℕ → ℕ) → (ℕ → ℕ) → ℕ
sum_of k zero f g = 0
sum_of k (suc n) f g = f k * g k + sum_of (k + 1) n f g

inner_product-tabulate :
    (k n r m : ℕ) (f g : ℕ → ℕ)
    → k + n ≤ r
    → k + n ≤ m
    → inner_product k n (tabulate 0 r f) (tabulate 0 m g) ≡ some (sum_of k n f g)
unfolding inner_product
inner_product-tabulate k zero r m f g h₁ h₂ = refl
inner_product-tabulate k (suc n) r m f g h₁ h₂ =
    rw
      (
        get_elem?-tabulate_zero r k f (omega arith),
        get_elem?-tabulate_zero m k g (omega arith),
        inner_product-tabulate (k + 1) n r m f g (omega arith) (omega arith),
      )
      refl

inner_product_short :
    (k n r m : ℕ) (f g : ℕ → ℕ)
    → k + n ≤ r
    → k ≤ m
    → m < k + n
    → inner_product k n (tabulate 0 r f) (tabulate 0 m g) ≡ none
unfolding inner_product
inner_product_short k zero r m f g h₁ h₂ h₃ = absurd (omega arith)
inner_product_short k (suc n) r m f g h₁ h₂ h₃ = elim (Bool-cases (ltb k m)) [
  | inl lt ↦
      let before : k < m = ground arith in
      rw
        (
          get_elem?-tabulate_zero r k f (omega arith),
          get_elem?-tabulate_zero m k g before,
          inner_product_short (k + 1) n r m f g (omega arith) (omega (arith, before)) (omega arith),
        )
        refl
  | inr ge ↦
      let at_end : m ≤ k = ground arith in
      rw (get_elem?-tabulate_zero r k f (omega arith), get_elem?-tabulate_past 0 m k g at_end) refl
]

compute_t-tabulate :
    (n q e0 m k rows : ℕ) (g : ℕ → ℕ) (entry : ℕ → ℕ → ℕ)
    → n ≤ m
    → compute_t n q e0 (tabulate 0 m g) (tabulate k rows (λ i. tabulate 0 n (entry i)))
      ≡ some (tabulate k rows (λ i. (sum_of 0 n (entry i) g % q + e0) % q))
unfolding compute_t tabulate
compute_t-tabulate n q e0 m k zero g entry h = refl
compute_t-tabulate n q e0 m k (suc rows) g entry h =
    rw
      (
        inner_product-tabulate 0 n n m (entry k) g (omega arith) (omega arith),
        compute_t-tabulate n q e0 m (k + 1) rows g entry h,
      )
      refl

compute_t_short :
    (n q e0 m k rows : ℕ) (g : ℕ → ℕ) (entry : ℕ → ℕ → ℕ)
    → 0 < rows
    → m < n
    → compute_t n q e0 (tabulate 0 m g) (tabulate k rows (λ i. tabulate 0 n (entry i))) ≡ none
unfolding compute_t tabulate
compute_t_short n q e0 m k zero g entry some_row h = absurd (omega arith)
compute_t_short n q e0 m k (suc rows) g entry some_row h =
    rw (inner_product_short 0 n n m (entry k) g (omega arith) (omega arith) (omega arith)) refl

All-tabulate : (P : ℕ → Type 0) (k n : ℕ) (f : ℕ → ℕ) → ((i : ℕ) → P (f i)) → All P (tabulate k n f)
unfolding tabulate
All-tabulate P k zero f h = tt
All-tabulate P k (suc n) f h = (h k, All-tabulate P (k + 1) n f h)

-- The error that a draw becomes.
abbrev pub error : Draws → ℕ → ℕ
error d i = mod_ℤ (d.gauss i) d.q

abbrev pub scalar_error : Draws → ℕ
scalar_error d = mod_ℤ d.scalar d.q % d.q

-- For a positive modulus and at least one row: an instance is generated exactly if its dimension is
-- no larger than the number of its rows, and otherwise an index is out of range. An instance has one
-- value below the modulus for each row: the row times the vector of errors, plus the scalar error.
pub generate_toy_lwe_instance_lem :
    (secret : Option (List ℕ)) (d : Draws)
    → 0 < d.q
    → 0 < d.m
    → let n = dimension secret d in
      (n ≤ d.m
        → (inst : ToyInstance) × (generate_toy_lwe_instance secret d ≡ some inst)
          × (inst.t
              ≡ tabulate 0 d.m
                  (λ i. (sum_of 0 n (d.entry i) (error d) % d.q + scalar_error d) % d.q))
          × (length inst.t ≡ d.m)
          × All (λ x. x < d.q) inst.t)
      × (d.m < n → generate_toy_lwe_instance secret d ≡ none)
unfolding generate_toy_lwe_instance sample_error
generate_toy_lwe_instance_lem secret d hq hm =
    let n = dimension secret d in
    let f : ℕ → ℕ = λ i. (sum_of 0 n (d.entry i) (error d) % d.q + scalar_error d) % d.q in
    (
      λ fits.
          ((
            record {
              n = n;
              m = d.m;
              q = d.q;
              secret = secret_of secret d;
              matrix_A = matrix_of n d;
              error_vector = tabulate 0 d.m (error d);
              error_scalar = scalar_error d;
              t = tabulate 0 d.m f;
            },
            rw (compute_t-tabulate n d.q (scalar_error d) d.m 0 d.m (error d) d.entry fits) refl,
            refl,
            length-tabulate 0 d.m f,
            All-tabulate (λ x. x < d.q) 0 d.m f (λ i. omega (arith, hq)),
          )),
      λ short.
          rw (compute_t_short n d.q (scalar_error d) d.m 0 d.m (error d) d.entry hm short) refl,
    )
