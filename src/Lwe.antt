-- ===== src/Lwe.antt =====
-- src/pqc_bench/lwe_toy.py, lines 21 to 319: modular arithmetic with its overflow checks, and toy LWE
-- instances.
--
-- A modulus of zero raises `ZeroDivisionError`, which is `none`. The draws of `random` are the record
-- `Draws`; a Gaussian draw is the integer that `int` makes of it.
pub mod Arithmetic
pub mod Instance
mod Examples
use Prim.Native.Nat.{zero, suc}
use post_quantum_cryptograph.Common.{
  ℕ, ◌+◌, ◌-◌, ◌*◌, ◌%◌, ◌^◌, ◌≤◌, Bool, ◌&&◌, Option, none, some, List, [], ◌∷◌, ltb, ◌==◌,
  if◌then◌else◌, length, get_elem?, map,
}
use post_quantum_cryptograph.Common.Int.{ℤ, pos, negsuc, ◌+ℤ◌, ◌-ℤ◌, ◌*ℤ◌, ltb_ℤ}

infixl 5 ◌>>=◌
abbrev pub ◌>>=◌ {ℓ κ} : {A : Type ℓ} {B : Type κ} → Option A → (A → Option B) → Option B
none >>= f = none
some a >>= f = f a

abbrev pub max_safe : ℕ
max_safe = 2 ^ 63 - 1

abbrev pub max_modulus_safe : ℕ
max_modulus_safe = 2 ^ 31 - 1

-- z % q in Python, for a positive q
abbrev pub mod_ℤ : ℤ → ℕ → ℕ
mod_ℤ (pos a) q = a % q
mod_ℤ (negsuc a) q = (q - suc a % q) % q

-- a % q in Python: the remainder has the sign of q.
unfoldable pub remainder : ℤ → ℤ → Option ℤ
remainder a (pos q) = if q == 0 then none else some (pos (mod_ℤ a q))
remainder a (negsuc q) = some (pos 0 -ℤ pos (mod_ℤ (pos 0 -ℤ a) (suc q)))

unfoldable pub safe_modular_mul : ℤ → ℤ → ℤ → Option ℤ
safe_modular_mul a b q = remainder (a *ℤ b) q

unfoldable pub safe_modular_add : ℤ → ℤ → ℤ → Option ℤ
safe_modular_add a b q = remainder (a +ℤ b) q

unfoldable pub safe_ntt_coeff_mul : ℤ → ℤ → ℤ → Option ℤ
safe_ntt_coeff_mul a b q = remainder (a *ℤ b) q

pub record Risk : Type 0 where
  pub product : ℤ
  pub product_exceeds_64bit : Bool
  pub overflow_risk : Bool
  pub both_operands_less_than_q : Bool

unfoldable pub check_overflow_risk : ℤ → ℤ → ℤ → Risk
check_overflow_risk a b q =
    let product = a *ℤ b in
    record {
      product = product;
      product_exceeds_64bit = ltb_ℤ (pos max_safe) product;
      overflow_risk = ltb_ℤ (pos max_safe) product && ltb_ℤ q product;
      both_operands_less_than_q = ltb_ℤ a q && ltb_ℤ b q;
    }

-- `check_ntt_overflow_risk` has the same body.
unfoldable pub check_ntt_overflow_risk : ℤ → ℤ → ℤ → Risk
check_ntt_overflow_risk a b q =
    let product = a *ℤ b in
    record {
      product = product;
      product_exceeds_64bit = ltb_ℤ (pos max_safe) product;
      overflow_risk = ltb_ℤ (pos max_safe) product && ltb_ℤ q product;
      both_operands_less_than_q = ltb_ℤ a q && ltb_ℤ b q;
    }

-- `TOY_LWE_PARAMETERS`, without the factors of the deviation.
pub data ParamKey : Type 0 where
  tiny small medium : ParamKey

pub record Ranges : Type 0 where
  pub n_min : ℕ
  pub n_max : ℕ
  pub m_min : ℕ
  pub m_max : ℕ
  pub q_min : ℕ
  pub q_max : ℕ

abbrev pub toy_parameters : ParamKey → Ranges
toy_parameters tiny = record { n_min = 2; n_max = 6; m_min = 5; m_max = 10; q_min = 2; q_max = 32 }
toy_parameters small = record {
  n_min = 5;
  n_max = 10;
  m_min = 10;
  m_max = 20;
  q_min = 2;
  q_max = 64;
}
toy_parameters medium = record {
  n_min = 10;
  n_max = 15;
  m_min = 20;
  m_max = 30;
  q_min = 2;
  q_max = 128;
}

-- What `random` returns: the dimensions, and the draws by their position.
pub record Draws : Type 0 where
  pub n : ℕ
  pub m : ℕ
  pub q : ℕ
  pub secret : ℕ → ℕ
  pub entry : ℕ → ℕ → ℕ
  pub gauss : ℕ → ℤ
  pub scalar : ℤ

-- [f(i) for i in range(k, k + n)]
unfoldable pub tabulate {ℓ} : {A : Type ℓ} → ℕ → ℕ → (ℕ → A) → List A
tabulate k zero f = []
tabulate k (suc n) f = f k ∷ tabulate (k + 1) n f

unfoldable pub sample_error : ℕ → ℕ → (ℕ → ℤ) → List ℕ
sample_error n q gauss = tabulate 0 n (λ i. mod_ℤ (gauss i) q)

-- sum(row[j] * e[j] for j in range(k, k + n)), where `none` is an `IndexError`
unfoldable pub inner_product : ℕ → ℕ → List ℕ → List ℕ → Option ℕ
inner_product k zero row e = some 0
inner_product k (suc n) row e = do
  a ← get_elem? row k
  b ← get_elem? e k
  rest ← inner_product (k + 1) n row e
  some (a * b + rest)

-- The loop over the rows, lines 302 to 306.
unfoldable pub compute_t : ℕ → ℕ → ℕ → List ℕ → List (List ℕ) → Option (List ℕ)
compute_t n q e0 e [] = some []
compute_t n q e0 e (row ∷ rows) = do
  sum ← inner_product 0 n row e
  rest ← compute_t n q e0 e rows
  some ((sum % q + e0) % q ∷ rest)

pub record ToyInstance : Type 0 where
  pub n : ℕ
  pub m : ℕ
  pub q : ℕ
  pub secret : List ℕ
  pub matrix_A : List (List ℕ)
  pub error_vector : List ℕ
  pub error_scalar : ℕ
  pub t : List ℕ

-- A secret that is given fixes the dimension.
abbrev pub dimension : Option (List ℕ) → Draws → ℕ
dimension none d = d.n
dimension (some s) d = length s

abbrev pub secret_of : Option (List ℕ) → Draws → List ℕ
secret_of none d = tabulate 0 d.n d.secret
secret_of (some s) d = s

abbrev pub matrix_of : ℕ → Draws → List (List ℕ)
matrix_of n d = tabulate 0 d.m (λ i. tabulate 0 n (d.entry i))

unfoldable pub generate_toy_lwe_instance : Option (List ℕ) → Draws → Option ToyInstance
generate_toy_lwe_instance secret d =
    let n = dimension secret d in
    let e = sample_error d.m d.q d.gauss in
    let e0 = mod_ℤ d.scalar d.q % d.q in
    (do
      t ← compute_t n d.q e0 e (matrix_of n d)
      some (record {
        n = n;
        m = d.m;
        q = d.q;
        secret = secret_of secret d;
        matrix_A = matrix_of n d;
        error_vector = e;
        error_scalar = e0;
        t = t;
      }))
