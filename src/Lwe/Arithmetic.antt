-- ===== src/Lwe/Arithmetic.antt =====
-- The overflow checks of modular arithmetic (lwe_toy.py, lines 21 to 162).
use native.Mathlib.Nat.{mul-le-mul_left, mul-le-mul_right}
use post_quantum_cryptograph.Common.{
  ℕ, ◌*◌, ◌^◌, ◌≤◌, ◌<◌, ◌≡◌, ◌≢◌, ◌↔◌, refl, true, false, ◌&&◌, arith,
}
use post_quantum_cryptograph.Common.Int.{ℤ, pos, negsuc, ◌+ℤ◌, ◌-ℤ◌, ◌*ℤ◌, ◌≤ℤ◌, ltb_ℤ}
use post_quantum_cryptograph.Lwe.{
  max_safe, max_modulus_safe, mod_ℤ, check_overflow_risk, check_ntt_overflow_risk,
}

product-le : (a b q : ℕ) → a < q → b < q → q ≤ max_modulus_safe → a * b ≤ max_safe
product-le a b q h k l =
    let first : a * b ≤ 2147483647 * b = mul-le-mul_right b (omega arith) in
    let below : b ≤ 2147483647 = omega arith in
    let second : 2147483647 * b ≤ 2147483647 * 2147483647 = mul-le-mul_left 2147483647 below in
    omega (arith, first, second)

-- What a signed machine integer of 64 bits keeps of an integer.
abbrev pub wrap64 : ℤ → ℤ
wrap64 p = pos (mod_ℤ (p +ℤ pos (2 ^ 63)) (2 ^ 64)) -ℤ pos (2 ^ 63)

wrap64-natural : (n : ℕ) → (wrap64 (pos n) ≡ pos n) ↔ (n ≤ max_safe)
unfolding ◌+ℤ◌ ◌-ℤ◌
wrap64-natural n = ground arith

risk_of :
    {W : Type 0} (n : ℕ) (q : ℤ)
    → q ≤ℤ pos max_safe
    → (W ↔ (n ≤ max_safe))
    → ((ltb_ℤ (pos max_safe) (pos n) && ltb_ℤ q (pos n)) ≡ true) ↔ ((pos 0 ≤ℤ pos n) × (W → ⊥))
risk_of n q h fits = (
  λ risk. (omega arith, λ w. let small = fits.0 w in ground arith),
  λ (_, wraps). let large : n ≤ max_safe → ⊥ = (λ k. wraps (fits.1 k)) in ground arith,
)

risk-wrap64 :
    (p q : ℤ)
    → q ≤ℤ pos max_safe
    → ((ltb_ℤ (pos max_safe) p && ltb_ℤ q p) ≡ true) ↔ ((pos 0 ≤ℤ p) × (wrap64 p ≢ p))
risk-wrap64 (pos n) q h = risk_of n q h (wrap64-natural n)
risk-wrap64 (negsuc n) q h =
    (λ risk. absurd (ground arith), λ (nonneg, _). absurd (omega (arith, nonneg)))

exceeds-risk :
    (p q : ℤ) → q ≤ℤ pos max_safe → ltb_ℤ (pos max_safe) p ≡ (ltb_ℤ (pos max_safe) p && ltb_ℤ q p)
exceeds-risk p q h = ground arith

-- Whatever integers the operands are, for a modulus of at most 2^63 - 1: both checks report a risk,
-- and a product that exceeds 64 bits, exactly if the product is not negative and signed 64-bit
-- arithmetic, which wraps around, would not keep it. So the checks miss no product that is too large
-- and give no false alarm, but never report a negative product, even one that wraps.
pub overflow_risk_iff :
    (a b q : ℤ)
    → q ≤ℤ pos max_safe
    → let risk = check_overflow_risk a b q in
      let wraps = (pos 0 ≤ℤ a *ℤ b) × (wrap64 (a *ℤ b) ≢ a *ℤ b) in
      ((risk.overflow_risk ≡ true) ↔ wraps)
      × ((risk.product_exceeds_64bit ≡ true) ↔ wraps)
      × (check_ntt_overflow_risk a b q ≡ risk)
unfolding check_overflow_risk check_ntt_overflow_risk
overflow_risk_iff a b q h =
    let exact = risk-wrap64 (a *ℤ b) q h in (exact, rw (exceeds-risk (a *ℤ b) q h) exact, refl)

-- No product of operands below a modulus up to `MAX_MODULUS_SAFE` is reported.
no_overflow :
    (a b q : ℕ)
    → a < q
    → b < q
    → q ≤ max_modulus_safe
    → (check_overflow_risk (pos a) (pos b) (pos q)).overflow_risk ≡ false
unfolding check_overflow_risk ◌*ℤ◌
no_overflow a b q h k l = let small = product-le a b q h k l in ground arith
