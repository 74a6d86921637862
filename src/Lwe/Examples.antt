-- ===== src/Lwe/Examples.antt =====
-- The theorems about lwe_toy.py at concrete inputs.
use post_quantum_cryptograph.Common.{
  true, ◌↔◌, ◌≢◌, ◌+◌, ◌%◌, ◌≤◌, ◌<◌, ◌≡◌, refl, false, none, some, arith, length, All,
}
use post_quantum_cryptograph.Common.Int.{pos, negsuc, ◌*ℤ◌, ◌+ℤ◌, ◌-ℤ◌, ◌≤ℤ◌}
use post_quantum_cryptograph.Lwe.{
  safe_modular_mul, safe_ntt_coeff_mul, safe_modular_add, remainder, check_overflow_risk,
  check_ntt_overflow_risk, Draws, ToyInstance, tabulate, generate_toy_lwe_instance, compute_t,
  inner_product, sample_error,
}
use post_quantum_cryptograph.Lwe.Arithmetic.{wrap64, overflow_risk_iff}
use post_quantum_cryptograph.Lwe.Instance.{
  sum_of, error, scalar_error, generate_toy_lwe_instance_lem,
}

-- 2 ^ 32 times itself does not fit.
overflow_risk_iff_example :
    let a = pos 4294967296 in
    let risk = check_overflow_risk a a (pos 2147483647) in
    let wraps = (pos 0 ≤ℤ a *ℤ a) × (wrap64 (a *ℤ a) ≢ a *ℤ a) in
    ((risk.overflow_risk ≡ true) ↔ wraps)
    × ((risk.product_exceeds_64bit ≡ true) ↔ wraps)
    × (check_ntt_overflow_risk a a (pos 2147483647) ≡ risk)
overflow_risk_iff_example =
    overflow_risk_iff (pos 4294967296) (pos 4294967296) (pos 2147483647) (omega arith)

reported : (check_overflow_risk (pos 4294967296) (pos 4294967296) (pos 3329)).overflow_risk ≡ true
unfolding check_overflow_risk ◌*ℤ◌
reported = refl

-- A negative product that wraps is not reported.
negative_unreported :
    (check_overflow_risk (negsuc 4294967295) (pos 4294967296) (pos 3329)).overflow_risk ≡ false
unfolding check_overflow_risk ◌*ℤ◌
negative_unreported = refl

-- The remainder has the sign of the modulus.
remainders :
    (safe_modular_mul (negsuc 6) (pos 3) (pos 5) ≡ some (pos 4))
    × (safe_ntt_coeff_mul (pos 7) (pos 3) (negsuc 4) ≡ some (negsuc 3))
    × (safe_modular_add (pos 7) (pos 3) (pos 0) ≡ none)
unfolding safe_modular_mul safe_ntt_coeff_mul safe_modular_add remainder ◌*ℤ◌ ◌+ℤ◌ ◌-ℤ◌
remainders = (refl, refl, refl)

-- Draws for the set tiny with the dimension 2.
abbrev draws : Draws
draws = record {
  n = 2;
  m = 5;
  q = 7;
  secret = λ i. i;
  entry = λ i j. i + j;
  gauss = λ i. negsuc i;
  scalar = pos 3;
}

generate_toy_lwe_instance_lem_example :
    (2 ≤ 5
      → (inst : ToyInstance) × (generate_toy_lwe_instance none draws ≡ some inst)
        × (inst.t
            ≡ tabulate 0 5
                (λ i. (sum_of 0 2 (draws.entry i) (error draws) % 7 + scalar_error draws) % 7))
        × (length inst.t ≡ 5)
        × All (λ x. x < 7) inst.t)
    × (5 < 2 → generate_toy_lwe_instance none draws ≡ none)
generate_toy_lwe_instance_lem_example =
    generate_toy_lwe_instance_lem none draws (omega arith) (omega arith)

-- The set tiny admits the dimension 6 with 5 rows, at which an index is out of range.
tiny_out_of_range : generate_toy_lwe_instance none (record draws { n = 6 }) ≡ none
unfolding generate_toy_lwe_instance compute_t inner_product sample_error tabulate
tiny_out_of_range = refl
