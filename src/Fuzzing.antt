-- ===== src/Fuzzing.antt =====
-- src/pqc_bench/fuzzing/ct_fuzzer.py: fuzzing of an implementation, and the report of the timings.
--
-- An implementation is called once for each trial, with a ciphertext that is chosen at random; what
-- each call does, and the nanoseconds that it takes, are arguments. The clock does not go back, and a
-- threshold is not negative. The timing statistics in floating point and the percentage of the range
-- are left out.
pub mod Spread
pub mod Totals
mod Examples
use post_quantum_cryptograph.Common.{
  ℕ, suc, ◌+◌, ◌-◌, ◌*◌, Bool, true, false, not, ◌||◌, List, [], ◌∷◌, ◌++◌, map, ltb, leb, length,
  if◌then◌else◌,
}
use post_quantum_cryptograph.Common.Bytes.{Bytes}
use post_quantum_cryptograph.Common.Sets.{set_of}
use post_quantum_cryptograph.Common.Table.{Table}

pub data Outcome : Type 0 where
  returned : Outcome
  raised : Bytes → Bytes → Outcome

pub record Trial : Type 0 where
  pub ciphertext : Bytes
  pub outcome : Outcome
  pub elapsed_ns : ℕ

pub record Timing : Type 0 where
  pub iteration : ℕ
  pub ciphertext_len : ℕ
  pub elapsed_ns : ℕ

pub record Failed : Type 0 where
  pub iteration : ℕ
  pub ciphertext_len : ℕ
  pub error_type : Bytes
  pub error_msg : Bytes
  pub elapsed_ns : ℕ

-- The entry of a failure holds what its exception's entry holds, and is left out.
pub record Results : Type 0 where
  pub timing_data : List Timing
  pub exceptions : List Failed
  pub passed : Bool

abbrev pub after_call : ℕ → Trial → Outcome → Results → Results
after_call i t returned r = record r {
  timing_data =
      r.timing_data
      ++ (record { iteration = i; ciphertext_len = length t.ciphertext; elapsed_ns = t.elapsed_ns }
          ∷ []);
}
after_call i t (raised kind message) r = record r {
  exceptions =
      r.exceptions
      ++ (record {
        iteration = i;
        ciphertext_len = length t.ciphertext;
        error_type = kind;
        error_msg = message;
        elapsed_ns = t.elapsed_ns;
      }
          ∷ []);
  passed = false;
}

-- The loop over the iterations, from the i-th on.
unfoldable pub fuzz_from : ℕ → List Trial → Results → Results
fuzz_from i [] r = r
fuzz_from i (t ∷ ts) r = fuzz_from (suc i) ts (after_call i t t.outcome r)

abbrev pub no_results : Results
no_results = record { timing_data = []; exceptions = []; passed = true }

abbrev pub constant_time_fuzz : List Trial → Results
constant_time_fuzz trials = fuzz_from 0 trials no_results

-- min and max
unfoldable pub min_of : ℕ → List ℕ → ℕ
min_of a [] = a
min_of a (x ∷ xs) = min_of (if ltb x a then x else a) xs

unfoldable pub max_of : ℕ → List ℕ → ℕ
max_of a [] = a
max_of a (x ∷ xs) = max_of (if ltb a x then x else a) xs

pub record Analysis : Type 0 where
  pub min_time_ns : ℕ
  pub max_time_ns : ℕ
  pub variance_ns : ℕ
  pub variance_exceeds_threshold : Bool
  pub safe_from_timing_side_channels : Bool

abbrev pub analyze_timings : ℕ → List ℕ → Analysis
analyze_timings threshold [] = record {
  min_time_ns = 0;
  max_time_ns = 0;
  variance_ns = 0;
  variance_exceeds_threshold = false;
  safe_from_timing_side_channels = true;
}
analyze_timings threshold (t ∷ []) = record {
  min_time_ns = t;
  max_time_ns = t;
  variance_ns = 0;
  variance_exceeds_threshold = false;
  safe_from_timing_side_channels = true;
}
analyze_timings threshold (t ∷ u ∷ ts) =
    let low = min_of t (u ∷ ts) in
    let high = max_of t (u ∷ ts) in
    record {
      min_time_ns = low;
      max_time_ns = high;
      variance_ns = high - low;
      variance_exceeds_threshold = ltb threshold (high - low);
      safe_from_timing_side_channels = leb (high - low) threshold;
    }

abbrev pub timings_of : List Timing → List ℕ
timings_of = map (λ t. t.elapsed_ns)

abbrev pub analyze_timing_variance : ℕ → Results → Analysis
analyze_timing_variance threshold r = analyze_timings threshold (timings_of r.timing_data)

pub record ExceptionSummary : Type 0 where
  pub exception_count : ℕ
  pub exception_types : List Bytes

pub data Recommendation : Type 0 where
  review_failures audit_variance validate_inputs : Recommendation

pub record Report : Type 0 where
  pub total_implementations_tested : ℕ
  pub total_passed : ℕ
  pub total_failed : ℕ
  pub total_exceptions : ℕ
  pub timing_analysis : Table Analysis
  pub exception_summary : Table ExceptionSummary
  pub recommendations : List Recommendation

unfoldable pub count_passed : Table Results → ℕ
count_passed [] = 0
count_passed ((name, r) ∷ rs) = (if r.passed then 1 else 0) + count_passed rs

unfoldable pub count_failed : Table Results → ℕ
count_failed [] = 0
count_failed ((name, r) ∷ rs) = (if r.passed then 0 else 1) + count_failed rs

unfoldable pub count_exceptions : Table Results → ℕ
count_exceptions [] = 0
count_exceptions ((name, r) ∷ rs) = length r.exceptions + count_exceptions rs

unfoldable pub any_exceeds : Table Analysis → Bool
any_exceeds [] = false
any_exceeds ((name, a) ∷ rest) = a.variance_exceeds_threshold || any_exceeds rest

abbrev pub add_if : Bool → Recommendation → List Recommendation → List Recommendation
add_if test x xs = if test then x ∷ xs else xs

abbrev pub recommend : Bool → Bool → Bool → List Recommendation
recommend failing varying excessive =
    add_if failing review_failures
      (add_if varying audit_variance (add_if excessive validate_inputs []))

abbrev pub summary_of : Results → ExceptionSummary
summary_of r = record {
  exception_count = length r.exceptions;
  exception_types = set_of (map (λ e. e.error_type) r.exceptions);
}

-- The default threshold is 1,000 nanoseconds.
unfoldable pub generate_edge_case_report : Table Results → Report
generate_edge_case_report results =
    let analyses = map (λ e. (e.0, analyze_timing_variance 1000 e.1)) results in
    record {
      total_implementations_tested = length results;
      total_passed = count_passed results;
      total_failed = count_failed results;
      total_exceptions = count_exceptions results;
      timing_analysis = analyses;
      exception_summary = map (λ e. (e.0, summary_of e.1)) results;
      recommendations =
          recommend (ltb 0 (count_failed results)) (any_exceeds analyses)
            (ltb (length analyses * 2) (count_exceptions results));
    }
