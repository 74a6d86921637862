-- ===== src/Fuzzing/Totals.antt =====
-- What the report of a fuzzing says of the trials (ct_fuzzer.py, lines 48 to 112 and 232 to 299).
use post_quantum_cryptograph.Common.{
  ℕ, suc, ◌+◌, ◌*◌, ◌≡◌, refl, sym, ap, ◌∙◌, Bool, false, not, ◌&&◌, ◌||◌, List, [], ◌∷◌, ◌++◌,
  append-nil, length-map, length-snoc, map, ltb, ◌==◌, length, arith, if◌then◌else◌,
}
use post_quantum_cryptograph.Common.Table.{Table}
use post_quantum_cryptograph.Fuzzing.{
  Outcome, returned, raised, Trial, Timing, Failed, Results, after_call, fuzz_from,
  constant_time_fuzz, no_results, analyze_timings, analyze_timing_variance, timings_of,
  count_passed, count_failed, count_exceptions, any_exceeds, recommend, generate_edge_case_report,
  Analysis,
}
use post_quantum_cryptograph.Fuzzing.Spread.{all_close, exceeds-all_close}

-- The times of the calls that returned, and the number of those that raised.
abbrev pub time_of : Outcome → ℕ → List ℕ
time_of returned t = t ∷ []
time_of (raised kind message) t = []

abbrev pub returned_times : List Trial → List ℕ
returned_times [] = []
returned_times (t ∷ ts) = time_of t.outcome t.elapsed_ns ++ returned_times ts

abbrev pub raise_of : Outcome → ℕ
raise_of returned = 0
raise_of (raised kind message) = 1

abbrev pub raises : List Trial → ℕ
raises [] = 0
raises (t ∷ ts) = raise_of t.outcome + raises ts

timings_of-append :
    (xs : List Timing) (x : Timing) (ys : List ℕ)
    → timings_of (xs ++ (x ∷ [])) ++ ys ≡ timings_of xs ++ (x.elapsed_ns ∷ ys)
timings_of-append [] x ys = refl
timings_of-append (z ∷ zs) x ys = ap (λ l. z.elapsed_ns ∷ l) (timings_of-append zs x ys)

abbrev IsAfter : Results → List ℕ → ℕ → Results → Type 0
IsAfter r times count s =
    (timings_of s.timing_data ≡ timings_of r.timing_data ++ times)
    × (length s.exceptions ≡ length r.exceptions + count)
    × (s.passed ≡ (r.passed && count == 0))

after_call-IsAfter :
    (i : ℕ) (t : Trial) (o : Outcome) (r s : Results) (times : List ℕ) (count : ℕ)
    → IsAfter (after_call i t o r) times count s
    → IsAfter r (time_of o t.elapsed_ns ++ times) (raise_of o + count) s
after_call-IsAfter i t returned r s times count (a, b, c) =
    (a ∙ timings_of-append r.timing_data _ times, ground arith, ground arith)
after_call-IsAfter i t (raised kind message) r s times count (a, b, c) =
    let e : Failed = record {
      iteration = i;
      ciphertext_len = length t.ciphertext;
      error_type = kind;
      error_msg = message;
      elapsed_ns = t.elapsed_ns;
    } in
    (a, ground (arith, b, length-snoc r.exceptions e), ground arith)

fuzz_from-IsAfter :
    (i : ℕ) (ts : List Trial) (r : Results)
    → IsAfter r (returned_times ts) (raises ts) (fuzz_from i ts r)
unfolding fuzz_from
fuzz_from-IsAfter i [] r = (sym (append-nil (timings_of r.timing_data)), ground arith, ground arith)
fuzz_from-IsAfter i (t ∷ ts) r =
    after_call-IsAfter i t t.outcome r (fuzz_from (suc i) ts (after_call i t t.outcome r))
      (returned_times ts) (raises ts) (fuzz_from-IsAfter (suc i) ts (after_call i t t.outcome r))

-- What fuzzing records of the trials.
fuzz_totals :
    (ts : List Trial)
    → let r = constant_time_fuzz ts in
      (timings_of r.timing_data ≡ returned_times ts)
      × (length r.exceptions ≡ raises ts)
      × (r.passed ≡ (raises ts == 0))
fuzz_totals ts =
    let (a, b, c) = fuzz_from-IsAfter 0 ts no_results in (a, ground arith, ground arith)

-- The implementations of which a call raised, and all calls that raised.
abbrev pub failing_runs : Table (List Trial) → ℕ
failing_runs [] = 0
failing_runs ((name, ts) ∷ runs) = (if raises ts == 0 then 0 else 1) + failing_runs runs

abbrev pub all_raises : Table (List Trial) → ℕ
all_raises [] = 0
all_raises ((name, ts) ∷ runs) = raises ts + all_raises runs

-- Two calls of one implementation took times that are further apart than the threshold.
abbrev pub any_apart : ℕ → Table (List Trial) → Bool
any_apart threshold [] = false
any_apart threshold ((name, ts) ∷ runs) =
    not (all_close threshold (returned_times ts)) || any_apart threshold runs

abbrev pub fuzz_all : Table (List Trial) → Table Results
fuzz_all runs = map (λ e. (e.0, constant_time_fuzz e.1)) runs

failed-failing_runs : (runs : Table (List Trial)) → count_failed (fuzz_all runs) ≡ failing_runs runs
unfolding count_failed
failed-failing_runs [] = refl
failed-failing_runs ((name, ts) ∷ runs) =
    let (_, _, passed) = fuzz_totals ts in rw (passed, failed-failing_runs runs) refl

passed-failing_runs :
    (runs : Table (List Trial)) → count_passed (fuzz_all runs) + failing_runs runs ≡ length runs
unfolding count_passed
passed-failing_runs [] = refl
passed-failing_runs ((name, ts) ∷ runs) =
    let (_, _, passed) = fuzz_totals ts in rw passed (ground (arith, passed-failing_runs runs))

exceptions-all_raises :
    (runs : Table (List Trial)) → count_exceptions (fuzz_all runs) ≡ all_raises runs
unfolding count_exceptions
exceptions-all_raises [] = refl
exceptions-all_raises ((name, ts) ∷ runs) =
    let (_, raised_, _) = fuzz_totals ts in rw (raised_, exceptions-all_raises runs) refl

abbrev analyses_of : ℕ → Table Results → Table Analysis
analyses_of threshold rs = map (λ e. (e.0, analyze_timing_variance threshold e.1)) rs

exceeds-any_apart :
    (threshold : ℕ) (runs : Table (List Trial))
    → any_exceeds (analyses_of threshold (fuzz_all runs)) ≡ any_apart threshold runs
unfolding any_exceeds
exceeds-any_apart threshold [] = refl
exceeds-any_apart threshold ((name, ts) ∷ runs) =
    let (times, _, _) = fuzz_totals ts in
    let (exceeds, _) = exceeds-all_close threshold (returned_times ts) in
    let here : (analyze_timing_variance threshold
          (constant_time_fuzz ts)).variance_exceeds_threshold
        ≡ not (all_close threshold (returned_times ts)) =
      ap (λ l. (analyze_timings threshold l).variance_exceeds_threshold) times ∙ exceeds in
    rw (here, exceeds-any_apart threshold runs) refl

failing-any : (runs : Table (List Trial)) → ltb 0 (failing_runs runs) ≡ ltb 0 (all_raises runs)
failing-any [] = refl
failing-any ((name, ts) ∷ runs) = ground (arith, failing-any runs)

recommend_same : {a b c x y z : Bool} → a ≡ x → b ≡ y → c ≡ z → recommend a b c ≡ recommend x y z
recommend_same h g k = cc

-- Whatever the calls of each implementation do and however long they take: the report counts an
-- implementation as failed exactly if one of its calls raised, and all others as passed; the
-- exceptions counted are the calls that raised; and it recommends a review of failures exactly if
-- a call raised, an audit exactly if two calls of one implementation that returned took times more
-- than 1,000 nanoseconds apart, and a validation of inputs exactly if more calls raised than twice
-- the number of implementations.
pub generate_edge_case_report_lem :
    (runs : Table (List Trial))
    → let report = generate_edge_case_report (fuzz_all runs) in
      (report.total_failed ≡ failing_runs runs)
      × (report.total_passed + report.total_failed ≡ length runs)
      × (report.total_exceptions ≡ all_raises runs)
      × (report.recommendations
          ≡ recommend
              (ltb 0 (all_raises runs))
              (any_apart 1000 runs)
              (ltb (length runs * 2) (all_raises runs)))
unfolding generate_edge_case_report
generate_edge_case_report_lem runs =
    let failed = failed-failing_runs runs in
    let raised_ = exceptions-all_raises runs in
    let size : length (analyses_of 1000 (fuzz_all runs)) ≡ length runs =
      length-map (fuzz_all runs) _ ∙ length-map runs _ in
    (
      failed,
      ap (λ n. count_passed (fuzz_all runs) + n) failed ∙ passed-failing_runs runs,
      raised_,
      recommend_same (ap (λ n. ltb 0 n) failed ∙ failing-any runs) (exceeds-any_apart 1000 runs) (
          ap (λ n. ltb (n * 2) (count_exceptions (fuzz_all runs))) size
          ∙ ap (λ n. ltb (length runs * 2) n) raised_),
    )
