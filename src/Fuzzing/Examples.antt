-- ===== src/Fuzzing/Examples.antt =====
-- Two implementations, of which one raises and its times are far apart.
use post_quantum_cryptograph.Common.{◌≡◌, ℕ, ◌+◌, List, [], ◌∷◌}
use post_quantum_cryptograph.Common.Bytes.{ascii}
use post_quantum_cryptograph.Common.Sets.{every}
use post_quantum_cryptograph.Common.Table.{Table}
use post_quantum_cryptograph.Fuzzing.{
  Outcome, returned, raised, Trial, generate_edge_case_report, review_failures, audit_variance,
}
use post_quantum_cryptograph.Fuzzing.Totals.{fuzz_all, generate_edge_case_report_lem}

abbrev trial : Outcome → ℕ → Trial
trial outcome elapsed = record { ciphertext = 1 ∷ []; outcome = outcome; elapsed_ns = elapsed }

abbrev runs : Table (List Trial)
runs =
    (ascii "mlkem512", trial returned 500 ∷ trial returned 1500 ∷ [])
    ∷ (
      ascii "mlkem768",
      trial returned 400
          ∷ trial (raised (ascii "ValueError") (ascii "length")) 90
          ∷ trial returned 1401
          ∷ [],
    )
    ∷ []

generate_edge_case_report_lem_example :
    let report = generate_edge_case_report (fuzz_all runs) in
    (report.total_failed ≡ 1)
    × (report.total_passed + report.total_failed ≡ 2)
    × (report.total_exceptions ≡ 1)
    × (report.recommendations ≡ review_failures ∷ audit_variance ∷ [])
unfolding every
generate_edge_case_report_lem_example = generate_edge_case_report_lem runs
