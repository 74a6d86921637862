-- ===== src/Leaderboard/Examples.antt =====
-- Three results for one split of three waveforms.
use mathlib.Core.List.{Perm}
use post_quantum_cryptograph.Common.{ℕ, ◌≡◌, refl, some, List, [], ◌∷◌, map, replicate, All}
use post_quantum_cryptograph.Common.Int.{ℤ, pos, negsuc}
use post_quantum_cryptograph.Common.Bytes.{Bytes, ascii, bytes_eq, less_text}
use post_quantum_cryptograph.Common.Sets.{mem, set_of, every}
use post_quantum_cryptograph.Common.Reordering.{Reordering}
use post_quantum_cryptograph.Common.Checked.{ok, rejected}
use post_quantum_cryptograph.Leaderboard.{
  Sample, exact, SyntheticSplit, EvaluationResult, IsResult, Payload, Entry, Row, Report, over,
  is_identifier, check_class_ids, check_rows, check_waveforms, has_class, check_split, check_result,
  matches, entries_of, before, insert_entry, sort, rows_of, build_leaderboard,
}
use post_quantum_cryptograph.Leaderboard.Sort.{IsAscending}
use post_quantum_cryptograph.Leaderboard.Ranks.{ranked}
use post_quantum_cryptograph.Leaderboard.Results.{entry}
use post_quantum_cryptograph.Leaderboard.Board.{build_leaderboard_lem, build_leaderboard-reorder}

abbrev flat : List Sample
flat = exact (pos 0) 0 ∷ exact (negsuc 0) 1 ∷ replicate 30 (exact (pos 1) 2)

abbrev split : SyntheticSplit
split = record {
  split_id = ascii "s1";
  preprocessing_id = ascii "none";
  waveforms = flat ∷ flat ∷ flat ∷ [];
  targets = pos 0 ∷ pos 1 ∷ pos 2 ∷ [];
}

abbrev result : Bytes → List ℤ → EvaluationResult
result id predictions = record {
  model_id = id;
  family = ascii "CNN";
  training_status = ascii "untrained";
  split = split;
  predictions = predictions;
}

abbrev cnn_b : EvaluationResult
cnn_b = result (ascii "cnn-b") (pos 0 ∷ pos 0 ∷ pos 0 ∷ [])

abbrev cnn_a : EvaluationResult
cnn_a = result (ascii "cnn-a") (pos 1 ∷ pos 1 ∷ pos 1 ∷ [])

abbrev best : EvaluationResult
best = result (ascii "cnn.best") (pos 0 ∷ pos 1 ∷ pos 0 ∷ [])

abbrev results : List EvaluationResult
results = cnn_b ∷ cnn_a ∷ best ∷ []

abbrev others : List EvaluationResult
others = cnn_a ∷ cnn_b ∷ best ∷ []

abbrev digest : Payload → Bytes
digest p = p.split_id

split_valid : check_split split ≡ ok tt
unfolding replicate every is_identifier check_class_ids check_rows check_waveforms has_class
    check_split
split_valid = refl

results_valid : All IsResult results
unfolding every is_identifier check_class_ids check_result mem bytes_eq
results_valid = ((split_valid, refl), ((split_valid, refl), ((split_valid, refl), tt)))

abbrev row : ℕ → EvaluationResult → ℕ → Row
row rank r n = record {
  rank = rank;
  model_id = r.model_id;
  family = r.family;
  training_status = r.training_status;
  correct_count = n;
  sample_count = 3;
  accuracy = over n 2;
}

abbrev report : Report
report = record {
  split_fingerprint = some (ascii "s1");
  rows = row 1 best 2 ∷ row 2 cnn_a 1 ∷ row 2 cnn_b 1 ∷ [];
}

-- Two results that tie share a rank.
ranks : build_leaderboard digest results ≡ ok report
unfolding mem bytes_eq set_of matches less_text entries_of before insert_entry sort rows_of
    build_leaderboard
ranks = refl

duplicate :
    build_leaderboard digest (cnn_a ∷ cnn_a ∷ [])
    ≡ rejected "model_id must be unique; aggregate repeats separately"
unfolding mem bytes_eq set_of build_leaderboard
duplicate = refl

late_range :
    check_split (record {
      split_id = ascii "s1";
      preprocessing_id = ascii "p";
      waveforms = flat ∷ flat ∷ replicate 32 (exact (pos 5) 2) ∷ [];
      targets = split.targets;
    })
    ≡ rejected "waveforms must contain finite real samples in [-1, 1]"
unfolding replicate every is_identifier check_class_ids check_rows check_waveforms check_split
late_range = refl

build_leaderboard_lem_example :
    (sorted : List Entry) × Perm sorted (map entry results)
    × IsAscending sorted
    × (report.rows ≡ map (ranked (map entry results)) sorted)
build_leaderboard_lem_example = build_leaderboard_lem digest results report results_valid ranks

build_leaderboard-reorder_example :
    build_leaderboard digest results ≡ build_leaderboard digest others
build_leaderboard-reorder_example =
    build_leaderboard-reorder digest results others (Reordering.swap cnn_b cnn_a (best ∷ []))
      results_valid
