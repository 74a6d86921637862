-- ===== src/Leaderboard/Board.antt =====
-- What the leaderboard promises (waveform_leaderboard.py, lines 110 to 155).
use mathlib.Core.List.{Perm}
use post_quantum_cryptograph.Common.{
  ◌≡◌, refl, sym, ap, ◌∙◌, Bool, true, none, List, map, leb, ◌==◌, length, All, leb→le,
}
use post_quantum_cryptograph.Common.Bytes.{Bytes}
use post_quantum_cryptograph.Common.Sets.{length-set_of-reorder, set_of-reorder}
use post_quantum_cryptograph.Common.Reordering.{
  Reordering, All-reorder, map-reorder, length-reorder, Reordering-Perm,
}
use post_quantum_cryptograph.Common.Checked.{Checked, ok, ◌>>=◌, require-eq-ok, ok-injective}
use post_quantum_cryptograph.Leaderboard.{
  EvaluationResult, IsResult, Payload, Entry, entries_of, sort, rows_of, Report, first, attributes,
  fingerprint, max_results, build_leaderboard,
}
use post_quantum_cryptograph.Leaderboard.Sort.{
  IsAscending, sort-reorder, sort-IsAscending, sort-eq-reorder,
}
use post_quantum_cryptograph.Leaderboard.Ranks.{ranked}
use post_quantum_cryptograph.Leaderboard.Results.{
  entry, entries_of-map, map_entry-IsUnique, rows_for, rows_of-rows_for, map-ranked, tested,
  tested-cong,
}

module _ (digest : Payload → Bytes) where
  abbrev board : List EvaluationResult → Report
  board rs = record {
    split_fingerprint = first (attributes (fingerprint digest) rs);
    rows = rows_for rs;
  }

  abbrev few_fingerprints : List EvaluationResult → Bool
  few_fingerprints rs = leb (length (attributes (fingerprint digest) rs)) 1

  abbrev unique_ids : List EvaluationResult → Bool
  unique_ids rs = length (attributes (λ r. r.model_id) rs) == length rs

  abbrev one_status : List EvaluationResult → Bool
  one_status rs = leb (length (attributes (λ r. r.training_status) rs)) 1

  abbrev board_tested : List EvaluationResult → Checked Report → Checked Report
  board_tested rs =
      tested (leb (length rs) max_results) (unique_ids rs) (few_fingerprints rs) (one_status rs)

  build_leaderboard-board :
      (rs : List EvaluationResult)
      → All IsResult rs
      → build_leaderboard digest rs ≡ board_tested rs (ok (board rs))
  unfolding build_leaderboard
  build_leaderboard-board rs h =
      let made : unique_ids rs ≡ true
          → few_fingerprints rs ≡ true
          → (entries_of rs >>= λ entries. rows_of 1 none 0 (sort entries) >>= λ rows. ok (record {
            split_fingerprint = first (attributes (fingerprint digest) rs);
            rows = rows;
          }))
            ≡ ok (board rs) =
        λ unique few.
          rw (entries_of-map rs h, rows_of-rows_for rs h (map_entry-IsUnique rs unique)) refl in
      tested-cong (leb (length rs) max_results) (unique_ids rs) (few_fingerprints rs)
        (one_status rs) _ _ made

  -- Of results that were constructed: a leaderboard lists each of them once, the more accurate first
  -- and those of one accuracy in the order of their identifiers, and the rank of each is one more
  -- than the number of results with a better accuracy.
  pub build_leaderboard_lem :
      (rs : List EvaluationResult) (report : Report)
      → All IsResult rs
      → build_leaderboard digest rs ≡ ok report
      → (sorted : List Entry) × Perm sorted (map entry rs)
        × IsAscending sorted
        × (report.rows ≡ map (ranked (map entry rs)) sorted)
  build_leaderboard_lem rs report h e =
      let e₀ = sym (build_leaderboard-board rs h) ∙ e in
      let (_, e₁) = require-eq-ok (leb (length rs) max_results) _ _ e₀ in
      let (unique, e₂) = require-eq-ok (unique_ids rs) _ _ e₁ in
      let (_, e₃) = require-eq-ok (few_fingerprints rs) _ _ e₂ in
      let (_, e₄) = require-eq-ok (one_status rs) _ _ e₃ in
      let same = ok-injective (board rs) report e₄ in
      (
        sort (map entry rs),
        Reordering-Perm (sort-reorder (map entry rs)),
        sort-IsAscending (map entry rs) (map_entry-IsUnique rs unique),
        ap (λ r. r.rows) (sym same),
      )

  -- The order in which the results are given makes no difference: constructed results in another
  -- order give the same leaderboard, or are refused for the same reason.
  pub build_leaderboard-reorder :
      (rs qs : List EvaluationResult)
      → Reordering rs qs
      → All IsResult rs
      → build_leaderboard digest rs ≡ build_leaderboard digest qs
  build_leaderboard-reorder rs qs p h =
      let left = build_leaderboard-board rs h in
      let right = build_leaderboard-board qs (All-reorder IsResult p h) in
      let size = length-reorder p in
      let attribute = λ (f : EvaluationResult → Bytes). length-set_of-reorder (map-reorder f p) in
      let es = map-reorder entry p in
      let same : unique_ids rs ≡ true → few_fingerprints rs ≡ true → ok (board rs) ≡ ok (board qs) =
        λ unique few.
          let rows : rows_for rs ≡ rows_for qs =
            map-ranked (map entry rs) (map entry qs) (sort (map entry rs)) es
            ∙ ap (map (ranked (map entry qs)))
                (sort-eq-reorder es (map_entry-IsUnique rs unique)) in
          let set = set_of-reorder (map-reorder (fingerprint digest) p) (leb→le _ 1 few) in
          rw (rows, set) refl in
      let moved : board_tested rs (ok (board qs)) ≡ board_tested qs (ok (board qs)) =
        rw
          (
            size,
            attribute (λ r. r.model_id),
            attribute (fingerprint digest),
            attribute (λ r. r.training_status),
          )
          refl in
      left
      ∙ tested-cong _ (unique_ids rs) (few_fingerprints rs) _ (ok (board rs)) (ok (board qs)) same
      ∙ moved
      ∙ sym right
