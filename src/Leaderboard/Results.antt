-- ===== src/Leaderboard/Results.antt =====
-- `build_leaderboard` on results that were constructed (waveform_leaderboard.py, lines 110 to 155).
use post_quantum_cryptograph.Common.{
  ℕ, zero, suc, ◌-◌, ◌≤◌, ◌≡◌, refl, sym, ap, ◌∙◌, Bool, true, false, ◌&&◌, none, List, [], ◌∷◌,
  map, arith, leb, ◌==◌, length, All, length-map, ==_iff,
}
use post_quantum_cryptograph.Common.Int.{ℤ}
use post_quantum_cryptograph.Common.Reordering.{Reordering, All-reorder, reorder_sym}
use post_quantum_cryptograph.Common.Checked.{Checked, ok, ◌>>◌, require, require-eq-ok, then-eq-ok}
use post_quantum_cryptograph.Leaderboard.{
  SyntheticSplit, EvaluationResult, IsResult, fraction, over, correct, Entry, entries_of, sort,
  rows_of, Row, Report, check_identifier, check_split, check_waveforms, check_class_ids,
  check_result, Sample, is_family, is_status, attributes,
}
use post_quantum_cryptograph.Leaderboard.Sort.{id_of, IsUnique, sort-reorder, sort-IsAscending}
use post_quantum_cryptograph.Leaderboard.Ranks.{
  ranked, IsScored, count_better-reorder, rows_of-ranked,
}

-- The entry of a result that has predictions.
abbrev pub entry : EvaluationResult → Entry
entry r = record { score = over (correct r) (length r.predictions - 1); result = r }

check_class_ids-length : (ids : List ℤ) (n : ℕ) → check_class_ids ids n ≡ ok tt → length ids ≡ n
unfolding check_class_ids
check_class_ids-length ids n h = (==_iff (length ids) n).0 (then-require _ _ _ h)
  where
    then-require : (b : Bool) (m : _) (q : Checked (Unit {0})) → require b m >> q ≡ ok tt → b ≡ true
    then-require b m q h = (require-eq-ok b m q h).0

check_waveforms-length : (ws : List (List Sample)) → check_waveforms ws ≡ ok tt → 3 ≤ length ws
unfolding check_waveforms
check_waveforms-length [] h = cc
check_waveforms-length (w ∷ ws) h =
    let in_bounds =
      (require-eq-ok (leb 3 (length (w ∷ ws)) && leb (length (w ∷ ws)) 256) _ _ h).0 in
    ground arith

check_split-length : (s : SyntheticSplit) → check_split s ≡ ok tt → 3 ≤ length s.targets
unfolding check_split
check_split-length s h =
    let (_, h₁) = then-eq-ok (check_identifier s.split_id) _ h in
    let (_, h₂) = then-eq-ok (check_identifier s.preprocessing_id) _ h₁ in
    let (waves, h₃) = then-eq-ok (check_waveforms s.waveforms) _ h₂ in
    let (ids, _) = then-eq-ok (check_class_ids s.targets (length s.waveforms)) _ h₃ in
    let three = check_waveforms-length s.waveforms waves in
    let same = check_class_ids-length s.targets (length s.waveforms) ids in omega arith

-- A constructed result has a prediction for every target, and at least three.
pub IsResult-length :
    (r : EvaluationResult)
    → IsResult r
    → (length r.predictions ≡ length r.split.targets) × (3 ≤ length r.predictions)
unfolding check_result
IsResult-length r h =
    let (_, h₁) = then-eq-ok (check_identifier r.model_id) _ h.1 in
    let (_, h₂) = require-eq-ok (is_family r.family) _ _ h₁ in
    let (_, h₃) = require-eq-ok (is_status r.training_status) _ _ h₂ in
    let same = check_class_ids-length r.predictions (length r.split.targets) h₃ in
    let three = check_split-length r.split h.0 in (same, omega arith)

entry_lem :
    (c n t : ℕ)
    → n ≡ t
    → 3 ≤ n
    → (fraction c n ≡ ok (over c (n - 1))) × (fraction c t ≡ ok (over c (n - 1)))
entry_lem c zero t e h = absurd (omega arith)
entry_lem c (suc n) t e h = let pred : suc n - 1 ≡ n = omega arith in rw (sym e, pred) (refl, refl)

entry-IsScored : (r : EvaluationResult) → IsResult r → IsScored (entry r)
entry-IsScored r h =
    let (same, three) = IsResult-length r h in
    (entry_lem (correct r) (length r.predictions) (length r.split.targets) same three).1

map_entry-IsScored : (rs : List EvaluationResult) → All IsResult rs → All IsScored (map entry rs)
map_entry-IsScored [] h = tt
map_entry-IsScored (r ∷ rs) h = (entry-IsScored r h.0, map_entry-IsScored rs h.1)

pub entries_of-map :
    (rs : List EvaluationResult) → All IsResult rs → entries_of rs ≡ ok (map entry rs)
unfolding entries_of
entries_of-map [] h = refl
entries_of-map (r ∷ rs) h =
    let (same, three) = IsResult-length r h.0 in
    let score =
      (entry_lem (correct r) (length r.predictions) (length r.split.targets) same three).0 in
    rw (score, entries_of-map rs h.1) refl

-- The identifiers' test, on the entries.
pub map_entry-IsUnique :
    (rs : List EvaluationResult)
    → (length (attributes (λ r. r.model_id) rs) == length rs) ≡ true
    → IsUnique (map entry rs)
map_entry-IsUnique rs h = rw (ids rs, length-map rs entry) ((==_iff _ (length rs)).0 h)
  where
    ids : (rs : List EvaluationResult) → map id_of (map entry rs) ≡ map (λ r. r.model_id) rs
    ids [] = refl
    ids (r ∷ rs) = ap (λ t. r.model_id ∷ t) (ids rs)

-- The rows of unique results: sorted, each with its rank among all.
abbrev pub rows_for : List EvaluationResult → List Row
rows_for rs = map (ranked (map entry rs)) (sort (map entry rs))

pub map-ranked :
    (xs ys es : List Entry) → Reordering xs ys → map (ranked xs) es ≡ map (ranked ys) es
map-ranked xs ys [] p = refl
map-ranked xs ys (e ∷ es) p = rw (count_better-reorder e.score p, map-ranked xs ys es p) refl

pub rows_of-rows_for :
    (rs : List EvaluationResult)
    → All IsResult rs
    → IsUnique (map entry rs)
    → rows_of 1 none 0 (sort (map entry rs)) ≡ ok (rows_for rs)
rows_of-rows_for rs h unique =
    let es = map entry rs in
    let p = sort-reorder es in
    rows_of-ranked (sort es) (sort-IsAscending es unique)
      (All-reorder IsScored (reorder_sym p) (map_entry-IsScored rs h))
    ∙ ap ok (map-ranked (sort es) es (sort es) p)

-- The four tests, then the report.
abbrev pub tested : Bool → Bool → Bool → Bool → Checked Report → Checked Report
tested a b c d report =
    require a "results must contain at most 64 evaluations"
    >> (require b "model_id must be unique; aggregate repeats separately"
        >> (require c "incomparable evaluation splits or preprocessing contracts"
            >> (require d "incomparable training status" >> report)))

pub tested-cong :
    (a b c d : Bool) (r q : Checked Report)
    → (b ≡ true → c ≡ true → r ≡ q)
    → tested a b c d r ≡ tested a b c d q
tested-cong false b c d r q h = refl
tested-cong true false c d r q h = refl
tested-cong true true false d r q h = refl
tested-cong true true true false r q h = refl
tested-cong true true true true r q h = h refl refl
