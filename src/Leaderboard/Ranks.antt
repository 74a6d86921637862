-- ===== src/Leaderboard/Ranks.antt =====
-- Competition ranks: the loop over the sorted results (waveform_leaderboard.py, lines 129 to 147).
use post_quantum_cryptograph.Common.{
  ℕ, suc, ◌+◌, ◌≡◌, refl, sym, ap, ◌∙◌, true, false, none, some, List, [], ◌∷◌, map, arith,
  if◌then◌else◌, length, All, Bool-cases, inl, inr,
}
use post_quantum_cryptograph.Common.Reordering.{Reordering}
use post_quantum_cryptograph.Common.Checked.{ok}
use post_quantum_cryptograph.Leaderboard.{
  Fraction, over, fraction, less, equal, Entry, correct, Row, row_of, rows_of, is_new, before,
}
use post_quantum_cryptograph.Leaderboard.Order.{less_le_trans, less_asym, equal_iff}
use post_quantum_cryptograph.Leaderboard.Sort.{IsAscending}

-- The number of results with a better score.
unfoldable pub count_better : Fraction → List Entry → ℕ
count_better s [] = 0
count_better s (e ∷ es) = (if less s e.score then 1 else 0) + count_better s es

-- The row that a result has to have among all.
abbrev pub ranked : List Entry → Entry → Row
ranked all e = row_of (suc (count_better e.score all)) e.result e.score

-- The division of the loop gives the score again.
abbrev pub IsScored : Entry → Type 0
IsScored e = fraction (correct e.result) (length e.result.split.targets) ≡ ok e.score

abbrev AtMost : Fraction → Entry → Type 0
AtMost s e = less s e.score ≡ false

abbrev IsFalling : List Entry → Type 0
IsFalling [] = Unit
IsFalling (e ∷ es) = All (AtMost e.score) es × IsFalling es

pub count_better-reorder :
    (s : Fraction) {xs ys : List Entry} → Reordering xs ys → count_better s xs ≡ count_better s ys
unfolding count_better
count_better-reorder s Reordering.nil = refl
count_better-reorder s (Reordering.cons e p) =
    ap (λ n. (if less s e.score then 1 else 0) + n) (count_better-reorder s p)
count_better-reorder s (Reordering.swap a b xs) = omega arith
count_better-reorder s (Reordering.trans p q) = count_better-reorder s p ∙ count_better-reorder s q

less_irrefl : (s : Fraction) → less s s ≡ false
less_irrefl (over m c) = ground arith

count_none : (s : Fraction) (es : List Entry) → All (AtMost s) es → count_better s es ≡ 0
unfolding count_better
count_none s [] h = refl
count_none s (e ∷ es) h = ground (arith, h.0, count_none s es h.1)

count_all :
    (s p : Fraction) (es : List Entry)
    → less s p ≡ true
    → All (λ e. less e.score p ≡ false) es
    → count_better s es ≡ length es
unfolding count_better
count_all s p [] h above = refl
count_all s p (e ∷ es) h above =
    ground (arith, above.0, count_all s p es h above.1, less_le_trans p e.score s)

count_equal :
    (s p : Fraction) (es : List Entry) → equal s p ≡ true → count_better s es ≡ count_better p es
unfolding count_better
count_equal s p [] h = refl
count_equal s p (e ∷ es) h = ground (
  arith,
  equal_iff s p,
  count_equal s p es h,
  less_le_trans e.score p s,
  less_le_trans e.score s p,
)

-- The rank that the loop gives a result after those done, the last of which has the score p.
place_lem :
    (s p : Fraction) (done : List Entry)
    → less p s ≡ false
    → All (λ e. less e.score p ≡ false) done
    → (if is_new s (some p) then suc (length done) else suc (count_better p done))
      ≡ suc (count_better s done)
place_lem s p done h above = elim (Bool-cases (equal s p)) [
  | inl same ↦ rw (same, count_equal s p done same) refl
  | inr new ↦
      let worse : less s p ≡ true = ground (arith, equal_iff s p) in
      rw (new, count_all s p done worse above) refl
]

All-above :
    (s p : Fraction) (done : List Entry)
    → less p s ≡ false
    → All (λ e. less e.score p ≡ false) done
    → All (λ e. less e.score s ≡ false) done
All-above s p [] h above = tt
All-above s p (e ∷ es) h above = (less_le_trans s p e.score h above.0, All-above s p es h above.1)

rows_of_lem :
    (all rest done : List Entry) (p : Fraction) (rank : ℕ)
    → ((s : Fraction) → count_better s all ≡ count_better s rest + count_better s done)
    → All (λ e. less e.score p ≡ false) done
    → rank ≡ suc (count_better p done)
    → All (AtMost p) rest
    → IsFalling rest
    → All IsScored rest
    → rows_of (suc (length done)) (some p) rank rest ≡ ok (map (ranked all) rest)
unfolding rows_of count_better
rows_of_lem all [] done p rank total above hr low falling scored = refl
rows_of_lem all (e ∷ es) done p rank total above hr low falling scored =
    let place = place_lem e.score p done low.0 above in
    let none_better = count_none e.score es falling.0 in
    let same = less_irrefl e.score in
    let here : suc (count_better e.score done) ≡ suc (count_better e.score all) =
      ground (arith, total e.score) in
    let rest =
      rows_of_lem all es (e ∷ done) e.score (suc (count_better e.score done))
        (λ s. ground (arith, total s)) (same, All-above e.score p done low.0 above)
        (ground (arith, same)) falling.0 falling.1 scored.1 in
    rw (hr, scored.0, place, rest, here) refl

falling_head :
    (e : Entry) (es : List Entry) → All (λ x. before e x ≡ true) es → All (AtMost e.score) es
unfolding before
falling_head e [] h = tt
falling_head e (x ∷ xs) h = (
  ground (arith, h.0, less_asym x.score e.score, equal_iff e.score x.score),
  falling_head e xs h.1,
)

IsAscending-IsFalling : (es : List Entry) → IsAscending es → IsFalling es
IsAscending-IsFalling [] up = tt
IsAscending-IsFalling (e ∷ es) up = (falling_head e es up.0, IsAscending-IsFalling es up.1)

-- The loop over sorted results ranks each by the number of better ones.
pub rows_of-ranked :
    (es : List Entry)
    → IsAscending es
    → All IsScored es
    → rows_of 1 none 0 es ≡ ok (map (ranked es) es)
unfolding rows_of count_better
rows_of-ranked [] up scored = refl
rows_of-ranked (e ∷ es) up scored =
    let falling = IsAscending-IsFalling (e ∷ es) up in
    let same = less_irrefl e.score in
    let none_better = count_none e.score es falling.0 in
    let rest =
      rows_of_lem (e ∷ es) es (e ∷ []) e.score 1 (λ s. ground arith) (same, tt)
        (ground (arith, same)) falling.0 falling.1 scored.1 in
    let here : 1 ≡ suc (count_better e.score (e ∷ es)) = ground (arith, same) in
    rw (scored.0, rest, sym here) refl
