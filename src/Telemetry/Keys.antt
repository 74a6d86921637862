-- ===== src/Telemetry/Keys.antt =====
-- The state of an alert engine stays bounded (telemetry_alerts.py, lines 104 to 132).
use post_quantum_cryptograph.Common.{
  ℕ, ◌+◌, ◌≤◌, ◌≡◌, refl, Bool, true, false, none, List, [], ◌∷◌, arith, length,
}
use post_quantum_cryptograph.Common.Dict.{is_some}
use post_quantum_cryptograph.Telemetry.{
  synthetic, local, visual_score, latency_ms, AlertPolicy, AlertEngine, Key, same_key, last_of, put,
  evaluate, new_engine,
}
use post_quantum_cryptograph.Telemetry.Evaluate.{last_of-put}
use post_quantum_cryptograph.Telemetry.Cooldown.{Event, run_engine}

-- No key is listed twice.
abbrev Distinct : List (Key × ℕ) → Type 0
Distinct [] = Unit
Distinct ((k, t) ∷ d) = (last_of k d ≡ none) × Distinct d

put-Distinct : (k : Key) (t : ℕ) (d : List (Key × ℕ)) → Distinct d → Distinct (put k t d)
unfolding put last_of
put-Distinct k t [] h = (refl, tt)
put-Distinct k t ((j, u) ∷ d) h =
    ground (arith, put-Distinct k t d h.1, last_of-put k j t d, same_key-last_of k j d)
  where
    same_key-last_of :
        (k j : Key) (d : List (Key × ℕ)) → same_key j k ≡ true → last_of k d ≡ last_of j d
    same_key-last_of k j [] h = refl
    same_key-last_of k j ((i, t) ∷ d) h = ground (arith, same_key-last_of k j d h)

abbrev one_if : Bool → ℕ
one_if true = 1
one_if false = 0

abbrev present : Key → List (Key × ℕ) → ℕ
present k d = one_if (is_some (last_of k d))

length-present :
    (d : List (Key × ℕ))
    → Distinct d
    → length d
      ≡ present (synthetic, visual_score) d
        + present (synthetic, latency_ms) d
        + present (local, visual_score) d
        + present (local, latency_ms) d
unfolding last_of
length-present [] h = refl
length-present (((synthetic, visual_score), t) ∷ d) h = ground (arith, length-present d h.1)
length-present (((synthetic, latency_ms), t) ∷ d) h = ground (arith, length-present d h.1)
length-present (((local, visual_score), t) ∷ d) h = ground (arith, length-present d h.1)
length-present (((local, latency_ms), t) ∷ d) h = ground (arith, length-present d h.1)

evaluate-Distinct :
    (scale : ℕ) (ev : Event) (e : AlertEngine)
    → Distinct e.last_attempt
    → Distinct (evaluate scale ev.transport ev.sample ev.reading e).1.last_attempt
unfolding evaluate
evaluate-Distinct scale ev e h = grind (arith, put-Distinct)

run_engine-Distinct :
    (scale : ℕ) (evs : List Event) (e : AlertEngine)
    → Distinct e.last_attempt
    → Distinct (run_engine scale evs e).last_attempt
unfolding run_engine
run_engine-Distinct scale [] e h = h
run_engine-Distinct scale (ev ∷ evs) e h =
    run_engine-Distinct scale evs _ (evaluate-Distinct scale ev e h)

-- An engine never holds more than four attempts, whatever it has evaluated.
pub attempts-le-four :
    (scale : ℕ) (policy : AlertPolicy) (evs : List Event)
    → length (run_engine scale evs (new_engine policy)).last_attempt ≤ 4
attempts-le-four scale policy evs = ground (
  arith,
  length-present (run_engine scale evs (new_engine policy)).last_attempt
      (run_engine-Distinct scale evs (new_engine policy) tt),
)
