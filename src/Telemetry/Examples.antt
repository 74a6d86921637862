-- ===== src/Telemetry/Examples.antt =====
-- The theorems about telemetry_alerts.py at concrete inputs.
use post_quantum_cryptograph.Common.{
  ℕ, ◌<◌, ◌≡◌, ◌↔◌, refl, true, ◌&&◌, none, some, List, [], ◌∷◌, if◌then◌else◌,
}
use post_quantum_cryptograph.Telemetry.{
  local, visual_score, TelemetrySample, AlertPolicy, AlertEngine, Key, same_key, last_of, put,
  evaluate, threshold_of, key_of, new_engine, is_valid_sample,
}
use post_quantum_cryptograph.Telemetry.Evaluate.{Cooled, alerts, evaluate_alert}
use post_quantum_cryptograph.Telemetry.Cooldown.{Event, Spaced, run_alerts, alerts-Spaced}

-- 1000 to 1, the thresholds 0.8 and 100, a cooldown of 60.
abbrev policy : AlertPolicy
policy = record {
  visual_score_threshold = 800;
  latency_ms_threshold = 100_000;
  cooldown_seconds = 60;
}

abbrev high : TelemetrySample
high = record { source = local; metric = visual_score; value = 900 }

abbrev impossible : TelemetrySample
impossible = record { source = local; metric = visual_score; value = 1001 }

abbrev engine : AlertEngine
engine = new_engine policy

evaluate_alert_example :
    let (r, e') = evaluate 1000 none high (some 5) engine in
    ((alerts r ≡ true)
      ↔ ((threshold_of 1000 policy visual_score < 900) × Cooled engine (key_of 1000 high) 5))
    × (e'.policy ≡ policy)
    × (e'.last_clock ≡ some 5)
    × ((j : Key)
        → last_of j e'.last_attempt
          ≡ (if alerts r && same_key (key_of 1000 high) j then some 5 else last_of j []))
unfolding is_valid_sample
evaluate_alert_example = evaluate_alert 1000 none high (some 5) engine 5 refl (refl, λ last h. cc)

abbrev at : ℕ → Event
at t = record { transport = none; sample = high; reading = some t }

abbrev events : List Event
events = at 5 ∷ at 64 ∷ at 65 ∷ []

-- The second is suppressed, the third is not.
two_alerts :
    run_alerts 1000 events engine ≡ ((local, visual_score), 5) ∷ ((local, visual_score), 65) ∷ []
unfolding run_alerts evaluate is_valid_sample last_of put
two_alerts = refl

alerts-Spaced_example : Spaced 1000 60 (run_alerts 1000 events engine)
alerts-Spaced_example = alerts-Spaced 1000 events engine
