-- ===== src/Telemetry/Cooldown.antt =====
-- Any sequence of evaluations on one engine (telemetry_alerts.py, lines 83 to 150).
use post_quantum_cryptograph.Common.{
  ℕ, ◌-◌, ◌≤◌, ◌≡◌, refl, subst, inl, inr, Bool, Bool-cases, true, Option, none, some, List, [],
  ◌∷◌, arith, if◌then◌else◌, All,
}
use post_quantum_cryptograph.Telemetry.{
  TelemetrySample, AlertPolicy, Notification, AlertResult, AlertEngine, Key, same_key, last_of,
  evaluate, key_of,
}
use post_quantum_cryptograph.Telemetry.Evaluate.{alerts, last_of-put}

-- One call: the transport, the sample and what the clock returns.
pub record Event : Type 0 where
  pub transport : Option (Notification → Bool)
  pub sample : TelemetrySample
  pub reading : Option ℕ

abbrev reading_or : Option ℕ → ℕ
reading_or none = 0
reading_or (some t) = t

module _ (scale : ℕ) where
  -- The alerts of a sequence of calls, each with its key and the clock's reading.
  unfoldable pub run_alerts : List Event → AlertEngine → List (Key × ℕ)
  run_alerts [] e = []
  run_alerts (ev ∷ evs) e =
      let (r, e') = evaluate scale ev.transport ev.sample ev.reading e in
      let rest = run_alerts evs e' in
      if alerts r then (key_of scale ev.sample, reading_or ev.reading) ∷ rest else rest

  unfoldable pub run_engine : List Event → AlertEngine → AlertEngine
  run_engine [] e = e
  run_engine (ev ∷ evs) e = run_engine evs (evaluate scale ev.transport ev.sample ev.reading e).1

  -- Later alerts of the same key are at least the cooldown after `t`.
  abbrev pub After : ℕ → Key → ℕ → List (Key × ℕ) → Type 0
  After cooldown k t = All (λ (a : Key × ℕ). same_key k a.0 ≡ true → cooldown ≤ a.1 - t)

  -- Every alert is so far from the earlier ones.
  abbrev pub Spaced : ℕ → List (Key × ℕ) → Type 0
  Spaced cooldown [] = Unit
  Spaced cooldown ((k, t) ∷ later) = After cooldown k t later × Spaced cooldown later

  -- The engine has an attempt with the key, and its clock has been read, both not before `u`.
  abbrev AtLeast : ℕ → Option ℕ → Type 0
  AtLeast u none = ⊥
  AtLeast u (some v) = u ≤ v

  abbrev Since : Key → ℕ → AlertEngine → Type 0
  Since k u e = AtLeast u (last_of k e.last_attempt) × AtLeast u e.last_clock

  same_key-last_of :
      (k j : Key) (d : List (Key × ℕ)) → same_key k j ≡ true → last_of k d ≡ last_of j d
  unfolding last_of
  same_key-last_of k j [] h = refl
  same_key-last_of k j ((i, t) ∷ d) h = ground (arith, same_key-last_of k j d h)

  same_key_refl : (k : Key) → same_key k k ≡ true
  same_key_refl k = ground arith

  module _ (ev : Event) (e : AlertEngine) where
    abbrev step : AlertResult × AlertEngine
    step = evaluate scale ev.transport ev.sample ev.reading e

    step_policy : step.1.policy ≡ e.policy
    unfolding evaluate
    step_policy = ground arith

    -- An alert with a key is at least the cooldown after any attempt with it.
    step_far :
        (k : Key) (u : ℕ)
        → Since k u e
        → alerts step.0 ≡ true
        → same_key k (key_of scale ev.sample) ≡ true
        → e.policy.cooldown_seconds ≤ reading_or ev.reading - u
    unfolding evaluate
    step_far k u since h same =
        let found = same_key-last_of k (key_of scale ev.sample) e.last_attempt same in ground arith

    step-Since : (k : Key) (u : ℕ) → Since k u e → Since k u step.1
    unfolding evaluate
    step-Since k u since =
        ground
          (arith, last_of-put (key_of scale ev.sample) k (reading_or ev.reading) e.last_attempt)

    -- An alert is an attempt at the clock's reading.
    step_alert-Since :
        alerts step.0 ≡ true → Since (key_of scale ev.sample) (reading_or ev.reading) step.1
    unfolding evaluate
    step_alert-Since h = ground (
      arith,
      last_of-put (key_of scale ev.sample) (key_of scale ev.sample) (reading_or ev.reading)
          e.last_attempt,
      same_key_refl (key_of scale ev.sample),
    )

  run-After :
      (evs : List Event) (e : AlertEngine) (k : Key) (u : ℕ)
      → Since k u e
      → After e.policy.cooldown_seconds k u (run_alerts evs e)
  unfolding run_alerts
  run-After [] e k u since = tt
  run-After (ev ∷ evs) e k u since =
      let ih = run-After evs (step ev e).1 k u (step-Since ev e k u since) in
      let rest =
        subst (λ (p : AlertPolicy). After p.cooldown_seconds k u (run_alerts evs (step ev e).1))
          (step_policy ev e) ih in
      elim (Bool-cases (alerts (step ev e).0)) [
        | inl raised ↦ rw raised (step_far ev e k u since raised, rest)
        | inr silent ↦ rw silent rest
      ]

  -- Whatever samples come, whatever the clock returns and whether deliveries succeed: any two alerts
  -- of an engine with the same source and metric are at least the cooldown apart.
  pub alerts-Spaced :
      (evs : List Event) (e : AlertEngine) → Spaced e.policy.cooldown_seconds (run_alerts evs e)
  unfolding run_alerts
  alerts-Spaced [] e = tt
  alerts-Spaced (ev ∷ evs) e =
      let rest =
        subst (λ (p : AlertPolicy). Spaced p.cooldown_seconds (run_alerts evs (step ev e).1))
          (step_policy ev e) (alerts-Spaced evs (step ev e).1) in
      elim (Bool-cases (alerts (step ev e).0)) [
        | inl raised ↦ rw raised (
          subst
              (λ (p : AlertPolicy).
                After p.cooldown_seconds (key_of scale ev.sample) (reading_or ev.reading)
                  (run_alerts evs (step ev e).1))
              (step_policy ev e)
              (run-After evs (step ev e).1 (key_of scale ev.sample) (reading_or ev.reading)
                (step_alert-Since ev e raised)),
          rest,
        )
        | inr silent ↦ rw silent rest
      ]
