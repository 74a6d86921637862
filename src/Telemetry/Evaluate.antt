-- ===== src/Telemetry/Evaluate.antt =====
-- One evaluation (telemetry_alerts.py, lines 108 to 150).
use post_quantum_cryptograph.Common.{
  ℕ, ◌-◌, ◌≤◌, ◌<◌, ◌≡◌, ◌↔◌, refl, Bool, true, false, ◌&&◌, Option, none, some, List, [], ◌∷◌,
  arith, if◌then◌else◌,
}
use post_quantum_cryptograph.Telemetry.{
  TelemetrySample, Notification, Outcome, alert, AlertResult, ok, err, AlertError, AlertEngine, Key,
  same_key, last_of, put, is_valid_sample, evaluate, evaluate_at, regressed, cooling, threshold_of,
  key_of,
}

-- An attempt is recorded for its key and for no other.
pub last_of-put :
    (k j : Key) (t : ℕ) (d : List (Key × ℕ))
    → last_of j (put k t d) ≡ (if same_key k j then some t else last_of j d)
unfolding last_of put
last_of-put k j t [] = refl
last_of-put k j t ((i, u) ∷ d) = ground (arith, last_of-put k j t d)

-- A reading that an engine accepts: a number that is not before the last one.
abbrev pub Accepts : AlertEngine → Option ℕ → ℕ → Type 0
Accepts e reading now = (reading ≡ some now) × ((last : ℕ) → e.last_clock ≡ some last → last ≤ now)

-- The last attempt with the key, if there was one, is at least the cooldown ago.
abbrev pub Cooled : AlertEngine → Key → ℕ → Type 0
Cooled e k now =
    (last : ℕ) → last_of k e.last_attempt ≡ some last → e.policy.cooldown_seconds ≤ now - last

-- Whether an evaluation raised an alert.
abbrev pub alerts : AlertResult → Bool
alerts (ok o) = elim o.status [ alert ↦ true | _ ↦ false ]
alerts (err x) = false

not_regressed :
    (now : ℕ) (o : Option ℕ) → ((last : ℕ) → o ≡ some last → last ≤ now) → regressed 0 now o ≡ false
not_regressed now none h = refl
not_regressed now (some last) h = let le = h last refl in ground arith

module _ (scale : ℕ) (transport : Option (Notification → Bool)) (s : TelemetrySample)
    (reading : Option ℕ) (e : AlertEngine) where
  evaluate_accepted :
      (now : ℕ)
      → is_valid_sample scale s ≡ true
      → Accepts e reading now
      → evaluate scale transport s reading e ≡ evaluate_at scale transport s now e
  unfolding evaluate
  evaluate_accepted now valid a = rw (valid, a.0, not_regressed now e.last_clock a.1)

  -- An evaluation that raises leaves the engine unchanged, so that no cooldown is reserved; a valid
  -- sample at an accepted reading of the clock does not raise.
  pub evaluate_error :
      (x : AlertError)
      → (evaluate scale transport s reading e).0 ≡ err x
      → ((evaluate scale transport s reading e).1 ≡ e)
        × ((now : ℕ) → Accepts e reading now → is_valid_sample scale s ≡ false)
  unfolding evaluate
  evaluate_error x h = (
    ground arith,
    λ now a. let still = not_regressed now e.last_clock a.1 in let read = a.0 in ground arith,
  )

  -- The cases of an evaluation by the last attempt of its key.
  evaluate_at_cases :
      (now : ℕ) (o : Option ℕ)
      → last_of (key_of scale s) e.last_attempt ≡ o
      → let (r, e') = evaluate_at scale transport s now e in
        ((alerts r ≡ true) ↔ (
          (threshold_of scale e.policy s.metric < s.value)
          × (cooling scale now e.policy.cooldown_seconds o ≡ false)))
        × (e'.policy ≡ e.policy)
        × (e'.last_clock ≡ some now)
        × (e'.last_attempt
            ≡ (if alerts r then put (key_of scale s) now e.last_attempt else e.last_attempt))
  unfolding evaluate_at
  evaluate_at_cases now o h = rw h (ground arith)

  cooling_iff :
      (now : ℕ) (o : Option ℕ)
      → last_of (key_of scale s) e.last_attempt ≡ o
      → (cooling scale now e.policy.cooldown_seconds o ≡ false) ↔ Cooled e (key_of scale s) now
  cooling_iff now none h = (λ q last p. cc, λ q. refl)
  cooling_iff now (some t) h =
      (λ q last p. let same : t ≡ last = cc in ground arith, λ q. let far = q t h in ground arith)

  -- A valid sample at an accepted reading raises an alert exactly if its value exceeds the threshold
  -- of its metric and the last attempt with its source and metric, if any, is at least the cooldown
  -- ago. An alert is recorded at this reading under its key, whatever becomes of the delivery; no
  -- other key's attempt changes, and without an alert none does. The reading becomes the last.
  pub evaluate_alert :
      (now : ℕ)
      → is_valid_sample scale s ≡ true
      → Accepts e reading now
      → let (r, e') = evaluate scale transport s reading e in
        ((alerts r ≡ true)
          ↔ ((threshold_of scale e.policy s.metric < s.value) × Cooled e (key_of scale s) now))
        × (e'.policy ≡ e.policy)
        × (e'.last_clock ≡ some now)
        × ((j : Key)
            → last_of j e'.last_attempt ≡ (
                if alerts r && same_key (key_of scale s) j
                then some now
                else last_of j e.last_attempt))
  evaluate_alert now valid a = rw (evaluate_accepted now valid a) (
      let (iff, pol, clock, attempts) =
        evaluate_at_cases now (last_of (key_of scale s) e.last_attempt) refl in
      let cool = cooling_iff now (last_of (key_of scale s) e.last_attempt) refl in
      (
        (λ h. let (over, q) = iff.0 h in (over, cool.0 q), λ h. iff.1 (h.0, cool.1 h.1)),
        pol,
        clock,
        λ j. rw attempts (recorded now j (alerts (evaluate_at scale transport s now e).0)),
      ))
    where
      recorded :
          (now : ℕ) (j : Key) (b : Bool)
          → last_of j (if b then put (key_of scale s) now e.last_attempt else e.last_attempt)
            ≡ (if b && same_key (key_of scale s) j then some now else last_of j e.last_attempt)
      recorded now j true = last_of-put (key_of scale s) j now e.last_attempt
      recorded now j false = refl

  -- No evaluation changes the policy.
  pub evaluate-policy : (evaluate scale transport s reading e).1.policy ≡ e.policy
  unfolding evaluate
  evaluate-policy = ground arith

  -- A valid sample at an accepted reading has an outcome.
  pub evaluate_ok :
      (now : ℕ)
      → is_valid_sample scale s ≡ true
      → Accepts e reading now
      → (o : Outcome) × (f : AlertEngine) × (evaluate scale transport s reading e ≡ (ok o, f))
        × (f.last_clock ≡ some now)
  evaluate_ok now valid a =
      let r = evaluate scale transport s reading e in
      let clock = (evaluate_alert now valid a).2 in
      outcome_of r.0 r.1 (λ x raised. (evaluate_error x raised).1 now a) clock refl
    where
      outcome_of :
          (r : AlertResult) (f : AlertEngine)
          → ((x : AlertError) → r ≡ err x → is_valid_sample scale s ≡ false)
          → f.last_clock ≡ some now
          → evaluate scale transport s reading e ≡ (r, f)
          → (o : Outcome) × (f : AlertEngine) × (evaluate scale transport s reading e ≡ (ok o, f))
            × (f.last_clock ≡ some now)
      outcome_of (ok o) f raised clock same = (o, f, same, clock)
      outcome_of (err x) f raised clock same = absurd (let bad = raised x refl in cc)
