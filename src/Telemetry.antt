-- ===== src/Telemetry.antt =====
-- src/pqc_bench/telemetry_alerts.py: samples, thresholds and the alert engine with its cooldown.
--
-- Values and thresholds are exact scaled numbers, `scale` to 1; clock readings are numbers of ticks.
-- A reading that `_finite_number` rejects is `none`. A transport is a function into `true` where it
-- returns and `false` where it raises. The lock is that one evaluation runs at a time.
pub mod Evaluate
pub mod Cooldown
pub mod Keys
mod Examples
use post_quantum_cryptograph.Common.{
  ℕ, ◌+◌, ◌*◌, ◌-◌, ◌≡◌, String, Bool, true, false, not, ◌&&◌, ◌||◌, Option, none, some, List, [],
  ◌∷◌, ltb, leb, ◌==◌, if◌then◌else◌,
}

pub data Source : Type 0 where
  synthetic local : Source

pub data Metric : Type 0 where
  visual_score latency_ms : Metric

pub record TelemetrySample : Type 0 where
  pub source : Source
  pub metric : Metric
  pub value : ℕ

pub record AlertPolicy : Type 0 where
  pub visual_score_threshold : ℕ
  pub latency_ms_threshold : ℕ
  pub cooldown_seconds : ℕ

pub record Notification : Type 0 where
  pub source : Source
  pub metric : Metric
  pub value : ℕ
  pub threshold : ℕ

pub data Status : Type 0 where
  below_threshold suppressed alert : Status

pub data Delivery : Type 0 where
  not_attempted disabled sent failed : Delivery

pub record Outcome : Type 0 where
  pub status : Status
  pub notification : Option Notification
  pub delivery : Delivery

pub data AlertError : Type 0 where
  invalid_sample invalid_clock clock_regressed : AlertError

pub data AlertResult : Type 0 where
  ok : Outcome → AlertResult
  err : AlertError → AlertResult

abbrev pub Key : Type 0
Key = Source × Metric

abbrev source_index : Source → ℕ
source_index synthetic = 0
source_index local = 2

abbrev metric_index : Metric → ℕ
metric_index visual_score = 0
metric_index latency_ms = 1

-- Equality of two keys of `_last_attempt`.
abbrev pub same_key : Key → Key → Bool
same_key (s, m) (s', m') = source_index s + metric_index m == source_index s' + metric_index m'

pub record AlertEngine : Type 0 where
  pub policy : AlertPolicy
  pub last_clock : Option ℕ
  pub last_attempt : List (Key × ℕ)

-- `AlertEngine.__init__`
abbrev pub new_engine : AlertPolicy → AlertEngine
new_engine policy = record { policy = policy; last_clock = none; last_attempt = [] }

unfoldable pub last_of : Key → List (Key × ℕ) → Option ℕ
last_of k [] = none
last_of k ((j, t) ∷ d) = if same_key j k then some t else last_of k d

unfoldable pub put : Key → ℕ → List (Key × ℕ) → List (Key × ℕ)
put k t [] = (k, t) ∷ []
put k t ((j, u) ∷ d) = if same_key j k then (k, t) ∷ d else (j, u) ∷ put k t d

module _ (scale : ℕ) where
  -- The field bounds, 0 to 1e12, and `visual_bound`.
  unfoldable pub is_valid_sample : TelemetrySample → Bool
  is_valid_sample s =
      leb s.value (1_000_000_000_000 * scale)
      && not (elim s.metric [ visual_score ↦ ltb scale s.value | latency_ms ↦ false ])

  -- The bounds of `AlertPolicy`, the cooldown in ticks of which `scale` make a second.
  unfoldable pub is_valid_policy : AlertPolicy → Bool
  is_valid_policy p =
      leb p.visual_score_threshold scale
      && leb p.latency_ms_threshold (1_000_000_000_000 * scale)
      && leb p.cooldown_seconds (86400 * scale)

  -- `_Notification`: the sample's bounds, the threshold's, and that the one exceeds the other.
  unfoldable pub is_valid_notification : Notification → Bool
  is_valid_notification n =
      is_valid_sample (record { source = n.source; metric = n.metric; value = n.value })
      && leb n.threshold (1_000_000_000_000 * scale)
      && not (elim n.metric [ visual_score ↦ ltb scale n.threshold | latency_ms ↦ false ])
      && not (leb n.value n.threshold)

  abbrev pub threshold_of : AlertPolicy → Metric → ℕ
  threshold_of p visual_score = p.visual_score_threshold
  threshold_of p latency_ms = p.latency_ms_threshold

  -- now - last < cooldown, of a key that has an attempt.
  abbrev cooling : ℕ → ℕ → Option ℕ → Bool
  cooling now cooldown none = false
  cooling now cooldown (some last) = ltb (now - last) cooldown

  abbrev regressed : ℕ → Option ℕ → Bool
  regressed now none = false
  regressed now (some last) = ltb now last

  abbrev quiet : Status → Outcome
  quiet status = record { status = status; notification = none; delivery = not_attempted }

  -- The part after the lock: the call of the transport, with a copy of the notification.
  abbrev deliver : Option (Notification → Bool) → Notification → Delivery
  deliver none n = disabled
  deliver (some transport) n = if transport n then sent else failed

  abbrev pub key_of : TelemetrySample → Key
  key_of s = (s.source, s.metric)

  abbrev pub notification_of : AlertEngine → TelemetrySample → Notification
  notification_of e s = record {
    source = s.source;
    metric = s.metric;
    value = s.value;
    threshold = threshold_of e.policy s.metric;
  }

  -- The body of the lock, on a clock that has been accepted.
  evaluate_at :
      Option (Notification → Bool) → TelemetrySample → ℕ → AlertEngine → AlertResult × AlertEngine
  evaluate_at transport s now e =
      let e' = record e { last_clock = some now } in
      if leb s.value (threshold_of e.policy s.metric)
      then (ok (quiet below_threshold), e')
      else if cooling now e.policy.cooldown_seconds (last_of (key_of s) e.last_attempt)
      then (ok (quiet suppressed), e')
      else (
        ok (record {
          status = alert;
          notification = some (notification_of e s);
          delivery = deliver transport (notification_of e s);
        }),
        record e' { last_attempt = put (key_of s) now e.last_attempt },
      )

  evaluate_clock :
      Option (Notification → Bool)
      → TelemetrySample
      → Option ℕ
      → AlertEngine
      → AlertResult × AlertEngine
  unfolding evaluate_at
  evaluate_clock transport s none e = (err invalid_clock, e)
  evaluate_clock transport s (some now) e =
      if regressed now e.last_clock then (err clock_regressed, e) else evaluate_at transport s now e

  unfoldable pub evaluate :
      Option (Notification → Bool)
      → TelemetrySample
      → Option ℕ
      → AlertEngine
      → AlertResult × AlertEngine
  unfolding evaluate_clock
  evaluate transport s reading e =
      if is_valid_sample s then evaluate_clock transport s reading e else (err invalid_sample, e)
