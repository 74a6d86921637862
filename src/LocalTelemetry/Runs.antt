-- ===== src/LocalTelemetry/Runs.antt =====
-- What holds whatever requests come (local_telemetry.py, lines 100 to 141).
use post_quantum_cryptograph.Common.{
  ℕ, suc, ◌+◌, ◌-◌, ◌≡◌, refl, ap, ◌∙◌, Bool, true, false, not, ◌||◌, Option, List, [], ◌∷◌, ◌==◌,
  length, arith, if◌then◌else◌, All, All-append, length-snoc, Bool-cases, inl, inr,
}
use post_quantum_cryptograph.Common.Int.{ℤ, pos, ltb_ℤ, ◌≤ℤ◌}
use post_quantum_cryptograph.Common.Bytes.{Bytes}
use post_quantum_cryptograph.LocalTelemetry.{
  App, Elapsed, finite, not_finite, Logits, failed, logits, fail, succeed, finish, take_lock, World,
  Event, arrives, ends, started, step, run, local_only, is_accepted, new_world,
}

pub record IsConsistent (w : World) : Type 0 where
  pub exclusive : w.running ≡ (if w.app.is_locked then 1 else 0)
  pub counted : w.app.successes + w.app.failures + w.running ≡ w.begun
  pub timed : length w.app.durations ≡ w.app.successes
  pub nonneg : All (λ t. pos 0 ≤ℤ t) w.app.durations

-- The world after an inference that ended, from the application that it left.
abbrev ended : App → World → World
ended app w = record w { app = app; running = w.running - 1 }

fail-IsConsistent :
    (w : World) → IsConsistent w → w.running ≡ 1 → IsConsistent (ended (fail w.app).1 w)
fail-IsConsistent w h e = record {
  exclusive = ground arith;
  counted = let c = h.counted in ground arith;
  timed = h.timed;
  nonneg = h.nonneg;
}

succeed-IsConsistent :
    (w : World) (predictions : List ℕ) (t : ℤ)
    → IsConsistent w
    → w.running ≡ 1
    → pos 0 ≤ℤ t
    → IsConsistent (ended (succeed predictions t w.app).1 w)
succeed-IsConsistent w predictions t h e g = record {
  exclusive = ground arith;
  counted = let c = h.counted in ground arith;
  timed = length-snoc w.app.durations t ∙ ap suc h.timed;
  nonneg = All-append (λ t. pos 0 ≤ℤ t) w.app.durations (t ∷ []) h.nonneg (g, tt);
}

finish-IsConsistent :
    (l : Logits) (elapsed : Elapsed) (w : World)
    → IsConsistent w
    → w.running ≡ 1
    → IsConsistent (ended (finish l elapsed w.app).1 w)
unfolding finish
finish-IsConsistent failed elapsed w h e = fail-IsConsistent w h e
finish-IsConsistent (logits is_square is_finite ps) not_finite w h e = fail-IsConsistent w h e
finish-IsConsistent (logits is_square is_finite ps) (finite t) w h e =
    elim (Bool-cases (not is_square || not is_finite || ltb_ℤ t (pos 0))) [
      | inl bad ↦ rw bad (fail-IsConsistent w h e)
      | inr good ↦ rw good (succeed-IsConsistent w ps t h e (ground arith))
    ]

started-IsConsistent :
    (b : Bool) (w : World)
    → w.app.is_locked ≡ b
    → IsConsistent w
    → IsConsistent (started (take_lock b w.app) w)
started-IsConsistent true w e h = h
started-IsConsistent false w e h =
    let none_runs = h.exclusive in
    let all = h.counted in
    record { exclusive = ground arith; counted = ground arith; timed = h.timed; nonneg = h.nonneg }

step-IsConsistent :
    (is_loopback : Bytes → Option Bool) (e : Event) (w : World)
    → IsConsistent w
    → IsConsistent (step is_loopback e w)
unfolding step
step-IsConsistent is_loopback (arrives r) w h =
    elim (Bool-cases (is_accepted (local_only is_loopback r))) [
      | inl t ↦ rw t (started-IsConsistent w.app.is_locked w refl h)
      | inr f ↦ rw f h
    ]
step-IsConsistent is_loopback (ends l elapsed) w h = elim (Bool-cases (w.running == 0)) [
  | inl t ↦ rw t h
  | inr f ↦
      let one : w.running ≡ 1 = let e = h.exclusive in ground arith in
      rw f (finish-IsConsistent l elapsed w h one)
]

run-from :
    (is_loopback : Bytes → Option Bool) (es : List Event) (w : World)
    → IsConsistent w
    → IsConsistent (run is_loopback es w)
unfolding run
run-from is_loopback [] w h = h
run-from is_loopback (e ∷ es) w h =
    run-from is_loopback es (step is_loopback e w) (step-IsConsistent is_loopback e w h)

-- Whatever requests arrive and however the inferences end, in whatever order: at most one
-- inference runs, and the lock is held exactly while one does; every inference that began is
-- running or has been counted once, as a success or as a failure; and the durations observed are
-- as many as the successes, none of them negative.
pub run-IsConsistent :
    (is_loopback : Bytes → Option Bool) (es : List Event)
    → IsConsistent (run is_loopback es new_world)
run-IsConsistent is_loopback es =
    run-from is_loopback es new_world
      (record { exclusive = refl; counted = refl; timed = refl; nonneg = tt })
