-- ===== src/TraceStream/Examples.antt =====
-- A playback of three frames with alerts, and a pause.
use post_quantum_cryptograph.Common.{ℕ, ◌≡◌, refl, true, none, some, List, [], ◌∷◌, arith}
use post_quantum_cryptograph.Common.Int.{pos}
use post_quantum_cryptograph.Telemetry.{
  AlertPolicy, AlertEngine, Outcome, is_valid_policy, is_valid_sample, evaluate, last_of, put,
}
use post_quantum_cryptograph.Telemetry as Telemetry
use post_quantum_cryptograph.TraceStream.{
  TraceType, playback, live, Model, WsTraceRequest, is_valid_request, Message, frame, running,
  failed, Event, received, timeout, Input, start, evaluated_frame, handle_type, tick, step_event,
  run,
}
use post_quantum_cryptograph.TraceStream.Invariant.{Kept, run-Kept}
use post_quantum_cryptograph.TraceStream.Playback.{Played, playback_complete}

abbrev policy : AlertPolicy
policy = record {
  visual_score_threshold = 5_000;
  latency_ms_threshold = 100;
  cooldown_seconds = 600_000;
}

abbrev request_of : TraceType → ℕ → WsTraceRequest
request_of t chunks = record {
  trace_type = t;
  model = Model.protected;
  n_samples = 8;
  sample_rate = 1_000_000;
  butterfly_markers = true;
  n_chunks = chunks;
  fps = 10;
  session_id = none;
  alerts = some policy;
}

abbrev input : Event → ℕ → Input
input e now = record {
  event = e;
  draw = record { samples = pos 0 ∷ pos 3 ∷ []; ratio = 9_000 };
  reading = some now;
  delivered = true;
}

abbrev request : WsTraceRequest
request = request_of playback 3

abbrev ticks : List Input
ticks = input timeout 20 ∷ input timeout 20 ∷ input timeout 90 ∷ []

abbrev inputs : List Input
inputs =
    input (received (request_of live 1)) 5 ∷ input timeout 6 ∷ input (received request) 10 ∷ ticks

-- The indices of the frames, and the statuses of their alerts.
abbrev indices : List Message → List ℕ
indices [] = []
indices (frame f ∷ ms) = f.chunk_index ∷ indices ms
indices (m ∷ ms) = 999 ∷ indices ms

indices_sent : indices (run inputs (running start)).1 ≡ 0 ∷ 1 ∷ 0 ∷ 1 ∷ 2 ∷ []
unfolding run step_event tick handle_type evaluated_frame evaluate is_valid_request is_valid_policy
    is_valid_sample last_of put
indices_sent = refl

-- A clock that goes back ends the connection by an exception.
clock_back :
    (run (input (received request) 10 ∷ input timeout 9 ∷ []) (running start)).0
    ≡ failed Telemetry.clock_regressed
unfolding run step_event tick handle_type evaluated_frame evaluate is_valid_request is_valid_policy
    is_valid_sample last_of put
clock_back = refl

valid : is_valid_request request ≡ true
unfolding is_valid_request is_valid_policy
valid = refl

run-Kept_example : Kept (run inputs (running start))
run-Kept_example = run-Kept inputs

playback_complete_example : Played 0 3 (run (input (received request) 10 ∷ ticks) (running start))
playback_complete_example =
    playback_complete (input (received request) 10) ticks start request refl valid refl
      (refl, (refl, (refl, tt)))
      (
        10,
        refl,
        tt,
        refl,
        (
          20,
          refl,
          omega arith,
          refl,
          (20, refl, omega arith, refl, (90, refl, omega arith, refl, tt)),
        ),
      )
      (omega arith)
