-- ===== src/TraceStream.antt =====
-- src/pqc_bench/api/trace_stream.py: the WebSocket that streams synthetic frames.
--
-- The connection is a state that reads one input at a time: data, or that the wait for data timed
-- out. What the rest of the system contributes to a step is an argument of it: the draw (the
-- waveform with its noise, by numpy, and the ratio of its peak to its maximum, rounded to 4 places),
-- the reading of the clock, and whether the client still receives what is sent. Numbers are as in
-- Telemetry, 10,000 to 1. A negative number fails the bounds as malformed data does.
pub mod Invariant
pub mod Steady
pub mod Playback
mod Examples
use post_quantum_cryptograph.Common.{
  ℕ, ◌+◌, ◌*◌, ◌≡◌, Bool, true, false, not, ◌&&◌, ◌||◌, Option, none, some, List, [], ◌∷◌, ◌++◌,
  ltb, leb, ◌==◌, if◌then◌else◌, length,
}
use post_quantum_cryptograph.Common.Int.{ℤ}
use Prim.Native.Nat.{min}
use post_quantum_cryptograph.Common.Bytes.{Bytes}
use post_quantum_cryptograph.Telemetry.{
  Source, Metric, TelemetrySample, AlertPolicy, AlertEngine, AlertError, Outcome, new_engine,
  is_valid_policy, evaluate,
}
use post_quantum_cryptograph.Telemetry as Telemetry

pub data TraceType : Type 0 where
  synthetic playback live pause : TraceType

pub data Model : Type 0 where
  unprotected protected masked : Model

pub record WsTraceRequest : Type 0 where
  pub trace_type : TraceType
  pub model : Model
  pub n_samples : ℕ
  pub sample_rate : ℕ
  pub butterfly_markers : Bool
  pub n_chunks : ℕ
  pub fps : ℕ
  pub session_id : Option Bytes
  pub alerts : Option AlertPolicy

abbrev pub scale : ℕ
scale = 10_000

abbrev within : ℕ → ℕ → ℕ → Bool
within low high n = leb low n && leb n high

abbrev is_valid_session : Option Bytes → Bool
is_valid_session none = true
is_valid_session (some id) = leb (length id) 128

abbrev is_valid_alerts : Option AlertPolicy → Bool
is_valid_alerts none = true
is_valid_alerts (some p) = is_valid_policy scale p

-- The bounds of the fields.
unfoldable pub is_valid_request : WsTraceRequest → Bool
is_valid_request r =
    within 8 1024 r.n_samples
    && within 1 (1_000_000_000_000 * scale) r.sample_rate
    && within 1 100 r.n_chunks
    && within 1 60 r.fps
    && is_valid_session r.session_id
    && is_valid_alerts r.alerts

pub data FrameType : Type 0 where
  trace playback_chunk live_trace : FrameType

pub record Draw : Type 0 where
  pub samples : List ℤ
  pub ratio : ℕ

pub record Frame : Type 0 where
  pub frame_type : FrameType
  pub samples : List ℤ
  pub sample_rate : ℕ
  pub leakage_score : ℕ
  pub chunk_index : ℕ
  pub telemetry_alert : Option Outcome

abbrev pub frame_type_of : TraceType → FrameType
frame_type_of live = live_trace
frame_type_of playback = playback_chunk
frame_type_of synthetic = trace
frame_type_of pause = trace

-- `_frame`
abbrev pub frame_of : WsTraceRequest → Draw → ℕ → Frame
frame_of r d index = record {
  frame_type = frame_type_of r.trace_type;
  samples = d.samples;
  sample_rate = r.sample_rate;
  leakage_score = min scale d.ratio;
  chunk_index = index;
  telemetry_alert = none;
}

pub data Evaluated : Type 0 where
  evaluated : Frame → Option AlertEngine → Evaluated
  raised : AlertError → Evaluated

abbrev pub sample_of : Frame → TelemetrySample
sample_of f = record {
  source = Source.synthetic;
  metric = Metric.visual_score;
  value = f.leakage_score;
}

abbrev pub with_alert : Frame → Telemetry.AlertResult × AlertEngine → Evaluated
with_alert f (Telemetry.ok o, e) = evaluated (record f { telemetry_alert = some o }) (some e)
with_alert f (Telemetry.err x, e) = raised x

-- `_evaluated_frame`; the engine has no transport.
unfoldable pub evaluated_frame :
    WsTraceRequest → Draw → ℕ → Option ℕ → Option AlertEngine → Evaluated
evaluated_frame r d index reading none = evaluated (frame_of r d index) none
evaluated_frame r d index reading (some e) =
    let f = frame_of r d index in with_alert f (evaluate scale none (sample_of f) reading e)

pub data Message : Type 0 where
  frame : Frame → Message
  invalid_request paused : Message

-- The variables of `websocket_traces`.
pub record Stream : Type 0 where
  pub active : Option WsTraceRequest
  pub alert_engine : Option AlertEngine
  pub alert_policy : Option AlertPolicy
  pub index : ℕ

-- The loop goes on, the coroutine has returned, or an exception has left it.
pub data Connection : Type 0 where
  running : Stream → Connection
  returned : Connection
  failed : AlertError → Connection

pub data Event : Type 0 where
  received : WsTraceRequest → Event
  malformed timeout disconnect : Event

pub record Input : Type 0 where
  pub event : Event
  pub draw : Draw
  pub reading : Option ℕ
  pub delivered : Bool

abbrev pub start : Stream
start = record { active = none; alert_engine = none; alert_policy = none; index = 0 }

-- `ws.send_json` and what follows: a client that has gone raises `WebSocketDisconnect`.
abbrev pub send : Bool → Message → Stream → Connection × List Message
send true message s = (running s, message ∷ [])
send false message s = (returned, [])

-- The frame, or what evaluating it has raised; then the variables after it has been sent.
abbrev pub send_evaluated :
    Bool → Option WsTraceRequest → ℕ → Stream → Evaluated → Connection × List Message
send_evaluated delivered next_active next_index s (evaluated f engine) =
    send delivered (frame f)
      (record s { active = next_active; index = next_index; alert_engine = engine })
send_evaluated delivered next_active next_index s (raised x) = (failed x, [])

abbrev pub send_frame :
    Input → WsTraceRequest → ℕ → Option WsTraceRequest → ℕ → Stream → Connection × List Message
send_frame i r index next_active next_index s =
    send_evaluated i.delivered next_active next_index s
      (evaluated_frame r i.draw index i.reading s.alert_engine)

abbrev pub is_playback : TraceType → Bool
is_playback playback = true
is_playback t = false

abbrev pub is_pause : TraceType → Bool
is_pause pause = true
is_pause t = false

-- The request that stays active after the frames up to this index.
abbrev pub active_after : WsTraceRequest → ℕ → Option WsTraceRequest
active_after r index = if is_playback r.trace_type && leb r.n_chunks index then none else some r

-- The request that stays active after its first frame.
abbrev pub active_first : WsTraceRequest → Option WsTraceRequest
active_first r = if is_playback r.trace_type && r.n_chunks == 1 then none else some r

abbrev pub same_policy : Option AlertPolicy → Option AlertPolicy → Bool
same_policy none none = true
same_policy (some p) (some q) =
    p.visual_score_threshold == q.visual_score_threshold
    && p.latency_ms_threshold == q.latency_ms_threshold
    && p.cooldown_seconds == q.cooldown_seconds
same_policy p q = false

abbrev pub engine_for : Option AlertPolicy → Option AlertEngine
engine_for none = none
engine_for (some p) = some (new_engine p)

-- The change of policy, by a request that is no pause.
abbrev pub with_policy : WsTraceRequest → Stream → Stream
with_policy r s =
    if not (is_pause r.trace_type) && not (same_policy r.alerts s.alert_policy)
    then record s { alert_policy = r.alerts; alert_engine = engine_for r.alerts }
    else s

-- The dispatch on the type of a validated request.
unfoldable pub handle_type : TraceType → Input → WsTraceRequest → Stream → Connection × List Message
handle_type pause i r s = send i.delivered paused (record s { active = none })
handle_type synthetic i r s = send_frame i r 0 none s.index s
handle_type playback i r s = send_frame i r 0 (active_first r) 1 s
handle_type live i r s = send_frame i r 0 (active_first r) 1 s

abbrev pub handle : Input → WsTraceRequest → Stream → Connection × List Message
handle i r s = handle_type r.trace_type i r s

-- The frame that a timeout sends; without an active request there is no timeout.
unfoldable pub tick : Input → Option WsTraceRequest → Stream → Connection × List Message
tick i none s = (running s, [])
tick i (some r) s = send_frame i r s.index (active_after r (s.index + 1)) (s.index + 1) s

abbrev pub refuse : Input → Stream → Connection × List Message
refuse i s = send i.delivered invalid_request (record s { active = none })

-- One turn of the loop.
unfoldable pub step_event : Event → Input → Stream → Connection × List Message
step_event timeout i s = tick i s.active s
step_event disconnect i s = (returned, [])
step_event malformed i s = refuse i s
step_event (received r) i s =
    if is_valid_request r then handle i r (with_policy r s) else refuse i s

abbrev pub step : Input → Stream → Connection × List Message
step i s = step_event i.event i s

-- The turns for a list of inputs, with all that is sent.
unfoldable pub run : List Input → Connection → Connection × List Message
run [] c = (c, [])
run (i ∷ is) (running s) =
    let (c, sent) = step i s in let (last, rest) = run is c in (last, sent ++ rest)
run (i ∷ is) c = (c, [])
