-- ===== src/TraceStream/Invariant.antt =====
-- What every connection keeps (trace_stream.py, lines 76 to 120).
use Prim.Native.Nat.{min}
use post_quantum_cryptograph.Common.{
  ℕ, ◌+◌, ◌≤◌, ◌<◌, ◌≡◌, refl, sym, ◌∙◌, ◌⊎◌, inl, inr, Bool, true, false, ◌&&◌, Option, none, some,
  List, [], ◌∷◌, arith, not, leb, ◌==◌, subst, if◌then◌else◌, All, All-append, Bool-cases,
}
use post_quantum_cryptograph.Telemetry.{AlertPolicy, AlertEngine, AlertResult, evaluate, new_engine}
use post_quantum_cryptograph.Telemetry as Telemetry
use post_quantum_cryptograph.Telemetry.Evaluate.{evaluate-policy}
use post_quantum_cryptograph.TraceStream.{
  TraceType, synthetic, playback, live, pause, WsTraceRequest, scale, is_valid_request, FrameType,
  Draw, Frame, frame_of, frame_type_of, Evaluated, evaluated, raised, with_alert, sample_of,
  evaluated_frame, Message, frame, invalid_request, paused, Stream, Connection, running, returned,
  failed, Event, received, malformed, timeout, disconnect, Input, start, send, send_frame,
  active_after, active_first, same_policy, engine_for, with_policy, handle_type, tick, step_event,
  step, run, refuse, is_playback, is_pause, send_evaluated,
}

abbrev pub policy_of : Option AlertEngine → Option AlertPolicy
policy_of none = none
policy_of (some e) = some e.policy

-- A request that is being streamed, and the index of its next frame.
abbrev pub IsActive : WsTraceRequest → ℕ → Type 0
IsActive r index =
    (is_valid_request r ≡ true)
    × (1 ≤ index)
    × ((r.trace_type ≡ live) ⊎ ((r.trace_type ≡ playback) × (index < r.n_chunks)))

-- The alert engine is the one for the policy in force, and an active request has frames left.
pub record IsStream (s : Stream) : Type 0 where
  pub engine : policy_of s.alert_engine ≡ s.alert_policy
  pub active : (r : WsTraceRequest) → s.active ≡ some r → IsActive r s.index

abbrev pub IsConnection : Connection → Type 0
IsConnection (running s) = IsStream s
IsConnection returned = Unit
IsConnection (failed x) = Unit

-- A frame shows a ratio of at most 1, and a playback has a hundred frames at most.
abbrev pub IsSent : Message → Type 0
IsSent (frame f) =
    (f.leakage_score ≤ scale) × (f.frame_type ≡ FrameType.playback_chunk → f.chunk_index < 100)
IsSent invalid_request = Unit
IsSent paused = Unit

-- What a frame keeps of its request, whatever the alert engine adds.
pub evaluated_frame_lem :
    (r : WsTraceRequest) (d : Draw) (index : ℕ) (reading : Option ℕ) (o : Option AlertEngine)
    (f : Frame) (q : Option AlertEngine)
    → evaluated_frame r d index reading o ≡ evaluated f q
    → (policy_of q ≡ policy_of o)
      × (f.leakage_score ≤ scale)
      × (f.frame_type ≡ frame_type_of r.trace_type)
      × (f.chunk_index ≡ index)
unfolding evaluated_frame
evaluated_frame_lem r d index reading none f q h = ground arith
evaluated_frame_lem r d index reading (some e) f q h =
    let kept = evaluate-policy scale none (sample_of (frame_of r d index)) reading e in
    let le : min scale d.ratio ≤ scale = omega arith in
    with_alert_lem (evaluate scale none (sample_of (frame_of r d index)) reading e) kept le h
  where
    with_alert_lem :
        (p : AlertResult × AlertEngine)
        → p.1.policy ≡ e.policy
        → min scale d.ratio ≤ scale
        → with_alert (frame_of r d index) p ≡ evaluated f q
        → (policy_of q ≡ some e.policy)
          × (f.leakage_score ≤ scale)
          × (f.frame_type ≡ frame_type_of r.trace_type)
          × (f.chunk_index ≡ index)
    with_alert_lem (Telemetry.ok o, g) kept le h = ground arith
    with_alert_lem (Telemetry.err x, g) kept le h = cc

abbrev pub Kept : Connection × List Message → Type 0
Kept (c, sent) = IsConnection c × All IsSent sent

send-Kept : (b : Bool) (m : Message) (s : Stream) → IsStream s → IsSent m → Kept (send b m s)
send-Kept true m s h sound = (h, (sound, tt))
send-Kept false m s h sound = (tt, tt)

only_playback : (t : TraceType) → frame_type_of t ≡ FrameType.playback_chunk → t ≡ playback
only_playback playback h = refl
only_playback synthetic h = cc
only_playback live h = cc
only_playback pause h = cc

send_evaluated-Kept :
    (i : Input) (r : WsTraceRequest) (index : ℕ) (next : Option WsTraceRequest) (next_index : ℕ)
    (s : Stream) (v : Evaluated)
    → IsStream s
    → (r.trace_type ≡ playback → index < 100)
    → ((q : WsTraceRequest) → next ≡ some q → IsActive q next_index)
    → evaluated_frame r i.draw index i.reading s.alert_engine ≡ v
    → Kept (send_evaluated i.delivered next next_index s v)
send_evaluated-Kept i r index next next_index s (raised x) h few rest same = (tt, tt)
send_evaluated-Kept i r index next next_index s (evaluated f engine) h few rest same =
    let (policy, score, type, chunk) =
      evaluated_frame_lem r i.draw index i.reading s.alert_engine f engine same in
    let kept : IsStream (record s { active = next; index = next_index; alert_engine = engine }) =
      record { engine = policy ∙ h.engine; active = rest } in
    send-Kept i.delivered (frame f) _ kept (
      score,
      λ p. let small = few (only_playback r.trace_type (sym type ∙ p)) in omega (arith, chunk),
    )

send_frame-Kept :
    (i : Input) (r : WsTraceRequest) (index : ℕ) (next : Option WsTraceRequest) (next_index : ℕ)
    (s : Stream)
    → IsStream s
    → (r.trace_type ≡ playback → index < 100)
    → ((q : WsTraceRequest) → next ≡ some q → IsActive q next_index)
    → Kept (send_frame i r index next next_index s)
send_frame-Kept i r index next next_index s h few rest =
    send_evaluated-Kept i r index next next_index s _ h few rest refl

pub chunks_bound :
    (r : WsTraceRequest) → is_valid_request r ≡ true → (1 ≤ r.n_chunks) × (r.n_chunks ≤ 100)
unfolding is_valid_request
chunks_bound r h = ground arith

stays :
    (b : Bool) (r q : WsTraceRequest)
    → (if b then none else some r) ≡ some q
    → (b ≡ false) × (r ≡ q)
stays true r q h = cc
stays false r q h = (refl, cc)

active_after_lem :
    (r q : WsTraceRequest) (index : ℕ)
    → IsActive r index
    → active_after r (index + 1) ≡ some q
    → IsActive q (index + 1)
active_after_lem r q index (valid, one, kind) h =
    let (more, same) = stays (is_playback r.trace_type && leb r.n_chunks (index + 1)) r q h in
    subst (λ q. IsActive q (index + 1)) same
      (
        valid,
        omega arith,
        elim kind [ inl l ↦ inl l | inr p ↦ inr (p.0, let t = p.0 in ground arith) ],
      )

active_first_lem :
    (r q : WsTraceRequest)
    → is_valid_request r ≡ true
    → (r.trace_type ≡ live) ⊎ (r.trace_type ≡ playback)
    → active_first r ≡ some q
    → IsActive q 1
active_first_lem r q valid kind h =
    let (more, same) = stays (is_playback r.trace_type && r.n_chunks == 1) r q h in
    let bound = chunks_bound r valid in
    subst (λ q. IsActive q 1) same
      (valid, omega arith, elim kind [ inl l ↦ inl l | inr p ↦ inr (p, ground arith) ])

engine_for-policy : (o : Option AlertPolicy) → policy_of (engine_for o) ≡ o
engine_for-policy none = refl
engine_for-policy (some p) = refl

with_policy-IsStream : (r : WsTraceRequest) (s : Stream) → IsStream s → IsStream (with_policy r s)
with_policy-IsStream r s h =
    elim (Bool-cases (not (is_pause r.trace_type) && not (same_policy r.alerts s.alert_policy))) [
      | inl t ↦ rw t (record { engine = engine_for-policy r.alerts; active = h.active })
      | inr f ↦ rw f h
    ]

paused-IsStream : (s : Stream) → IsStream s → IsStream (record s { active = none })
paused-IsStream s h = record { engine = h.engine; active = λ r e. cc }

handle-Kept :
    (t : TraceType) (i : Input) (r : WsTraceRequest) (s : Stream)
    → r.trace_type ≡ t
    → is_valid_request r ≡ true
    → IsStream s
    → Kept (handle_type t i r s)
unfolding handle_type
handle-Kept pause i r s e valid h = send-Kept i.delivered paused _ (paused-IsStream s h) tt
handle-Kept synthetic i r s e valid h =
    send_frame-Kept i r 0 none s.index s h (λ p. omega arith) (λ q p. cc)
handle-Kept playback i r s e valid h =
    send_frame-Kept i r 0 (active_first r) 1 s h (λ p. omega arith)
      (λ q p. active_first_lem r q valid (inr e) p)
handle-Kept live i r s e valid h =
    send_frame-Kept i r 0 (active_first r) 1 s h (λ p. omega arith)
      (λ q p. active_first_lem r q valid (inl e) p)

tick-Kept :
    (i : Input) (o : Option WsTraceRequest) (s : Stream)
    → s.active ≡ o
    → IsStream s
    → Kept (tick i o s)
unfolding tick
tick-Kept i none s e h = (h, tt)
tick-Kept i (some r) s e h =
    let (valid, one, kind) = h.active r e in
    let few : r.trace_type ≡ playback → s.index < 100 = λ p. elim kind [
      | inl l ↦ absurd cc
      | inr q ↦ let less = q.1 in let bound = chunks_bound r valid in omega arith
    ] in
    send_frame-Kept i r s.index (active_after r (s.index + 1)) (s.index + 1) s h few
      (λ q p. active_after_lem r q s.index (valid, one, kind) p)

refuse-Kept : (i : Input) (s : Stream) → IsStream s → Kept (refuse i s)
refuse-Kept i s h = send-Kept i.delivered invalid_request _ (paused-IsStream s h) tt

step-Kept : (e : Event) (i : Input) (s : Stream) → IsStream s → Kept (step_event e i s)
unfolding step_event
step-Kept timeout i s h = tick-Kept i s.active s refl h
step-Kept disconnect i s h = (tt, tt)
step-Kept malformed i s h = refuse-Kept i s h
step-Kept (received r) i s h = elim (Bool-cases (is_valid_request r)) [
  | inl t ↦
      rw t (handle-Kept r.trace_type i r (with_policy r s) refl t (with_policy-IsStream r s h))
  | inr f ↦ rw f (refuse-Kept i s h)
]

run_from-Kept : (is : List Input) (c : Connection) → IsConnection c → Kept (run is c)
unfolding run
run_from-Kept [] c h = (h, tt)
run_from-Kept (i ∷ is) returned h = (tt, tt)
run_from-Kept (i ∷ is) (failed x) h = (tt, tt)
run_from-Kept (i ∷ is) (running s) h =
    let (next, sound) = step-Kept i.event i s h in
    let (last, rest) = run_from-Kept is (step i s).0 next in
    (last, All-append IsSent (step i s).1 (run is (step i s).0).1 sound rest)

-- Whatever a client sends and whenever the wait times out: as long as the connection runs, its alert
-- engine is the one for the policy in force, and a request that is being streamed is a valid one
-- that is live, or a playback with frames left; every frame that was sent shows a ratio of at most
-- 1, and no playback frame has an index of 100 or more.
pub run-Kept : (is : List Input) → Kept (run is (running start))
run-Kept is = run_from-Kept is (running start) (record { engine = refl; active = λ r e. cc })
