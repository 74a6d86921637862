-- ===== src/TraceStream/Playback.antt =====
-- A playback that is not interrupted (trace_stream.py, lines 93 to 118).
use post_quantum_cryptograph.Common.{
  ℕ, zero, suc, ◌+◌, ◌≤◌, ◌≡◌, refl, ap, ◌∙◌, subst, inl, inr, true, false, not, ◌&&◌, Option, none,
  some, List, [], ◌∷◌, arith, leb, ◌==◌, length, All, Bool-cases,
}
use post_quantum_cryptograph.Telemetry.{AlertEngine, AlertPolicy}
use post_quantum_cryptograph.TraceStream.{
  playback, WsTraceRequest, is_valid_request, Frame, Message, frame, Stream, Connection, running,
  returned, failed, received, timeout, Input, send_frame, active_after, active_first, with_policy,
  handle_type, tick, step, step_event, run, is_playback, is_pause, same_policy, engine_for,
}
use post_quantum_cryptograph.TraceStream.Invariant.{chunks_bound}
use post_quantum_cryptograph.TraceStream.Steady.{
  last_reading, NotBefore, IsSteady, ReadAt, after, send_frame_steady, IsSteady-at,
}

-- The indices of the frames that were sent, and of nothing else.
abbrev pub Frames : List ℕ → List Message → Type 0
Frames [] [] = Unit
Frames (k ∷ ks) (frame f ∷ ms) = (f.chunk_index ≡ k) × Frames ks ms
Frames ks ms = ⊥

-- n numbers from k on.
abbrev pub count_from : ℕ → ℕ → List ℕ
count_from k zero = []
count_from k (suc n) = k ∷ count_from (suc k) n

abbrev pub IsIdle : Connection → Type 0
IsIdle (running s) = s.active ≡ none
IsIdle returned = ⊥
IsIdle (failed x) = ⊥

-- What a timeout does.
step_timeout :
    (i : Input) (s : Stream) (o : Option WsTraceRequest)
    → i.event ≡ timeout
    → s.active ≡ o
    → step i s ≡ tick i o s
unfolding step_event
step_timeout i s o quiet active = ap (λ e. step_event e i s) quiet ∙ ap (λ o. tick i o s) active

run_silent :
    (i : Input) (is : List Input) (s : Stream)
    → step i s ≡ (running s, [])
    → run is (running s) ≡ (running s, [])
    → run (i ∷ is) (running s) ≡ (running s, [])
unfolding run
run_silent i is s same rest = simp (same, rest)

-- Timeouts of an idle connection send nothing.
idle_run :
    (is : List Input) (s : Stream)
    → s.active ≡ none
    → All (λ i. i.event ≡ timeout) is
    → run is (running s) ≡ (running s, [])
unfolding run tick
idle_run [] s idle quiet = refl
idle_run (i ∷ is) s idle quiet =
    run_silent i is s (step_timeout i s none quiet.0 idle) (idle_run is s idle quiet.1)

abbrev pub Played : ℕ → ℕ → Connection × List Message → Type 0
Played k n (c, sent) = Frames (count_from k n) sent × IsIdle c

-- One turn that sends a frame, before a run.
run_after :
    (i : Input) (is : List Input) (s t : Stream) (f : Frame) (k n : ℕ)
    → step i s ≡ (running t, frame f ∷ [])
    → f.chunk_index ≡ k
    → Played (suc k) n (run is (running t))
    → Played k (suc n) (run (i ∷ is) (running s))
unfolding run
run_after i is s t f k n same chunk rest = rw same ((chunk, rest.0), rest.1)

ends :
    (r : WsTraceRequest) (index : ℕ)
    → r.trace_type ≡ playback
    → r.n_chunks ≡ index + 1
    → active_after r (index + 1) ≡ none
ends r index kind n = rw (kind, n) (ground arith)

continues :
    (r : WsTraceRequest) (index m : ℕ)
    → r.n_chunks ≡ index + suc (suc m)
    → active_after r (index + 1) ≡ some r
continues r index m n =
    let more : leb r.n_chunks (index + 1) ≡ false = ground arith in
    elim (Bool-cases (is_playback r.trace_type)) [ inl t ↦ rw (t, more) refl | inr f ↦ rw f refl ]

-- The frame of one timeout.
turn :
    (i : Input) (s : Stream) (r : WsTraceRequest) (now : ℕ)
    → i.event ≡ timeout
    → s.active ≡ some r
    → i.reading ≡ some now
    → NotBefore (last_reading s.alert_engine) now
    → i.delivered ≡ true
    → (f : Frame) × (q : Option AlertEngine) × (step i s
        ≡ (running (after s (active_after r (s.index + 1)) (s.index + 1) q), frame f ∷ []))
      × (f.chunk_index ≡ s.index)
      × ReadAt now q
unfolding tick
turn i s r now quiet active read later delivered =
    let (f, q, sent, chunk, at) =
      send_frame_steady i r s.index (active_after r (s.index + 1)) (s.index + 1) s now read later
        delivered in
    (f, q, step_timeout i s (some r) quiet active ∙ sent, chunk, at)

-- A playback with n + 1 frames left, under timeouts.
playback_ticks :
    (is : List Input) (s : Stream) (r : WsTraceRequest) (n : ℕ)
    → s.active ≡ some r
    → r.trace_type ≡ playback
    → r.n_chunks ≡ s.index + suc n
    → All (λ i. i.event ≡ timeout) is
    → IsSteady (last_reading s.alert_engine) is
    → suc n ≤ length is
    → Played s.index (suc n) (run is (running s))
playback_ticks [] s r n active kind left quiet steady enough = absurd (omega arith)
playback_ticks (i ∷ is) s r zero active kind left quiet (now, read, later, delivered, rest) enough =
    let (f, q, sent, chunk, at) = turn i s r now quiet.0 active read later delivered in
    let idle = ends r s.index kind left in
    let t = after s (active_after r (s.index + 1)) (s.index + 1) q in
    run_after i is s t f s.index 0 sent chunk (rw (idle_run is t idle quiet.1) (tt, idle))
playback_ticks (i ∷ is) s r (suc m) active kind left quiet (now, read, later, delivered, rest)
      enough =
    let (f, q, sent, chunk, at) = turn i s r now quiet.0 active read later delivered in
    let t = after s (active_after r (s.index + 1)) (s.index + 1) q in
    let count : s.index + 1 ≡ suc s.index = omega arith in
    let more =
      playback_ticks is t r m (continues r s.index m left) kind (omega arith) quiet.1
        (IsSteady-at now q is at rest) (omega arith) in
    run_after i is s t f s.index (suc m) sent chunk
      (subst (λ k. Played k (suc m) (run is (running t))) count more)

with_policy_reading :
    (r : WsTraceRequest) (s : Stream) (now : ℕ)
    → NotBefore (last_reading s.alert_engine) now
    → NotBefore (last_reading (with_policy r s).alert_engine) now
with_policy_reading r s now later =
    elim (Bool-cases (not (is_pause r.trace_type) && not (same_policy r.alerts s.alert_policy))) [
      | inl t ↦ rw t (fresh r.alerts)
      | inr f ↦ rw f later
    ]
  where
    fresh : (o : Option AlertPolicy) → NotBefore (last_reading (engine_for o)) now
    fresh none = tt
    fresh (some p) = tt

-- The turn that starts a playback.
playback_start :
    (i : Input) (s : Stream) (r : WsTraceRequest)
    → i.event ≡ received r
    → is_valid_request r ≡ true
    → r.trace_type ≡ playback
    → step i s ≡ send_frame i r 0 (active_first r) 1 (with_policy r s)
unfolding step_event handle_type
playback_start i s r event valid kind =
    ap (λ e. step_event e i s) event ∙ rw valid (ap (λ t. handle_type t i r (with_policy r s)) kind)

first_only : (r : WsTraceRequest) → r.trace_type ≡ playback → r.n_chunks ≡ 1 → active_first r ≡ none
first_only r kind n = rw (kind, n) refl

first_more : (r : WsTraceRequest) (m : ℕ) → r.n_chunks ≡ suc (suc m) → active_first r ≡ some r
first_more r m n =
    let more : (r.n_chunks == 1) ≡ false = ground arith in
    elim (Bool-cases (is_playback r.trace_type)) [ inl t ↦ rw (t, more) refl | inr f ↦ rw f refl ]

-- A valid playback request, with a clock that does not go back and a client that receives what is
-- sent, is answered whatever was active before: with as many timeouts as it has chunks, less one,
-- or more, exactly its chunks are sent, with the indices from 0 in order, and then the connection
-- is idle.
pub playback_complete :
    (i : Input) (is : List Input) (s : Stream) (r : WsTraceRequest)
    → i.event ≡ received r
    → is_valid_request r ≡ true
    → r.trace_type ≡ playback
    → All (λ j. j.event ≡ timeout) is
    → IsSteady (last_reading s.alert_engine) (i ∷ is)
    → r.n_chunks ≤ length (i ∷ is)
    → Played 0 r.n_chunks (run (i ∷ is) (running s))
playback_complete i is s r event valid kind quiet (now, read, later, delivered, rest) enough =
    let s' = with_policy r s in
    let (f, q, sent, chunk, at) =
      send_frame_steady i r 0 (active_first r) 1 s' now read (with_policy_reading r s now later)
        delivered in
    chunks r.n_chunks refl f q (playback_start i s r event valid kind ∙ sent) chunk at
  where
    chunks :
        (n : ℕ)
        → r.n_chunks ≡ n
        → (f : Frame) (q : Option AlertEngine)
        → step i s ≡ (running (after (with_policy r s) (active_first r) 1 q), frame f ∷ [])
        → f.chunk_index ≡ 0
        → ReadAt now q
        → Played 0 n (run (i ∷ is) (running s))
    chunks zero n f q sent chunk at = absurd (let b = chunks_bound r valid in omega arith)
    chunks (suc zero) n f q sent chunk at =
        let t = after (with_policy r s) (active_first r) 1 q in
        let idle = first_only r kind n in
        run_after i is s t f 0 0 sent chunk (rw (idle_run is t idle quiet) (tt, idle))
    chunks (suc (suc m)) n f q sent chunk at =
        let t = after (with_policy r s) (active_first r) 1 q in
        run_after i is s t f 0 (suc m) sent chunk (
          playback_ticks is t r m (first_more r m n) kind (omega arith) quiet
            (IsSteady-at now q is at rest) (omega arith))
