-- ===== src/TraceStream/Steady.antt =====
-- Frames while the clock does not go back and the client receives (trace_stream.py, lines 63 to 73).
use post_quantum_cryptograph.Common.{
  ℕ, ◌≤◌, ◌≡◌, refl, subst, ◌⊎◌, inl, inr, true, Option, none, some, List, [], ◌∷◌, arith,
}
use post_quantum_cryptograph.Telemetry.{AlertEngine, is_valid_sample}
use post_quantum_cryptograph.Telemetry.Evaluate.{Accepts, evaluate_ok}
use post_quantum_cryptograph.TraceStream.{
  WsTraceRequest, scale, Draw, Frame, frame_of, evaluated, sample_of, evaluated_frame, frame,
  Stream, running, Input, send_frame,
}

-- The last reading of the engine's clock.
abbrev pub last_reading : Option AlertEngine → Option ℕ
last_reading none = none
last_reading (some e) = e.last_clock

abbrev pub NotBefore : Option ℕ → ℕ → Type 0
NotBefore none now = Unit
NotBefore (some last) now = last ≤ now

-- A clock that does not go back, and a client that receives what is sent.
abbrev pub IsSteady : Option ℕ → List Input → Type 0
IsSteady last [] = Unit
IsSteady last (i ∷ is) =
    (now : ℕ) × (i.reading ≡ some now)
    × NotBefore last now
    × (i.delivered ≡ true)
    × IsSteady (some now) is

-- After an evaluation the clock's last reading is this one, or there is no engine.
abbrev pub ReadAt : ℕ → Option AlertEngine → Type 0
ReadAt now o = (last_reading o ≡ none) ⊎ (last_reading o ≡ some now)

NotBefore-Accepts :
    (e : AlertEngine) (now : ℕ) → NotBefore e.last_clock now → Accepts e (some now) now
NotBefore-Accepts e now h = (refl, λ last p. subst (λ o. NotBefore o now) p h)

sample_valid :
    (r : WsTraceRequest) (d : Draw) (index : ℕ)
    → is_valid_sample scale (sample_of (frame_of r d index)) ≡ true
unfolding is_valid_sample
sample_valid r d index = ground arith

evaluated_frame_steady :
    (r : WsTraceRequest) (d : Draw) (index now : ℕ) (o : Option AlertEngine)
    → NotBefore (last_reading o) now
    → (f : Frame) × (q : Option AlertEngine) × (evaluated_frame r d index (some now) o
        ≡ evaluated f q)
      × (f.chunk_index ≡ index)
      × ReadAt now q
unfolding evaluated_frame
evaluated_frame_steady r d index now none h = (frame_of r d index, none, refl, refl, inl refl)
evaluated_frame_steady r d index now (some e) h =
    let f = frame_of r d index in
    let (outcome, g, same, clock) =
      evaluate_ok scale none (sample_of f) (some now) e now (sample_valid r d index)
        (NotBefore-Accepts e now h) in
    (record f { telemetry_alert = some outcome }, some g, rw same refl, refl, inr clock)

-- The variables after a frame.
abbrev pub after : Stream → Option WsTraceRequest → ℕ → Option AlertEngine → Stream
after s active index engine = record s { active = active; index = index; alert_engine = engine }

pub send_frame_steady :
    (i : Input) (r : WsTraceRequest) (index : ℕ) (next : Option WsTraceRequest) (next_index : ℕ)
    (s : Stream) (now : ℕ)
    → i.reading ≡ some now
    → NotBefore (last_reading s.alert_engine) now
    → i.delivered ≡ true
    → (f : Frame) × (q : Option AlertEngine) × (send_frame i r index next next_index s
        ≡ (running (after s next next_index q), frame f ∷ []))
      × (f.chunk_index ≡ index)
      × ReadAt now q
send_frame_steady i r index next next_index s now read later delivered =
    let (f, q, same, chunk, at) = evaluated_frame_steady r i.draw index now s.alert_engine later in
    (f, q, rw (read, delivered, same) refl, chunk, at)

pub IsSteady-at :
    (now : ℕ) (o : Option AlertEngine) (is : List Input)
    → ReadAt now o
    → IsSteady (some now) is
    → IsSteady (last_reading o) is
IsSteady-at now o [] at h = tt
IsSteady-at now o (i ∷ is) at (t, read, later, delivered, rest) =
    (t, read, elim at [ inl e ↦ rw e tt | inr e ↦ rw e later ], delivered, rest)
