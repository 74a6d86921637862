-- ===== src/LocalTelemetry/Examples.antt =====
-- A request while an inference runs, a foreign client, and an inference that fails.
use post_quantum_cryptograph.Common.{◌≡◌, refl, Bool, true, Option, some, List, [], ◌∷◌}
use post_quantum_cryptograph.Common.Int.{pos}
use post_quantum_cryptograph.Common.Bytes.{Bytes, ascii, bytes_eq}
use post_quantum_cryptograph.LocalTelemetry.{
  Event, arrives, ends, failed, logits, finite, finish, step, run, any_chunk, new_world,
}
use post_quantum_cryptograph.LocalTelemetry.Runs.{IsConsistent, run-IsConsistent}

abbrev is_loopback : Bytes → Option Bool
is_loopback host = some (bytes_eq host (ascii "127.0.0.1"))

abbrev request_from : Bytes → Event
request_from host = arrives (record { client_host = some host; query = []; chunks = [] })

abbrev events : List Event
events =
    request_from (ascii "10.0.0.1")
    ∷ request_from (ascii "127.0.0.1")
    ∷ request_from (ascii "127.0.0.1")
    ∷ ends (logits true true (0 ∷ 1 ∷ 2 ∷ [])) (finite (pos 4))
    ∷ request_from (ascii "127.0.0.1")
    ∷ ends failed (finite (pos 1))
    ∷ []

-- Two of four requests begin; one succeeds, one fails.
counts :
    let w = run is_loopback events new_world in
    (w.begun ≡ 2) × (w.app.successes ≡ 1) × (w.app.failures ≡ 1)
unfolding run step finish any_chunk bytes_eq
counts = (refl, refl, refl)

run-IsConsistent_example : IsConsistent (run is_loopback events new_world)
run-IsConsistent_example = run-IsConsistent is_loopback events
