-- ===== src/Tls/Examples.antt =====
-- The theorems about tls_simulator.py at concrete inputs, and small tests of its definitions.
use post_quantum_cryptograph.Common.{
  ℕ, ◌≡◌, ◌↔◌, refl, inl, true, none, some, List, [], ◌∷◌, ◌++◌, arith, replicate, length-replicate,
}
use post_quantum_cryptograph.Common.Bytes.{Bytes, ascii, bytes_eq, from_bytes}
use post_quantum_cryptograph.Common.Exec.{ok, err, protocol_error}
use post_quantum_cryptograph.Tls.Messages.{
  Message, finished, client, server, encode, decode_message, check_context,
}
use post_quantum_cryptograph.Tls.Messages.RoundTrip.{decode-encode}
use post_quantum_cryptograph.Tls.Messages.Canonical.{encode-decode}
use post_quantum_cryptograph.Tls.Schedule.{domain, zeros, Schedule, TrafficSecrets}
use post_quantum_cryptograph.Tls.Schedule.Label.{hkdf_label_injective}
use post_quantum_cryptograph.Tls.Schedule.Sizes.{HasSizes}
use post_quantum_cryptograph.Tls.Peer.{
  Peer, complete, fresh, await_server_finished, await_client_finished, make_peer, traffic_secrets,
  same_state,
}
use post_quantum_cryptograph.Tls.Peer.Invariant.{IsPeer}
use post_quantum_cryptograph.Tls.Peer.Errors.{IsTerminal, RaisesCleanly}
use post_quantum_cryptograph.Tls.Peer.Runs.{
  Call, client_finished_call, send_client_hello_call, server_finished_call, perform, run,
  run_keeps_IsPeer, calls_raise_cleanly, closed_for_good, traffic_only_when_complete, is_ok,
  kem_for,
}
use post_quantum_cryptograph.Tls.Peer.Client.{receive_server_finished}
use post_quantum_cryptograph.Tls.Peer.Server.{receive_client_finished}
use post_quantum_cryptograph.Tls.Peer.Accepts.{
  Confirms, receive_server_finished_iff, receive_client_finished_iff,
}
use post_quantum_cryptograph.Tls.Handshake.{simulate_handshake}
use post_quantum_cryptograph.Tls.Handshake.Agreement.{
  Inputs, IsHonest, whole_transcript, simulate_handshake_completes,
}
use post_quantum_cryptograph.Tls.Sample.{toy, toy_laws}

abbrev mac : Bytes
mac = replicate 32 7

abbrev message : Message
message = finished (record { sender = client; verify_data = mac })

abbrev message_wire : Bytes
message_wire = 20 ∷ 0 ∷ 0 ∷ 33 ∷ b'c' ∷ mac

decode-encode_example : decode_message message_wire ≡ ok message
unfolding encode replicate
decode-encode_example = decode-encode message refl

encode-decode_example : encode message ≡ ok message_wire
unfolding decode_message replicate from_bytes
encode-decode_example = encode-decode message_wire (omega arith) refl

-- A trailing byte is refused.
trailing_byte :
    decode_message (message_wire ++ 0 ∷ []) ≡ err (protocol_error "invalid encoded message")
unfolding decode_message replicate from_bytes
trailing_byte = refl

hkdf_label_injective_example :
    (ascii "finished" ≡ ascii "finished") × (◌≡◌ {A = Bytes} [] []) × (◌≡◌ {A = ℕ} 32 32)
hkdf_label_injective_example =
    hkdf_label_injective (ascii "finished") (ascii "finished") [] [] 32 32 (omega arith)
      (omega arith) refl

abbrev inputs : Inputs ℕ ℕ
inputs = record {
  client_context = ascii "client";
  server_context = [];
  cx = 3;
  ck = 4;
  sx = 5;
  client_random = replicate 32 1;
  server_random = replicate 32 2;
  seed = 6;
  x_shared = replicate 32 8;
  kem_shared = replicate 32 6;
  ciphertext = replicate 1088 6;
}

inputs-IsHonest : IsHonest toy inputs
unfolding replicate zeros bytes_eq
inputs-IsHonest = record {
  client_context = omega arith;
  server_context = omega arith;
  client_random = refl;
  server_random = refl;
  x_exchange = refl;
  nonzero = refl;
  kem = refl;
}

simulate_handshake_completes_example :
    simulate_handshake toy inputs.client_context [] 3 4 5 (replicate 32 1) (replicate 32 2) 6 10 25
    ≡ ok (record {
      local_duration_ns = 15;
      client_application_match = true;
      server_application_match = true;
      transcript_hash = toy.sha256 (whole_transcript toy toy_laws inputs);
    })
simulate_handshake_completes_example =
    simulate_handshake_completes toy toy_laws inputs 10 25 inputs-IsHonest

abbrev new_peer : Peer ℕ ℕ
new_peer = record {
  context = [];
  state = fresh;
  transcript = domain;
  schedule = none;
  traffic = none;
  x = some 3;
  kem = some 4;
}

made : make_peer [] 3 (kem_for client 4) ≡ ok new_peer
unfolding make_peer check_context
made = refl

abbrev earlier : List (Call client)
earlier = send_client_hello_call (replicate 32 1) ∷ client_finished_call ∷ []

run_keeps_IsPeer_example : IsPeer client (run toy earlier new_peer)
run_keeps_IsPeer_example = run_keeps_IsPeer toy toy_laws client [] 3 4 earlier made

calls_raise_cleanly_example :
    RaisesCleanly (perform toy client_finished_call (run toy earlier new_peer))
calls_raise_cleanly_example =
    calls_raise_cleanly toy toy_laws client [] 3 4 earlier client_finished_call made tt

traffic_only_when_complete_example :
    let q = run toy earlier new_peer in
    (is_ok (traffic_secrets q) ≡ same_state q.state complete)
    × (q.state ≡ complete → (q.x ≡ none) × (q.kem ≡ none) × (q.schedule ≡ none))
traffic_only_when_complete_example =
    traffic_only_when_complete toy toy_laws client [] 3 4 earlier made

abbrev done_peer : Peer ℕ ℕ
done_peer = record new_peer { state = complete; x = none; kem = none }

closed_for_good_example :
    ((perform toy server_finished_call done_peer).0
      ≡ err (protocol_error "out-of-order or replayed operation; peer is now terminal"))
    × IsTerminal (perform toy server_finished_call done_peer).1
    × ((perform toy server_finished_call done_peer).1.transcript ≡ domain)
closed_for_good_example = closed_for_good toy server_finished_call done_peer (inl refl)

abbrev handshake_secrets : Schedule
handshake_secrets = record {
  client_handshake = replicate 32 1;
  server_handshake = replicate 32 2;
  master = replicate 32 3;
}

abbrev waiting_client : Peer ℕ ℕ
waiting_client = record done_peer {
  state = await_server_finished;
  schedule = some handshake_secrets;
}

abbrev derived_traffic : TrafficSecrets
derived_traffic = record { client_application = mac; server_application = mac }

abbrev waiting_server : Peer ℕ ℕ
waiting_server = record done_peer {
  state = await_client_finished;
  schedule = some handshake_secrets;
  traffic = some derived_traffic;
}

secrets_sized : HasSizes handshake_secrets
secrets_sized = record {
  client_handshake = length-replicate 32 1;
  server_handshake = length-replicate 32 2;
  master = length-replicate 32 3;
}

waiting_client-IsPeer : IsPeer client waiting_client
unfolding domain
waiting_client-IsPeer = record {
  role_state = refl;
  transcript = omega arith;
  context = omega arith;
  x = refl;
  kem = refl;
  schedule = refl;
  traffic = refl;
  sized = secrets_sized;
}

waiting_server-IsPeer : IsPeer server waiting_server
unfolding domain
waiting_server-IsPeer = record {
  role_state = refl;
  transcript = omega arith;
  context = omega arith;
  x = refl;
  kem = refl;
  schedule = refl;
  traffic = refl;
  sized = secrets_sized;
}

receive_server_finished_iff_example :
    ((receive_server_finished toy message_wire waiting_client).0 ≡ ok tt)
    ↔ Confirms toy toy_laws server (replicate 32 2) domain message_wire
receive_server_finished_iff_example =
    receive_server_finished_iff toy toy_laws message_wire handshake_secrets waiting_client-IsPeer
      refl refl

receive_client_finished_iff_example :
    ((receive_client_finished toy message_wire waiting_server).0 ≡ ok tt)
    ↔ Confirms toy toy_laws client (replicate 32 1) domain message_wire
receive_client_finished_iff_example =
    receive_client_finished_iff toy toy_laws message_wire handshake_secrets waiting_server-IsPeer
      refl refl
