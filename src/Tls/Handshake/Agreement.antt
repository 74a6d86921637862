-- ===== src/Tls/Handshake/Agreement.antt =====
-- An undisturbed handshake of tls_simulator.py (lines 360 to 381) completes, and both peers hold the
-- secrets of the key schedule over the whole transcript.
use post_quantum_cryptograph.Common.{
  ℕ, ◌+◌, ◌-◌, ◌≤◌, ◌≡◌, refl, sym, ◌∙◌, true, false, Option, none, some, ◌++◌, arith, length,
  length-append,
}
use post_quantum_cryptograph.Common.Bytes.{Bytes, bytes_eq, bytes_eq_refl}
use post_quantum_cryptograph.Common.Exec.{ok}
use post_quantum_cryptograph.Tls.Messages.{
  ClientHello, ServerHello, Finished, client_hello, server_hello, finished, client, server, wire_of,
  check_context,
}
use post_quantum_cryptograph.Tls.Messages.RoundTrip.{
  decode-wire_of, length-wire_of_client, length-wire_of_server, length-wire_of_finished,
  check_bytes_iff, IsWellFormed,
}
use post_quantum_cryptograph.Tls.Schedule.{
  Crypto, CryptoLaws, Schedule, TrafficSecrets, domain, zeros, key_schedule, finished_mac,
  derive_application,
}
use post_quantum_cryptograph.Tls.Schedule.Sizes.{
  schedule_of, finished_of, traffic_of, key_schedule_total, finished_total,
  derive_application_total, HasSizes, schedule_of-HasSizes,
}
use post_quantum_cryptograph.Tls.Peer.{fresh, complete, make_peer}
use post_quantum_cryptograph.Tls.Peer.Errors.{
  client_hello_wire_total, server_hello_wire_total, finished_wire_total,
}
use post_quantum_cryptograph.Tls.Handshake.{exchange, simulate_handshake, compare_peers}
use post_quantum_cryptograph.Tls.Handshake.Steps.{
  peer, send_client_hello_step, receive_client_hello_step, receive_server_hello_step,
  server_finished_step, receive_server_finished_step, client_finished_step,
  receive_client_finished_step,
}

-- The inputs of one run, and what the two exchanges compute from them.
pub record Inputs (X K : Type 0) : Type 0 where
  pub client_context : Bytes
  pub server_context : Bytes
  pub cx : X
  pub ck : K
  pub sx : X
  pub client_random : Bytes
  pub server_random : Bytes
  pub seed : ℕ
  pub x_shared : Bytes
  pub kem_shared : Bytes
  pub ciphertext : Bytes

-- Contexts within the limit, 32 random bytes each, and exchanges that succeed with a shared X25519
-- value that is not all zero.
pub record IsHonest {X K : Type 0} (c : Crypto X K) (i : Inputs X K) : Type 0 where
  pub client_context : length i.client_context ≤ 256
  pub server_context : length i.server_context ≤ 256
  pub client_random : length i.client_random ≡ 32
  pub server_random : length i.server_random ≡ 32
  pub x_exchange : c.x_exchange i.cx (c.x_public i.sx) ≡ some i.x_shared
  pub nonzero : bytes_eq i.x_shared zeros ≡ false
  pub kem : c.kem_encapsulate (c.kem_public i.ck) i.seed ≡ some (i.kem_shared, i.ciphertext)

length-domain : length domain ≡ 27
unfolding domain
length-domain = refl

module _ {X K : Type 0} (c : Crypto X K) (laws : CryptoLaws c) (i : Inputs X K) where
  abbrev hello : ClientHello
  hello = record {
    random = i.client_random;
    x25519_public = c.x_public i.cx;
    mlkem_public = c.kem_public i.ck;
    context = i.client_context;
  }

  abbrev reply : ServerHello
  reply = record {
    random = i.server_random;
    x25519_public = c.x_public i.sx;
    mlkem_ciphertext = i.ciphertext;
    context = i.server_context;
  }

  -- The transcripts after each message.
  abbrev t₁ : Bytes
  t₁ = domain ++ wire_of (client_hello hello)

  abbrev t₂ : Bytes
  t₂ = t₁ ++ wire_of (server_hello reply)

  abbrev schedule : Schedule
  schedule = schedule_of c laws i.x_shared i.kem_shared t₂

  abbrev server_message : Finished
  server_message = record {
    sender = server;
    verify_data = finished_of c laws schedule.server_handshake t₂;
  }

  abbrev t₃ : Bytes
  t₃ = t₂ ++ wire_of (finished server_message)

  abbrev client_message : Finished
  client_message = record {
    sender = client;
    verify_data = finished_of c laws schedule.client_handshake t₃;
  }

  -- The whole transcript: the domain, the two hellos and the two Finished messages.
  abbrev pub whole_transcript : Bytes
  whole_transcript = t₃ ++ wire_of (finished client_message)

  -- The application secrets, over the transcript up to the server's Finished.
  abbrev pub application_secrets : TrafficSecrets
  application_secrets = traffic_of c laws schedule.master t₃

  module _ (honest : IsHonest c i) where
    hello_sizes : IsWellFormed (client_hello hello)
    hello_sizes = (
      honest.client_random,
      laws.length-x_public i.cx,
      laws.length-kem_public i.ck,
      honest.client_context,
    )

    x_size : length i.x_shared ≡ 32
    x_size = laws.length-x_exchange i.cx _ i.x_shared honest.x_exchange

    server_exchange : c.x_exchange i.sx (c.x_public i.cx) ≡ some i.x_shared
    server_exchange = sym (laws.x_exchange_comm i.cx i.sx) ∙ honest.x_exchange

    kem_size : length i.kem_shared ≡ 32
    kem_size = laws.length-kem_secret _ i.seed i.kem_shared i.ciphertext honest.kem

    ciphertext_size : length i.ciphertext ≡ 1088
    ciphertext_size = laws.length-kem_ciphertext _ i.seed i.kem_shared i.ciphertext honest.kem

    size₁ : length t₁ ≡ 1281 + length i.client_context
    size₁ = omega (
      arith,
      length-domain,
      length-append domain (wire_of (client_hello hello)),
      length-wire_of_client hello (
        honest.client_random,
        laws.length-x_public i.cx,
        laws.length-kem_public i.ck,
        honest.client_context,
      ),
    )

    size_reply : length (wire_of (server_hello reply)) ≡ 1158 + length i.server_context
    size_reply =
        length-wire_of_server reply
          (honest.server_random, laws.length-x_public i.sx, ciphertext_size, honest.server_context)

    size₂ : length t₂ ≡ 2439 + length i.client_context + length i.server_context
    size₂ = omega (arith, size₁, size_reply, length-append t₁ (wire_of (server_hello reply)))

    size_finished : (f : Finished) → length f.verify_data ≡ 32 → length (wire_of (finished f)) ≡ 37
    size_finished f h = length-wire_of_finished f h

    size₃ : length t₃ ≡ 2476 + length i.client_context + length i.server_context
    size₃ = omega (
      arith,
      size₂,
      length-append t₂ (wire_of (finished server_message)),
      length-wire_of_finished server_message (laws.length-hmac _ _),
    )

    sizes : HasSizes schedule
    sizes = schedule_of-HasSizes c laws i.x_shared i.kem_shared t₂

    scheduled : key_schedule c i.x_shared i.kem_shared t₂ ≡ ok schedule
    scheduled =
        key_schedule_total c laws i.x_shared i.kem_shared t₂ x_size kem_size
          (omega (arith, size₂, honest.client_context, honest.server_context)) honest.nonzero

    server_mac : finished_mac c schedule.server_handshake t₂ ≡ ok server_message.verify_data
    server_mac = finished_total c laws schedule.server_handshake t₂ sizes.server_handshake

    client_mac : finished_mac c schedule.client_handshake t₃ ≡ ok client_message.verify_data
    client_mac = finished_total c laws schedule.client_handshake t₃ sizes.client_handshake

    derived_traffic : derive_application c schedule.master t₃ ≡ ok application_secrets
    derived_traffic =
        derive_application_total c laws schedule.master t₃ sizes.master
          (omega (arith, size₃, honest.client_context, honest.server_context))

    exchange_completes :
        exchange c i.client_random i.server_random i.seed
          (peer i.client_context fresh domain none none (some i.cx) (some i.ck))
          (peer i.server_context fresh domain none none (some i.sx) none)
        ≡ ok (
          peer i.client_context complete whole_transcript none (some application_secrets) none none,
          peer i.server_context complete whole_transcript none (some application_secrets) none none,
        )
    unfolding exchange
    exchange_completes =
        let ctx = i.client_context in
        let stx = i.server_context in
        let fin_s : length server_message.verify_data ≡ 32 = laws.length-hmac _ _ in
        let fin_c : length client_message.verify_data ≡ 32 = laws.length-hmac _ _ in
        let w₁ = wire_of (client_hello hello) in
        let w₂ = wire_of (server_hello reply) in
        let w₃ = wire_of (finished server_message) in
        let w₄ = wire_of (finished client_message) in
        let len₁ = length-wire_of_client hello hello_sizes in
        let len₃ : length w₃ ≡ 37 = length-wire_of_finished server_message fin_s in
        let len₄ : length w₄ ≡ 37 = length-wire_of_finished client_message fin_c in
        let fits₁ : length domain + length w₁ ≤ 4096 =
          omega (arith, length-domain, len₁, honest.client_context) in
        let fits₂ : length t₁ + length w₂ ≤ 4096 =
          omega (arith, size₁, size_reply, honest.client_context, honest.server_context) in
        let fits₃ : length t₂ + length w₃ ≤ 4096 =
          omega (arith, size₂, len₃, honest.client_context, honest.server_context) in
        let fits₄ : length t₃ + length w₄ ≤ 4096 =
          omega (arith, size₃, len₄, honest.client_context, honest.server_context) in
        rw (
          send_client_hello_step c ctx domain i.client_random w₁ i.cx i.ck
              (client_hello_wire_total i.client_random (c.x_public i.cx) (c.kem_public i.ck) ctx
                honest.client_random (laws.length-x_public i.cx) (laws.length-kem_public i.ck)
                honest.client_context)
              fits₁,
          receive_client_hello_step c stx domain i.server_random w₁ w₂ i.x_shared i.kem_shared
              i.ciphertext i.seed hello i.sx schedule
              (decode-wire_of (client_hello hello) hello_sizes) server_exchange honest.kem
              (server_hello_wire_total i.server_random (c.x_public i.sx) i.ciphertext stx
                honest.server_random (laws.length-x_public i.sx) ciphertext_size
                honest.server_context)
              fits₁ fits₂ scheduled,
          receive_server_hello_step c ctx t₁ w₂ i.x_shared i.kem_shared reply i.cx i.ck schedule
              (decode-wire_of (server_hello reply) (
                honest.server_random,
                laws.length-x_public i.sx,
                ciphertext_size,
                honest.server_context,
              ))
              honest.x_exchange
              (laws.kem_decapsulate-encapsulate i.ck i.seed i.kem_shared i.ciphertext honest.kem)
              fits₂ scheduled,
          server_finished_step c stx t₂ schedule w₃ server_message.verify_data fits₃
              application_secrets server_mac
              (finished_wire_total server server_message.verify_data fin_s) derived_traffic,
          receive_server_finished_step c ctx t₂ schedule w₃ server_message.verify_data fits₃
              application_secrets (decode-wire_of (finished server_message) fin_s) server_mac
              derived_traffic,
          client_finished_step c ctx t₃ schedule w₄ client_message.verify_data fits₄
              application_secrets client_mac
              (finished_wire_total client client_message.verify_data fin_c),
          receive_client_finished_step c stx t₃ schedule w₄ client_message.verify_data fits₄
              application_secrets (decode-wire_of (finished client_message) fin_c) client_mac,
        )

    peers_agree :
        (duration : ℕ)
        → compare_peers c
            (peer i.client_context complete whole_transcript none
              (some application_secrets)
              none
              none)
            (peer i.server_context complete whole_transcript none
              (some application_secrets)
              none
              none)
            duration
          ≡ ok (record {
            local_duration_ns = duration;
            client_application_match = true;
            server_application_match = true;
            transcript_hash = c.sha256 whole_transcript;
          })
    unfolding compare_peers
    peers_agree duration = rw (
      bytes_eq_refl application_secrets.client_application,
      bytes_eq_refl application_secrets.server_application,
      bytes_eq_refl (c.sha256 whole_transcript),
    )

context_total : (v : Bytes) → length v ≤ 256 → check_context v ≡ ok tt
unfolding check_context
context_total v h = (check_bytes_iff "context" v 0 256).1 (omega arith, h)

make_peer_total :
    {X K : Type 0} (ctx : Bytes) (x : X) (k : Option K)
    → length ctx ≤ 256
    → make_peer ctx x k ≡ ok (peer ctx fresh domain none none (some x) k)
unfolding make_peer
make_peer_total ctx x k h = rw (context_total ctx h)

-- An honest run of the simulation, with contexts within the limit, exchanges that succeed and a
-- shared X25519 value that is not all zero, returns a result: both peers complete, their secrets
-- agree, and the reported hash is that of the domain and the four messages as sent.
pub simulate_handshake_completes :
    {X K : Type 0} (c : Crypto X K) (laws : CryptoLaws c) (i : Inputs X K) (start stop : ℕ)
    → IsHonest c i
    → simulate_handshake c i.client_context i.server_context i.cx i.ck i.sx i.client_random
        i.server_random i.seed start stop
      ≡ ok (record {
        local_duration_ns = stop - start;
        client_application_match = true;
        server_application_match = true;
        transcript_hash = c.sha256 (whole_transcript c laws i);
      })
unfolding simulate_handshake
simulate_handshake_completes c laws i start stop honest = rw (
  context_total i.client_context honest.client_context,
  context_total i.server_context honest.server_context,
  make_peer_total i.client_context i.cx (some i.ck) honest.client_context,
  make_peer_total {K = _} i.server_context i.sx none honest.server_context,
  exchange_completes c laws i honest,
  peers_agree c laws i honest (stop - start),
)
