-- ===== src/Tls/Handshake.antt =====
-- `simulate_handshake` of src/pqc_bench/tls_simulator.py (lines 335 to 381). The two readings of the
-- clock, the generated keys and the randomness are arguments; the hex text of a digest is its bytes.
mod Steps
pub mod Agreement
use post_quantum_cryptograph.Common.{
  ℕ, ◌-◌, String, Bool, true, false, ◌&&◌, ◌||◌, not, Option, none, some, if◌then◌else◌, ◌∷◌, [],
}
use post_quantum_cryptograph.Common.Bytes.{Bytes, bytes_eq}
use post_quantum_cryptograph.Common.Exec.{Error, Result, ok, err, protocol_error, ◌>>?◌}
use post_quantum_cryptograph.Tls.Messages.{check_context}
use post_quantum_cryptograph.Tls.Schedule.{Crypto}
use post_quantum_cryptograph.Tls.Peer.{Peer, make_peer, traffic_secrets}
use post_quantum_cryptograph.Tls.Peer.Client.{
  send_client_hello, receive_server_hello, receive_server_finished, client_finished,
}
use post_quantum_cryptograph.Tls.Peer.Server.{
  receive_client_hello, server_finished, receive_client_finished,
}

pub record SimulationResult : Type 0 where
  pub local_duration_ns : ℕ
  pub client_application_match : Bool
  pub server_application_match : Bool
  pub transcript_hash : Bytes

-- A call whose exception ends the simulation.
abbrev pub called : {A S : Type 0} → Result A × S → Result (A × S)
called (ok a, s) = ok (a, s)
called (err e, s) = err e

module _ {X K : Type 0} (c : Crypto X K) where
  -- `transcript_hash`
  abbrev pub transcript_hash : Peer X K → Bytes
  transcript_hash p = c.sha256 p.transcript

  -- The comparison of the two peers at the end.
  unfoldable pub compare_peers : Peer X K → Peer X K → ℕ → Result SimulationResult
  unfolding traffic_secrets
  compare_peers client server duration = traffic_secrets client >>? λ cl.
      traffic_secrets server >>? λ sv.
      let c_match = bytes_eq cl.client_application sv.client_application in
      let s_match = bytes_eq cl.server_application sv.server_application in
      let digest = transcript_hash client in
      if not c_match || not s_match || not (bytes_eq digest (transcript_hash server))
      then err (protocol_error "independent peer derivations did not agree")
      else ok (record {
        local_duration_ns = duration;
        client_application_match = c_match;
        server_application_match = s_match;
        transcript_hash = digest;
      })

  -- The exchange of messages between two fresh peers.
  unfoldable pub exchange : Bytes → Bytes → ℕ → Peer X K → Peer X K → Result (Peer X K × Peer X K)
  exchange client_random server_random seed client server =
      called (send_client_hello c client_random client) >>? λ (hello, client).
      called (receive_client_hello c server_random seed hello server) >>? λ (reply, server).
      called (receive_server_hello c reply client) >>? λ (_, client).
      called (server_finished c server) >>? λ (sf, server).
      called (receive_server_finished c sf client) >>? λ (_, client).
      called (client_finished c client) >>? λ (cf, client).
      called (receive_client_finished c cf server) >>? λ (_, server). ok (client, server)

  unfoldable pub simulate_handshake :
      Bytes → Bytes → X → K → X → Bytes → Bytes → ℕ → ℕ → ℕ → Result SimulationResult
  simulate_handshake client_context server_context cx ck sx client_random server_random seed start
        stop =
      check_context client_context >>? λ _. check_context server_context >>? λ _.
      make_peer {K = K} client_context cx (some ck) >>? λ client.
      make_peer {K = K} server_context sx none >>? λ server.
      exchange client_random server_random seed client server >>? λ (client, server).
      compare_peers client server (stop - start)
