-- ===== src/Tls/Handshake/Steps.antt =====
-- Each method of the two peers (tls_simulator.py, lines 246 to 332) on the message that it expects.
use post_quantum_cryptograph.Common.{ℕ, ◌+◌, ◌≤◌, ◌≡◌, Option, none, some, ◌++◌, arith, length}
use post_quantum_cryptograph.Common.Bytes.{Bytes, bytes_eq_refl}
use post_quantum_cryptograph.Common.Exec.{ok}
use post_quantum_cryptograph.Tls.Messages.{
  ClientHello, ServerHello, client_hello, server_hello, finished, client, server, decode_message,
}
use post_quantum_cryptograph.Tls.Schedule.{
  Crypto, Schedule, TrafficSecrets, key_schedule, finished_mac, derive_application,
}
use post_quantum_cryptograph.Tls.Peer.{
  Peer, State, fresh, await_server_hello, await_server_finished, ready_client_finished,
  ready_server_finished, await_client_finished, complete, client_hello_wire, server_hello_wire,
  finished_wire,
}
use post_quantum_cryptograph.Tls.Peer.Client.{
  send_client_hello, receive_server_hello, receive_server_finished, client_finished, client_shares,
}
use post_quantum_cryptograph.Tls.Peer.Server.{
  receive_client_hello, server_finished, receive_client_finished, server_shares,
}

module _ {X K : Type 0} where
  abbrev pub peer :
      Bytes
      → State
      → Bytes
      → Option Schedule
      → Option TrafficSecrets
      → Option X
      → Option K
      → Peer X K
  peer ctx state t s tr x k = record {
    context = ctx;
    state = state;
    transcript = t;
    schedule = s;
    traffic = tr;
    x = x;
    kem = k;
  }

module _ {X K : Type 0} (c : Crypto X K) (ctx t : Bytes) where
  pub send_client_hello_step :
      (r w : Bytes) (x : X) (k : K)
      → client_hello_wire r (c.x_public x) (c.kem_public k) ctx ≡ ok w
      → length t + length w ≤ 4096
      → send_client_hello c r (peer ctx fresh t none none (some x) (some k))
        ≡ (ok w, peer ctx await_server_hello (t ++ w) none none (some x) (some k))
  unfolding send_client_hello
  send_client_hello_step r w x k e h = ground arith

  pub receive_client_hello_step :
      (r w reply xs ks ct : Bytes) (seed : ℕ) (h : ClientHello) (x : X) (s : Schedule)
      → decode_message w ≡ ok (client_hello h)
      → c.x_exchange x h.x25519_public ≡ some xs
      → c.kem_encapsulate h.mlkem_public seed ≡ some (ks, ct)
      → server_hello_wire r (c.x_public x) ct ctx ≡ ok reply
      → length t + length w ≤ 4096
      → length (t ++ w) + length reply ≤ 4096
      → key_schedule c xs ks ((t ++ w) ++ reply) ≡ ok s
      → receive_client_hello c r seed w (peer ctx fresh t none none (some x) none)
        ≡ (ok reply, peer ctx ready_server_finished ((t ++ w) ++ reply) (some s) none none none)
  unfolding receive_client_hello server_shares
  receive_client_hello_step r w reply xs ks ct seed h x s d ex ke rw_ok h₁ h₂ sched = ground arith

  pub receive_server_hello_step :
      (w xs ks : Bytes) (h : ServerHello) (x : X) (k : K) (s : Schedule)
      → decode_message w ≡ ok (server_hello h)
      → c.x_exchange x h.x25519_public ≡ some xs
      → c.kem_decapsulate k h.mlkem_ciphertext ≡ some ks
      → length t + length w ≤ 4096
      → key_schedule c xs ks (t ++ w) ≡ ok s
      → receive_server_hello c w (peer ctx await_server_hello t none none (some x) (some k))
        ≡ (ok tt, peer ctx await_server_finished (t ++ w) (some s) none none none)
  unfolding receive_server_hello client_shares
  receive_server_hello_step w xs ks h x k s d ex kd h₁ sched = ground arith

  module _ (s : Schedule) (w mac : Bytes) (fits : length t + length w ≤ 4096) where
    pub server_finished_step :
        (tr : TrafficSecrets)
        → finished_mac c s.server_handshake t ≡ ok mac
        → finished_wire server mac ≡ ok w
        → derive_application c s.master (t ++ w) ≡ ok tr
        → server_finished {X = X} {K = K} c
            (peer ctx ready_server_finished t (some s) none none none)
          ≡ (ok w, peer ctx await_client_finished (t ++ w) (some s) (some tr) none none)
    unfolding server_finished
    server_finished_step tr e₁ e₂ e₃ = ground arith

    pub receive_server_finished_step :
        (tr : TrafficSecrets)
        → decode_message w ≡ ok (finished (record { sender = server; verify_data = mac }))
        → finished_mac c s.server_handshake t ≡ ok mac
        → derive_application c s.master (t ++ w) ≡ ok tr
        → receive_server_finished {X = X} {K = K} c w
            (peer ctx await_server_finished t (some s) none none none)
          ≡ (ok tt, peer ctx ready_client_finished (t ++ w) (some s) (some tr) none none)
    unfolding receive_server_finished
    receive_server_finished_step tr e₁ e₂ e₃ = ground (arith, bytes_eq_refl mac)

    pub client_finished_step :
        (tr : TrafficSecrets)
        → finished_mac c s.client_handshake t ≡ ok mac
        → finished_wire client mac ≡ ok w
        → client_finished {X = X} {K = K} c
            (peer ctx ready_client_finished t (some s) (some tr) none none)
          ≡ (ok w, peer ctx complete (t ++ w) none (some tr) none none)
    unfolding client_finished
    client_finished_step tr e₁ e₂ = ground arith

    pub receive_client_finished_step :
        (tr : TrafficSecrets)
        → decode_message w ≡ ok (finished (record { sender = client; verify_data = mac }))
        → finished_mac c s.client_handshake t ≡ ok mac
        → receive_client_finished {X = X} {K = K} c w
            (peer ctx await_client_finished t (some s) (some tr) none none)
          ≡ (ok tt, peer ctx complete (t ++ w) none (some tr) none none)
    unfolding receive_client_finished
    receive_client_finished_step tr e₁ e₂ = ground (arith, bytes_eq_refl mac)
