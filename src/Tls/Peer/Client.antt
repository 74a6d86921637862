-- ===== src/Tls/Peer/Client.antt =====
-- `ClientPeer` (tls_simulator.py, lines 246 to 290).
use post_quantum_cryptograph.Common.{none}
use post_quantum_cryptograph.Common.Bytes.{Bytes, bytes_eq}
use post_quantum_cryptograph.Common.Exec.{
  Exec, pure, lift, gets, attribute, modify, catch_value_error, ◌>>=◌, ◌>>◌,
}
use post_quantum_cryptograph.Tls.Messages.{client, server}
use post_quantum_cryptograph.Tls.Schedule.{Crypto}
use post_quantum_cryptograph.Tls.Peer.{
  Peer, fresh, await_server_hello, await_server_finished, ready_client_finished, expect, fail,
  fail_unless, read, append, finish, or_value_error, as_server_hello, as_finished,
  client_hello_wire, finished_wire, own_finished, derive_traffic, share_keys, public_shares,
}

module _ {X K : Type 0} (c : Crypto X K) where
  -- `random` is what `os.urandom(32)` returned.
  unfoldable pub send_client_hello : Bytes → Exec (Peer X K) Bytes
  send_client_hello random = do
    expect fresh
    (x_public, kem_public) ← public_shares c
    context ← gets (λ p. p.context)
    wire ← lift (client_hello_wire random x_public kem_public context)
    append wire
    modify (λ p. record p { state = await_server_hello })
    pure wire

  -- The `try` block of `receive_server_hello`.
  unfoldable pub client_shares : Bytes → Bytes → Bytes → Exec (Peer X K) Unit
  client_shares wire x25519_public mlkem_ciphertext = do
    x ← (do k ← gets (λ p. p.x); attribute k)
    x_shared ← or_value_error (c.x_exchange x x25519_public)
    kem ← (do k ← gets (λ p. p.kem); attribute k)
    kem_shared ← or_value_error (c.kem_decapsulate kem mlkem_ciphertext)
    append wire
    share_keys c x_shared kem_shared

  unfoldable pub receive_server_hello : Bytes → Exec (Peer X K) Unit
  receive_server_hello wire = do
    expect await_server_hello
    hello ← read as_server_hello wire
    catch_value_error (client_shares wire hello.x25519_public hello.mlkem_ciphertext)
        (fail "invalid hybrid key share; peer is now terminal")
    modify (λ p. record p { x = none; kem = none; state = await_server_finished })

  unfoldable pub receive_server_finished : Bytes → Exec (Peer X K) Unit
  receive_server_finished wire = do
    expect await_server_finished
    message ← read (as_finished server) wire
    mac ← own_finished c (λ s. s.server_handshake)
    fail_unless (bytes_eq message.verify_data mac) "server Finished mismatch; peer is now terminal"
    append wire
    derive_traffic c
    modify (λ p. record p { state = ready_client_finished })

  unfoldable pub client_finished : Exec (Peer X K) Bytes
  client_finished = do
    expect ready_client_finished
    mac ← own_finished c (λ s. s.client_handshake)
    wire ← lift (finished_wire client mac)
    append wire
    finish
    pure wire
