-- ===== src/Tls/Peer/Server.antt =====
-- `ServerPeer` (tls_simulator.py, lines 293 to 332).
use post_quantum_cryptograph.Common.{none, ℕ}
use post_quantum_cryptograph.Common.Bytes.{Bytes, bytes_eq}
use post_quantum_cryptograph.Common.Exec.{
  Exec, pure, lift, gets, attribute, modify, catch_value_error, ◌>>=◌, ◌>>◌,
}
use post_quantum_cryptograph.Tls.Messages.{client, server}
use post_quantum_cryptograph.Tls.Schedule.{Crypto}
use post_quantum_cryptograph.Tls.Peer.{
  Peer, fresh, ready_server_finished, await_client_finished, expect, fail, fail_unless, read,
  append, finish, or_value_error, as_client_hello, as_finished, finished_wire, server_hello_wire,
  own_finished, derive_traffic, share_keys,
}

module _ {X K : Type 0} (c : Crypto X K) where
  -- The `try` block of `receive_client_hello`; `seed` is the randomness of the encapsulation and
  -- `random` what `os.urandom(32)` returned.
  unfoldable pub server_shares : Bytes → ℕ → Bytes → Bytes → Bytes → Exec (Peer X K) Bytes
  server_shares random seed wire x25519_public mlkem_public = do
    x ← (do k ← gets (λ p. p.x); attribute k)
    x_shared ← or_value_error (c.x_exchange x x25519_public)
    (kem_shared, ciphertext) ← or_value_error (c.kem_encapsulate mlkem_public seed)
    context ← gets (λ p. p.context)
    reply ← lift (server_hello_wire random (c.x_public x) ciphertext context)
    append wire
    append reply
    share_keys c x_shared kem_shared
    pure reply

  unfoldable pub receive_client_hello : Bytes → ℕ → Bytes → Exec (Peer X K) Bytes
  receive_client_hello random seed wire = do
    expect fresh
    hello ← read as_client_hello wire
    reply ←
        catch_value_error (server_shares random seed wire hello.x25519_public hello.mlkem_public)
          (fail "invalid hybrid key share; peer is now terminal")
    modify (λ p. record p { x = none; state = ready_server_finished })
    pure reply

  unfoldable pub server_finished : Exec (Peer X K) Bytes
  server_finished = do
    expect ready_server_finished
    mac ← own_finished c (λ s. s.server_handshake)
    wire ← lift (finished_wire server mac)
    append wire
    derive_traffic c
    modify (λ p. record p { state = await_client_finished })
    pure wire

  unfoldable pub receive_client_finished : Bytes → Exec (Peer X K) Unit
  receive_client_finished wire = do
    expect await_client_finished
    message ← read (as_finished client) wire
    mac ← own_finished c (λ s. s.client_handshake)
    fail_unless (bytes_eq message.verify_data mac) "client Finished mismatch; peer is now terminal"
    append wire
    finish
