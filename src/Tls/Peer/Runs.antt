-- ===== src/Tls/Peer/Runs.antt =====
-- Any sequence of calls on a peer of tls_simulator.py (lines 184 to 332), whatever the network and
-- the caller do.
use post_quantum_cryptograph.Common.{
  ℕ, ◌≡◌, ◌⊎◌, Bool, true, false, List, [], ◌∷◌, Option, none, some, arith, length,
}
use post_quantum_cryptograph.Common.Bytes.{Bytes}
use post_quantum_cryptograph.Common.Exec.{Result, ok, err, protocol_error, Exec, pure, ◌>>◌}
use post_quantum_cryptograph.Tls.Messages.{Sender, client, server, check_context}
use post_quantum_cryptograph.Tls.Schedule.{Crypto, CryptoLaws, domain}
use post_quantum_cryptograph.Tls.Peer.{
  Peer, complete, failed, same_state, make_peer, traffic_secrets,
}
use post_quantum_cryptograph.Tls.Peer.Client.{
  send_client_hello, receive_server_hello, receive_server_finished, client_finished,
}
use post_quantum_cryptograph.Tls.Peer.Server.{
  receive_client_hello, server_finished, receive_client_finished,
}
use post_quantum_cryptograph.Tls.Peer.Invariant.{
  IsPeer, send_client_hello-IsPeer, receive_server_hello-IsPeer, receive_server_finished-IsPeer,
  client_finished-IsPeer, receive_client_hello-IsPeer, server_finished-IsPeer,
  receive_client_finished-IsPeer,
}
use post_quantum_cryptograph.Tls.Peer.Errors.{
  IsTerminal, RaisesCleanly, send_client_hello-RaisesCleanly, receive_server_hello-RaisesCleanly,
  receive_server_finished-RaisesCleanly, client_finished-RaisesCleanly,
  receive_client_hello-RaisesCleanly, server_finished-RaisesCleanly,
  receive_client_finished-RaisesCleanly,
}

-- A call of a public method, by class: its arguments and the randomness that it draws.
pub data Call : Sender → Type 0 where
  send_client_hello_call : Bytes → Call client
  receive_server_hello_call : Bytes → Call client
  receive_server_finished_call : Bytes → Call client
  client_finished_call : Call client
  receive_client_hello_call : Bytes → ℕ → Bytes → Call server
  server_finished_call : Call server
  receive_client_finished_call : Bytes → Call server

-- `os.urandom(32)` returns 32 bytes.
abbrev pub Draws32 : {role : Sender} → Call role → Type 0
Draws32 (send_client_hello_call random) = length random ≡ 32
Draws32 (receive_client_hello_call random seed wire) = length random ≡ 32
Draws32 _ = Unit

-- The key that `ClientPeer.__init__` adds.
abbrev pub kem_for {ℓ} : {K : Type ℓ} → Sender → K → Option K
kem_for client k = some k
kem_for server k = none

module _ {X K : Type 0} (c : Crypto X K) where
  -- A call; what it sends is dropped here.
  unfoldable pub perform : {role : Sender} → Call role → Exec (Peer X K) Unit
  perform (send_client_hello_call random) = do send_client_hello c random; pure tt
  perform (receive_server_hello_call wire) = receive_server_hello c wire
  perform (receive_server_finished_call wire) = receive_server_finished c wire
  perform client_finished_call = do client_finished c; pure tt
  perform (receive_client_hello_call random seed wire) = do
    receive_client_hello c random seed wire
    pure tt
  perform server_finished_call = do server_finished c; pure tt
  perform (receive_client_finished_call wire) = receive_client_finished c wire

  -- The peer after the calls; the caller may catch what they raise and go on.
  unfoldable pub run : {role : Sender} → List (Call role) → Peer X K → Peer X K
  run [] p = p
  run (call ∷ calls) p = run calls (perform call p).1

  module _ (laws : CryptoLaws c) where
    perform-IsPeer :
        {role : Sender} (call : Call role) {p : Peer X K}
        → IsPeer role p
        → IsPeer role (perform call p).1
    unfolding perform
    perform-IsPeer (send_client_hello_call random) v =
        ground (arith, send_client_hello-IsPeer c laws random v)
    perform-IsPeer (receive_server_hello_call wire) v = receive_server_hello-IsPeer c laws wire v
    perform-IsPeer (receive_server_finished_call wire) v =
        receive_server_finished-IsPeer c laws wire v
    perform-IsPeer client_finished_call v = ground (arith, client_finished-IsPeer c laws v)
    perform-IsPeer (receive_client_hello_call random seed wire) v =
        ground (arith, receive_client_hello-IsPeer c laws random seed wire v)
    perform-IsPeer server_finished_call v = ground (arith, server_finished-IsPeer c laws v)
    perform-IsPeer (receive_client_finished_call wire) v =
        receive_client_finished-IsPeer c laws wire v

    run-IsPeer :
        {role : Sender} (calls : List (Call role)) {p : Peer X K}
        → IsPeer role p
        → IsPeer role (run calls p)
    unfolding run
    run-IsPeer [] v = v
    run-IsPeer (call ∷ calls) v = run-IsPeer calls (perform-IsPeer call v)

    perform-RaisesCleanly :
        {role : Sender} (call : Call role) {p : Peer X K}
        → Draws32 call
        → IsPeer role p
        → RaisesCleanly (perform call p)
    unfolding perform
    perform-RaisesCleanly (send_client_hello_call random) h v =
        ground (arith, send_client_hello-RaisesCleanly c laws random h v)
    perform-RaisesCleanly (receive_server_hello_call wire) h v =
        receive_server_hello-RaisesCleanly c laws wire v
    perform-RaisesCleanly (receive_server_finished_call wire) h v =
        receive_server_finished-RaisesCleanly c laws wire v
    perform-RaisesCleanly client_finished_call h v =
        ground (arith, client_finished-RaisesCleanly c laws v)
    perform-RaisesCleanly (receive_client_hello_call random seed wire) h v =
        ground (arith, receive_client_hello-RaisesCleanly c laws random seed wire v)
    perform-RaisesCleanly server_finished_call h v =
        ground (arith, server_finished-RaisesCleanly c laws v)
    perform-RaisesCleanly (receive_client_finished_call wire) h v =
        receive_client_finished-RaisesCleanly c laws wire v

make_peer-IsPeer :
    {X K : Type 0} (role : Sender) (context : Bytes) (x : X) (k : K) {p : Peer X K}
    → make_peer context x (kem_for role k) ≡ ok p
    → IsPeer role p
unfolding make_peer check_context domain
make_peer-IsPeer client context x k h = ground arith
make_peer-IsPeer server context x k h = ground arith

abbrev pub is_ok : {A : Type 0} → Result A → Bool
is_ok (ok a) = true
is_ok (err e) = false

module _ {X K : Type 0} (c : Crypto X K) where
  -- From its construction on, whatever calls were made before, a peer is in a state of its class,
  -- its transcript is within the limit, and it holds its keys, schedule and application secrets in
  -- exactly the states that use them.
  pub run_keeps_IsPeer :
      CryptoLaws c
      → (role : Sender) (context : Bytes) (x : X) (k : K) {p : Peer X K} (calls : List (Call role))
      → make_peer context x (kem_for role k) ≡ ok p
      → IsPeer role (run c calls p)
  run_keeps_IsPeer laws role context x k calls h =
      run-IsPeer c laws calls (make_peer-IsPeer role context x k h)

  -- A call on a peer, after any earlier calls, returns, or it raises `ProtocolError` and leaves the
  -- peer failed, with no key, schedule or application secret; no other exception escapes.
  pub calls_raise_cleanly :
      CryptoLaws c
      → (role : Sender) (context : Bytes) (x : X) (k : K) {p : Peer X K} (calls : List (Call role))
        (call : Call role)
      → make_peer context x (kem_for role k) ≡ ok p
      → Draws32 call
      → RaisesCleanly (perform c call (run c calls p))
  calls_raise_cleanly laws role context x k calls call h draws =
      perform-RaisesCleanly c laws call draws (run_keeps_IsPeer laws role context x k calls h)

  -- A peer that is complete or failed takes no further call: each raises `ProtocolError` and leaves
  -- the peer failed with nothing held, its transcript unchanged.
  pub closed_for_good :
      {role : Sender} (call : Call role) (p : Peer X K)
      → (p.state ≡ complete) ⊎ (p.state ≡ failed)
      → (perform c call p).0
          ≡ err (protocol_error "out-of-order or replayed operation; peer is now terminal")
        × IsTerminal (perform c call p).1
        × ((perform c call p).1.transcript ≡ p.transcript)
  unfolding perform send_client_hello receive_server_hello receive_server_finished client_finished
      receive_client_hello server_finished receive_client_finished
  closed_for_good client_finished_call p h = ground arith
  closed_for_good call p h = ground arith

  -- After any calls, the application secrets are handed out exactly in the state `complete`, and
  -- there the private keys and the schedule are gone.
  pub traffic_only_when_complete :
      CryptoLaws c
      → (role : Sender) (context : Bytes) (x : X) (k : K) {p : Peer X K} (calls : List (Call role))
      → make_peer context x (kem_for role k) ≡ ok p
      → let q = run c calls p in
        (is_ok (traffic_secrets q) ≡ same_state q.state complete)
        × (q.state ≡ complete → (q.x ≡ none) × (q.kem ≡ none) × (q.schedule ≡ none))
  unfolding traffic_secrets
  traffic_only_when_complete laws client context x k {p} calls h =
      let v = run_keeps_IsPeer laws client context x k calls h in (ground arith, λ e. ground arith)
  traffic_only_when_complete laws server context x k {p} calls h =
      let v = run_keeps_IsPeer laws server context x k calls h in (ground arith, λ e. ground arith)
