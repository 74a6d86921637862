-- ===== src/Tls/Peer.antt =====
-- The two peers of src/pqc_bench/tls_simulator.py (lines 184 to 332). A method is an action on the
-- peer's state that returns or raises; the state comes back either way. Fresh randomness and the
-- generated private keys are arguments.
pub mod Client
pub mod Server
mod Shares
pub mod Invariant
pub mod Errors
pub mod Runs
pub mod Accepts
use post_quantum_cryptograph.Common.{
  ℕ, ◌+◌, ◌<◌, ◌≤◌, ◌≡◌, String, Bool, true, false, not, List, [], ◌∷◌, ◌++◌, Option, none, some,
  ltb, ◌==◌, if◌then◌else◌, length,
}
use post_quantum_cryptograph.Common.Bytes.{Bytes, bytes_eq}
use post_quantum_cryptograph.Common.Exec.{
  Error, Result, ok, err, value_error, protocol_error, attribute_error, Exec, pure, raise, lift,
  gets, attribute, modify, catch_value_error, ◌>>=◌, ◌>>◌, ◌>>?◌,
}
use post_quantum_cryptograph.Tls.Messages.{
  Message, client_hello, server_hello, finished, ClientHello, ServerHello, Finished, Sender, client,
  server, construct, encode, decode_message, check_context, max_transcript_bytes,
}
use post_quantum_cryptograph.Tls.Schedule.{
  Crypto, Schedule, TrafficSecrets, domain, key_schedule, finished_mac, derive_application,
}

-- The texts that `_state` may hold, of both classes.
pub data State : Type 0 where
  fresh await_server_hello await_server_finished ready_client_finished : State
  ready_server_finished await_client_finished complete failed : State

abbrev state_index : State → ℕ
state_index fresh = 0
state_index await_server_hello = 1
state_index await_server_finished = 2
state_index ready_client_finished = 3
state_index ready_server_finished = 4
state_index await_client_finished = 5
state_index complete = 6
state_index failed = 7

abbrev pub same_state : State → State → Bool
same_state a b = state_index a == state_index b

-- `_Peer`, over the types of private keys.
pub record Peer (X K : Type 0) : Type 0 where
  pub context : Bytes
  pub state : State
  pub transcript : Bytes
  pub schedule : Option Schedule
  pub traffic : Option TrafficSecrets
  pub x : Option X
  pub kem : Option K

module _ {X K : Type 0} where
  -- The constructors: `ClientPeer` also generates an ML-KEM key, `ServerPeer` does not.
  unfoldable pub make_peer : Bytes → X → Option K → Result (Peer X K)
  make_peer context x kem = check_context context >>? λ _. ok (record {
    context = context;
    state = fresh;
    transcript = domain;
    schedule = none;
    traffic = none;
    x = some x;
    kem = kem;
  })

  -- `traffic_secrets`
  unfoldable pub traffic_secrets : Peer X K → Result TrafficSecrets
  traffic_secrets p = elim p.traffic [
    | none ↦ err (protocol_error "application secrets are available only after local completion")
    | some t ↦
        if same_state p.state complete
        then ok t
        else err (protocol_error "application secrets are available only after local completion")
  ]

  abbrev pub terminal : Peer X K → Peer X K
  terminal p = record p { state = failed; schedule = none; traffic = none; x = none; kem = none }

  -- `_fail`
  abbrev pub fail : {A : Type 0} → String → Exec (Peer X K) A
  fail message p = (err (protocol_error message), terminal p)

  -- if not test: self._fail(message)
  abbrev fail_unless : Bool → String → Exec (Peer X K) (Unit {0})
  fail_unless true message = pure tt
  fail_unless false message = fail message

  -- `_expect`
  abbrev expect : State → Exec (Peer X K) (Unit {0})
  expect state p =
      fail_unless (same_state p.state state)
        "out-of-order or replayed operation; peer is now terminal" p

  -- `_read`, with the test on class and sender as a partial function. `decode_message` raises
  -- nothing but `ProtocolError`, a `ValueError`.
  abbrev expected : {A : Type 0} → Option A → Exec (Peer X K) A
  expected none = fail "unexpected message type or sender; peer is now terminal"
  expected (some a) = pure a

  abbrev read_result : {A : Type 0} → (Message → Option A) → Result Message → Exec (Peer X K) A
  read_result select (ok message) = expected (select message)
  read_result select (err e) = fail "invalid message; peer is now terminal"

  abbrev read : {A : Type 0} → (Message → Option A) → Bytes → Exec (Peer X K) A
  read select wire = read_result select (decode_message wire)

  -- `_append`
  abbrev append : Bytes → Exec (Peer X K) (Unit {0})
  append wire = do
    transcript ← gets (λ p. p.transcript)
    fail_unless (not (ltb max_transcript_bytes (length transcript + length wire)))
        "transcript limit exceeded"
    modify (λ p. record p { transcript = p.transcript ++ wire })

  -- `_complete`
  abbrev finish : Exec (Peer X K) (Unit {0})
  finish = modify (λ p. record p { schedule = none; x = none; kem = none; state = complete })

  -- An exchange that raises `ValueError`.
  abbrev or_value_error : {A : Type 0} → Option A → Exec (Peer X K) A
  or_value_error none = raise (value_error "invalid key share")
  or_value_error (some a) = pure a

abbrev as_client_hello : Message → Option ClientHello
as_client_hello (client_hello h) = some h
as_client_hello _ = none

abbrev as_server_hello : Message → Option ServerHello
as_server_hello (server_hello h) = some h
as_server_hello _ = none

abbrev as_finished_from : Sender → Finished → Option Finished
as_finished_from client f = elim f.sender [ client ↦ some f | server ↦ none ]
as_finished_from server f = elim f.sender [ client ↦ none | server ↦ some f ]

abbrev as_finished : Sender → Message → Option Finished
as_finished who (finished f) = as_finished_from who f
as_finished who _ = none

-- The constructor and then its `encode`.
unfoldable pub wire_for : Message → Result Bytes
wire_for m = construct m >>? λ m'. encode m'

unfoldable pub client_hello_wire : Bytes → Bytes → Bytes → Bytes → Result Bytes
unfolding wire_for
client_hello_wire random x25519_public mlkem_public context = wire_for (
    client_hello (record {
      random = random;
      x25519_public = x25519_public;
      mlkem_public = mlkem_public;
      context = context;
    }))

unfoldable pub finished_wire : Sender → Bytes → Result Bytes
unfolding wire_for
finished_wire sender mac = wire_for (finished (record { sender = sender; verify_data = mac }))

unfoldable pub server_hello_wire : Bytes → Bytes → Bytes → Bytes → Result Bytes
unfolding wire_for
server_hello_wire random x25519_public ciphertext context = wire_for (
    server_hello (record {
      random = random;
      x25519_public = x25519_public;
      mlkem_ciphertext = ciphertext;
      context = context;
    }))

module _ {X K : Type 0} (c : Crypto X K) where
  -- The secret of the current schedule that `field` names; the schedule may be `None`.
  abbrev scheduled : (Schedule → Bytes) → Exec (Peer X K) Bytes
  scheduled field p = elim p.schedule [
    | none ↦ (err attribute_error, p)
    | some s ↦ (ok (field s), p)
  ]

  -- The Finished value over the current transcript.
  abbrev own_finished : (Schedule → Bytes) → Exec (Peer X K) Bytes
  own_finished field = do
    secret ← scheduled field
    transcript ← gets (λ p. p.transcript)
    lift (finished_mac c secret transcript)

  -- `_derive_application`
  abbrev derive_traffic : Exec (Peer X K) (Unit {0})
  derive_traffic = do
    master ← scheduled (λ s. s.master)
    transcript ← gets (λ p. p.transcript)
    traffic ← lift (derive_application c master transcript)
    modify (λ p. record p { traffic = some traffic })

  abbrev share_keys : Bytes → Bytes → Exec (Peer X K) (Unit {0})
  share_keys x_shared kem_shared = do
    transcript ← gets (λ p. p.transcript)
    schedule ← lift (key_schedule c x_shared kem_shared transcript)
    modify (λ p. record p { schedule = some schedule })

  abbrev public_shares : Exec (Peer X K) (Bytes × Bytes)
  public_shares = do
    x ← (do k ← gets (λ p. p.x); attribute k)
    kem ← (do k ← gets (λ p. p.kem); attribute k)
    pure (c.x_public x, c.kem_public kem)
