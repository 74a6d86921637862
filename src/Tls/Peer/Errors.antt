-- ===== src/Tls/Peer/Errors.antt =====
-- How the methods of tls_simulator.py (lines 184 to 332) raise: by `ProtocolError` alone, and only
-- with the peer failed and its secrets dropped.
use post_quantum_cryptograph.Common.{ℕ, ◌≤◌, ◌≡◌, none, arith, length, length-append}
use post_quantum_cryptograph.Common.Bytes.{Bytes}
use post_quantum_cryptograph.Common.Exec.{Error, Result, ok, err, protocol_error}
use post_quantum_cryptograph.Tls.Messages.{
  Message, client_hello, server_hello, finished, Sender, client, server, wire_of, construct, encode,
}
use post_quantum_cryptograph.Tls.Messages.RoundTrip.{IsWellFormed, validate_complete}
use post_quantum_cryptograph.Tls.Schedule.{Crypto, CryptoLaws}
use post_quantum_cryptograph.Tls.Schedule.Sizes.{finished_total, derive_application_total}
use post_quantum_cryptograph.Tls.Peer.{
  Peer, failed, wire_for, client_hello_wire, server_hello_wire, finished_wire,
}
use post_quantum_cryptograph.Tls.Peer.Client.{
  send_client_hello, receive_server_hello, receive_server_finished, client_finished,
}
use post_quantum_cryptograph.Tls.Peer.Server.{
  receive_client_hello, server_finished, receive_client_finished,
}
use post_quantum_cryptograph.Tls.Peer.Shares.{server_shares-outcome, client_shares-outcome}
use post_quantum_cryptograph.Tls.Peer.Invariant.{IsPeer}

abbrev pub IsProtocolError : Error → Type 0
IsProtocolError (protocol_error m) = Unit
IsProtocolError _ = ⊥

-- A peer that is failed and holds no key, schedule or application secret.
pub record IsTerminal {X K : Type 0} (p : Peer X K) : Type 0 where
  pub state : p.state ≡ failed
  pub schedule : p.schedule ≡ none
  pub traffic : p.traffic ≡ none
  pub x : p.x ≡ none
  pub kem : p.kem ≡ none

-- What a call may end with: it returns, or it raises `ProtocolError` and leaves a terminal peer.
abbrev pub RaisesCleanly : {X K A : Type 0} → Result A × Peer X K → Type 0
RaisesCleanly (ok a, p) = Unit
RaisesCleanly (err e, p) = IsProtocolError e × IsTerminal p

-- A message of the right sizes is constructed and encoded without an error.
wire_for_total : (m : Message) → IsWellFormed m → wire_for m ≡ ok (wire_of m)
unfolding wire_for construct encode
wire_for_total m v = rw (validate_complete m v, validate_complete m v)

pub client_hello_wire_total :
    (r x k c : Bytes)
    → length r ≡ 32
    → length x ≡ 32
    → length k ≡ 1184
    → length c ≤ 256
    → client_hello_wire r x k c
      ≡ ok (
          wire_of (
            client_hello (record { random = r; x25519_public = x; mlkem_public = k; context = c })))
unfolding client_hello_wire
client_hello_wire_total r x k c hr hx hk hc = unfold wire_for in wire_for_total _ (hr, hx, hk, hc)

pub server_hello_wire_total :
    (r x k c : Bytes)
    → length r ≡ 32
    → length x ≡ 32
    → length k ≡ 1088
    → length c ≤ 256
    → server_hello_wire r x k c
      ≡ ok (
          wire_of (
            server_hello
              (record { random = r; x25519_public = x; mlkem_ciphertext = k; context = c })))
unfolding server_hello_wire
server_hello_wire_total r x k c hr hx hk hc = wire_for_total _ (hr, hx, hk, hc)

pub finished_wire_total :
    (who : Sender) (mac : Bytes)
    → length mac ≡ 32
    → finished_wire who mac ≡ ok (wire_of (finished (record { sender = who; verify_data = mac })))
unfolding finished_wire
finished_wire_total who mac h = wire_for_total _ h

module _ {X K : Type 0} (c : Crypto X K) (laws : CryptoLaws c) {p : Peer X K} where
  pub send_client_hello-RaisesCleanly :
      (random : Bytes)
      → length random ≡ 32
      → IsPeer client p
      → RaisesCleanly (send_client_hello c random p)
  unfolding send_client_hello
  send_client_hello-RaisesCleanly random h v =
      grind (arith, client_hello_wire_total, laws.length-x_public, laws.length-kem_public)

  pub receive_server_hello-RaisesCleanly :
      (wire : Bytes) → IsPeer client p → RaisesCleanly (receive_server_hello c wire p)
  unfolding receive_server_hello
  receive_server_hello-RaisesCleanly wire v = grind (arith, client_shares-outcome c laws p)

  pub receive_server_finished-RaisesCleanly :
      (wire : Bytes) → IsPeer client p → RaisesCleanly (receive_server_finished c wire p)
  unfolding receive_server_finished
  receive_server_finished-RaisesCleanly wire v = grind (
    arith,
    length-append p.transcript wire,
    finished_total c laws,
    derive_application_total c laws,
  )

  pub client_finished-RaisesCleanly : IsPeer client p → RaisesCleanly (client_finished c p)
  unfolding client_finished
  client_finished-RaisesCleanly v =
      grind (arith, finished_total c laws, finished_wire_total, laws.length-hmac)

  pub receive_client_hello-RaisesCleanly :
      (random : Bytes) (seed : ℕ) (wire : Bytes)
      → IsPeer server p
      → RaisesCleanly (receive_client_hello c random seed wire p)
  unfolding receive_client_hello
  receive_client_hello-RaisesCleanly random seed wire v =
      grind (arith, server_shares-outcome c laws p)

  pub server_finished-RaisesCleanly : IsPeer server p → RaisesCleanly (server_finished c p)
  unfolding server_finished
  server_finished-RaisesCleanly v = grind (
    arith,
    finished_total c laws,
    finished_wire_total,
    laws.length-hmac,
    length-append,
    derive_application_total c laws,
  )

  pub receive_client_finished-RaisesCleanly :
      (wire : Bytes) → IsPeer server p → RaisesCleanly (receive_client_finished c wire p)
  unfolding receive_client_finished
  receive_client_finished-RaisesCleanly wire v =
      grind (arith, length-append p.transcript wire, finished_total c laws)
