-- ===== src/Tls/Peer/Invariant.antt =====
-- What a peer of tls_simulator.py (lines 184 to 332) holds in each state, and that every method
-- keeps it so, whether the method returns or raises.
use post_quantum_cryptograph.Common.{ℕ, ◌≤◌, ◌≡◌, Bool, true, false, arith, length, length-append}
use post_quantum_cryptograph.Common.Bytes.{Bytes}
use post_quantum_cryptograph.Common.Dict.{is_some}
use post_quantum_cryptograph.Common.Exec.{is_value_error}
use post_quantum_cryptograph.Tls.Messages.{Sender, client, server}
use post_quantum_cryptograph.Tls.Schedule.{Crypto, CryptoLaws}
use post_quantum_cryptograph.Tls.Peer.Shares.{Sized, server_shares-outcome, client_shares-outcome}
use post_quantum_cryptograph.Tls.Peer.{
  Peer, State, fresh, await_server_hello, await_server_finished, ready_client_finished,
  ready_server_finished, await_client_finished, complete,
}
use post_quantum_cryptograph.Tls.Peer.Client.{
  send_client_hello, receive_server_hello, receive_server_finished, client_finished,
}
use post_quantum_cryptograph.Tls.Peer.Server.{
  receive_client_hello, server_finished, receive_client_finished,
}

-- The states of each class.
abbrev pub of_role : Sender → State → Bool
of_role client ready_server_finished = false
of_role client await_client_finished = false
of_role server await_server_hello = false
of_role server await_server_finished = false
of_role server ready_client_finished = false
of_role role state = true

-- The states in which the private X25519 key, the schedule and the application secrets are held.
abbrev pub holds_x : State → Bool
holds_x fresh = true
holds_x await_server_hello = true
holds_x _ = false

abbrev pub holds_kem : Sender → State → Bool
holds_kem client state = holds_x state
holds_kem server state = false

abbrev pub holds_schedule : State → Bool
holds_schedule await_server_finished = true
holds_schedule ready_client_finished = true
holds_schedule ready_server_finished = true
holds_schedule await_client_finished = true
holds_schedule _ = false

abbrev pub holds_traffic : State → Bool
holds_traffic ready_client_finished = true
holds_traffic await_client_finished = true
holds_traffic complete = true
holds_traffic _ = false

pub record IsPeer {X K : Type 0} (role : Sender) (p : Peer X K) : Type 0 where
  pub role_state : of_role role p.state ≡ true
  pub transcript : length p.transcript ≤ 4096
  pub context : length p.context ≤ 256
  pub x : is_some p.x ≡ holds_x p.state
  pub kem : is_some p.kem ≡ holds_kem role p.state
  pub schedule : is_some p.schedule ≡ holds_schedule p.state
  pub traffic : is_some p.traffic ≡ holds_traffic p.state
  pub sized : Sized p.schedule

module _ {X K : Type 0} (c : Crypto X K) (laws : CryptoLaws c) {p : Peer X K} where
  pub send_client_hello-IsPeer :
      (random : Bytes) → IsPeer client p → IsPeer client (send_client_hello c random p).1
  unfolding send_client_hello
  send_client_hello-IsPeer random v = grind (arith, length-append)

  pub receive_server_finished-IsPeer :
      (wire : Bytes) → IsPeer client p → IsPeer client (receive_server_finished c wire p).1
  unfolding receive_server_finished
  receive_server_finished-IsPeer wire v = ground (arith, length-append p.transcript wire)

  pub receive_server_hello-IsPeer :
      (wire : Bytes) → IsPeer client p → IsPeer client (receive_server_hello c wire p).1
  unfolding receive_server_hello is_value_error
  receive_server_hello-IsPeer wire v = grind (arith, client_shares-outcome c laws p)

  pub client_finished-IsPeer : IsPeer client p → IsPeer client (client_finished c p).1
  unfolding client_finished
  client_finished-IsPeer v = grind (arith, length-append)

  pub receive_client_hello-IsPeer :
      (random : Bytes) (seed : ℕ) (wire : Bytes)
      → IsPeer server p
      → IsPeer server (receive_client_hello c random seed wire p).1
  unfolding receive_client_hello is_value_error
  receive_client_hello-IsPeer random seed wire v = grind (arith, server_shares-outcome c laws p)

  pub server_finished-IsPeer : IsPeer server p → IsPeer server (server_finished c p).1
  unfolding server_finished
  server_finished-IsPeer v = grind (arith, length-append)

  pub receive_client_finished-IsPeer :
      (wire : Bytes) → IsPeer server p → IsPeer server (receive_client_finished c wire p).1
  unfolding receive_client_finished
  receive_client_finished-IsPeer wire v = ground (arith, length-append p.transcript wire)
