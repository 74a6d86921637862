-- ===== src/Tls/Peer/Accepts.antt =====
-- Which Finished messages the peers of tls_simulator.py (lines 274 to 282, 325 to 332) accept.
use post_quantum_cryptograph.Common.{
  ◌+◌, ◌≤◌, ◌≡◌, ◌↔◌, some, arith, length, ◌++◌, subst, length-append,
}
use post_quantum_cryptograph.Common.Bytes.{Bytes, bytes_eq_iff}
use post_quantum_cryptograph.Common.Exec.{ok}
use post_quantum_cryptograph.Tls.Messages.{finished, Sender, client, server, decode_message}
use post_quantum_cryptograph.Tls.Schedule.{Crypto, CryptoLaws, Schedule}
use post_quantum_cryptograph.Tls.Schedule.Sizes.{
  HasSizes, finished_of, finished_total, derive_application_total,
}
use post_quantum_cryptograph.Tls.Peer.{Peer, await_server_finished, await_client_finished}
use post_quantum_cryptograph.Tls.Peer.Client.{receive_server_finished}
use post_quantum_cryptograph.Tls.Peer.Server.{receive_client_finished}
use post_quantum_cryptograph.Tls.Peer.Shares.{Sized}
use post_quantum_cryptograph.Tls.Peer.Invariant.{IsPeer}

-- The wire holds the Finished message of `who` with the MAC of `secret` over the transcript so far,
-- and fits into the transcript.
abbrev pub Confirms :
    {X K : Type 0} (c : Crypto X K) → CryptoLaws c → Sender → Bytes → Bytes → Bytes → Type 0
Confirms c laws who secret transcript wire =
    (decode_message wire
      ≡ ok (finished (record { sender = who; verify_data = finished_of c laws secret transcript })))
    × (length transcript + length wire ≤ 4096)

module _ {X K : Type 0} (c : Crypto X K) (laws : CryptoLaws c) (wire : Bytes) {p : Peer X K} where
  -- A client that awaits it accepts exactly the server's Finished message over its own transcript,
  -- under its own server handshake secret.
  pub receive_server_finished_iff :
      (s : Schedule)
      → IsPeer client p
      → p.state ≡ await_server_finished
      → p.schedule ≡ some s
      → ((receive_server_finished c wire p).0 ≡ ok tt)
        ↔ Confirms c laws server s.server_handshake p.transcript wire
  unfolding receive_server_finished
  receive_server_finished_iff s v st sc =
      let sz : HasSizes s = subst Sized sc v.sized in
      let mac = finished_of c laws s.server_handshake p.transcript in
      (
        λ h. grind (arith, bytes_eq_iff, finished_total c laws s.server_handshake p.transcript),
        λ h. grind (
          arith,
          bytes_eq_iff mac mac,
          finished_total c laws s.server_handshake p.transcript,
          length-append p.transcript wire,
          derive_application_total c laws s.master (p.transcript ++ wire),
        ),
      )

  -- A server that awaits it accepts exactly the client's Finished message over its own transcript,
  -- under its own client handshake secret.
  pub receive_client_finished_iff :
      (s : Schedule)
      → IsPeer server p
      → p.state ≡ await_client_finished
      → p.schedule ≡ some s
      → ((receive_client_finished c wire p).0 ≡ ok tt)
        ↔ Confirms c laws client s.client_handshake p.transcript wire
  unfolding receive_client_finished
  receive_client_finished_iff s v st sc =
      let sz : HasSizes s = subst Sized sc v.sized in
      let mac = finished_of c laws s.client_handshake p.transcript in
      (
        λ h. grind (arith, bytes_eq_iff, finished_total c laws s.client_handshake p.transcript),
        λ h.
            grind
              (arith, bytes_eq_iff mac mac, finished_total c laws s.client_handshake p.transcript),
      )
