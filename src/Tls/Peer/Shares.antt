-- ===== src/Tls/Peer/Shares.antt =====
-- The `try` blocks of the two hello handlers (tls_simulator.py, lines 264 to 268 and 300 to 309):
-- they derive a schedule or raise a `ValueError`.
use post_quantum_cryptograph.Common.{
  ℕ, ◌≤◌, ◌≡◌, true, Option, none, some, arith, length, length-append,
}
use post_quantum_cryptograph.Common.Bytes.{Bytes}
use post_quantum_cryptograph.Common.Dict.{is_some}
use post_quantum_cryptograph.Common.Exec.{Error, Result, ok, err, is_value_error}
use post_quantum_cryptograph.Tls.Messages.{check_bytes, validate, construct, encode}
use post_quantum_cryptograph.Tls.Schedule.{
  Crypto, CryptoLaws, Schedule, key_schedule, derive_secret, hkdf_extract, hkdf_expand_label,
}
use post_quantum_cryptograph.Tls.Schedule.Sizes.{HasSizes, key_schedule-HasSizes}
use post_quantum_cryptograph.Tls.Peer.{Peer, server_hello_wire}
use post_quantum_cryptograph.Tls.Peer.Client.{client_shares}
use post_quantum_cryptograph.Tls.Peer.Server.{server_shares}

abbrev pub Sized : Option Schedule → Type 0
Sized none = Unit
Sized (some s) = HasSizes s

-- What a block that returned has changed: the transcript, within its limit, and the schedule.
pub record Shared {X K : Type 0} (p q : Peer X K) : Type 0 where
  pub transcript : length q.transcript ≤ 4096
  pub scheduled : is_some q.schedule ≡ true
  pub sized : Sized q.schedule
  pub context : q.context ≡ p.context
  pub state : q.state ≡ p.state
  pub traffic : q.traffic ≡ p.traffic
  pub kem : q.kem ≡ p.kem

abbrev pub ShareOutcome : {X K A : Type 0} → Peer X K → Result A × Peer X K → Type 0
ShareOutcome p (ok a, q) = Shared p q
ShareOutcome p (err e, q) =
    (is_value_error e ≡ true) × (length q.transcript ≤ 4096) × (q.context ≡ p.context)

server_hello_wire-error :
    (r x t c : Bytes) {e : Error} → server_hello_wire r x t c ≡ err e → is_value_error e ≡ true
unfolding server_hello_wire construct encode validate check_bytes is_value_error
server_hello_wire-error r x t c h = ground arith

module _ {X K : Type 0} (c : Crypto X K) where
  derive_secret-error :
      (s l t : Bytes) {e : Error} → derive_secret c s l t ≡ err e → is_value_error e ≡ true
  unfolding derive_secret hkdf_expand_label check_bytes is_value_error
  derive_secret-error s l t h = ground arith

  hkdf_extract-error :
      (s i : Bytes) {e : Error} → hkdf_extract c s i ≡ err e → is_value_error e ≡ true
  unfolding hkdf_extract check_bytes is_value_error
  hkdf_extract-error s i h = ground arith

  pub key_schedule-error :
      (x k t : Bytes) {e : Error} → key_schedule c x k t ≡ err e → is_value_error e ≡ true
  unfolding key_schedule check_bytes is_value_error
  key_schedule-error x k t h = grind (arith, derive_secret-error, hkdf_extract-error)

  module _ (laws : CryptoLaws c) (p : Peer X K) where
    pub server_shares-outcome :
        (random : Bytes) (seed : ℕ) (wire x25519_public mlkem_public : Bytes)
        → length p.transcript ≤ 4096
        → is_some p.x ≡ true
        → ShareOutcome p (server_shares c random seed wire x25519_public mlkem_public p)
    unfolding server_shares is_value_error
    server_shares-outcome random seed wire xp kp bound live = grind (
      arith,
      length-append,
      server_hello_wire-error,
      key_schedule-error,
      key_schedule-HasSizes c laws,
    )

    pub client_shares-outcome :
        (wire x25519_public ciphertext : Bytes)
        → length p.transcript ≤ 4096
        → is_some p.x ≡ true
        → is_some p.kem ≡ true
        → ShareOutcome p (client_shares c wire x25519_public ciphertext p)
    unfolding client_shares is_value_error
    client_shares-outcome wire xp ct bound live kem =
        grind
          (arith, length-append p.transcript wire, key_schedule-error, key_schedule-HasSizes c laws)
