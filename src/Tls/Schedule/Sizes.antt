-- ===== src/Tls/Schedule/Sizes.antt =====
-- On inputs of the right sizes the key schedule of tls_simulator.py (lines 37 to 60, 164 to 181)
-- raises nothing, and every secret has the size of the hash.
use post_quantum_cryptograph.Common.{
  ℕ, ◌<◌, ◌≤◌, ◌≡◌, refl, false, [], ◌++◌, arith, length, length-append,
}
use native.Mathlib.Decide.{dec_le}
use post_quantum_cryptograph.Common.Bytes.{Bytes, bytes_eq}
use post_quantum_cryptograph.Common.Exec.{ok}
use post_quantum_cryptograph.Tls.Messages.{check_bytes}
use post_quantum_cryptograph.Tls.Messages.RoundTrip.{check_bytes_iff}
use post_quantum_cryptograph.Tls.Schedule.{
  Crypto, CryptoLaws, Schedule, TrafficSecrets, hkdf_label, hkdf_extract, hkdf_expand_label,
  derive_secret, key_schedule, finished_mac, derive_application, zeros, ascii,
}

-- The sizes of the secrets that a schedule holds.
pub record HasSizes (s : Schedule) : Type 0 where
  pub client_handshake : length s.client_handshake ≡ 32
  pub server_handshake : length s.server_handshake ≡ 32
  pub master : length s.master ≡ 32

length-zeros : length zeros ≡ 32
unfolding zeros
length-zeros = refl

module _ {X K : Type 0} (c : Crypto X K) (laws : CryptoLaws c) where
  hkdf_extract_total :
      (salt ikm : Bytes)
      → length salt ≤ 4096
      → length ikm ≤ 4096
      → hkdf_extract c salt ikm ≡ ok (c.hmac salt ikm)
  unfolding hkdf_extract
  hkdf_extract_total salt ikm hs hi = ground arith

  expand_total :
      (secret label context : Bytes) (n : ℕ)
      → length secret ≡ 32
      → 1 ≤ length label
      → length label ≤ 249
      → length context ≤ 255
      → 1 ≤ n
      → n ≤ 8160
      → hkdf_expand_label c secret label context n
        ≡ ok (c.expand secret (hkdf_label label context n) n)
  unfolding hkdf_expand_label
  expand_total secret label context n hs h₁ h₂ hc n₁ n₂ = ground arith

  abbrev pub derived : Bytes → Bytes → Bytes → Bytes
  derived secret label transcript = c.expand secret (hkdf_label label (c.sha256 transcript) 32) 32

  derive_total :
      (secret label transcript : Bytes)
      → length secret ≡ 32
      → 1 ≤ length label
      → length label ≤ 249
      → length transcript ≤ 4096
      → derive_secret c secret label transcript ≡ ok (derived secret label transcript)
  unfolding derive_secret
  derive_total secret label transcript hs h₁ h₂ ht =
      rw ((check_bytes_iff "transcript" transcript 0 4096).1 (omega arith, ht)) (
        expand_total secret label (c.sha256 transcript) 32 hs h₁ h₂
          (omega (arith, laws.length-sha256 transcript)) (omega arith) (omega arith))

  -- The handshake secret of RFC 8446, with the concatenated shares as its input.
  abbrev pub handshake_secret : Bytes → Bytes → Bytes
  handshake_secret x k = c.hmac (derived (c.hmac zeros zeros) (ascii "derived") []) (x ++ k)

  abbrev pub schedule_of : Bytes → Bytes → Bytes → Schedule
  schedule_of x k t = record {
    client_handshake = derived (handshake_secret x k) (ascii "c hs traffic") t;
    server_handshake = derived (handshake_secret x k) (ascii "s hs traffic") t;
    master = c.hmac (derived (handshake_secret x k) (ascii "derived") []) zeros;
  }

  -- The schedule is the one of RFC 8446 with no PSK, whenever the shares and the transcript have
  -- their sizes and the X25519 share is not all zero.
  pub key_schedule_total :
      (x k t : Bytes)
      → length x ≡ 32
      → length k ≡ 32
      → length t ≤ 4096
      → bytes_eq x zeros ≡ false
      → key_schedule c x k t ≡ ok (schedule_of x k t)
  unfolding key_schedule
  key_schedule_total x k t hx hk ht nz =
      let early = c.hmac zeros zeros in
      let hs = handshake_secret x k in
      let salt = derived early (ascii "derived") [] in
      rw (
        (check_bytes_iff "X25519 shared" x 32 32).1 (omega arith, omega arith),
        (check_bytes_iff "ML-KEM shared" k 32 32).1 (omega arith, omega arith),
        nz,
        hkdf_extract_total zeros zeros (omega (arith, length-zeros)) (omega (arith, length-zeros)),
        derive_total early (ascii "derived") [] (laws.length-hmac _ _) (omega arith) (omega arith)
            (omega arith),
        hkdf_extract_total salt (x ++ k) (omega (arith, laws.length-expand early _ 32))
            (omega (arith, length-append x k)),
        derive_total hs (ascii "c hs traffic") t (laws.length-hmac _ _) (omega arith) (omega arith)
            ht,
        derive_total hs (ascii "s hs traffic") t (laws.length-hmac _ _) (omega arith) (omega arith)
            ht,
        derive_total hs (ascii "derived") [] (laws.length-hmac _ _) (omega arith) (omega arith)
            (omega arith),
        hkdf_extract_total (derived hs (ascii "derived") []) zeros
            (omega (arith, laws.length-expand hs _ 32)) (omega (arith, length-zeros)),
      )

  -- The schedule's secrets have the size of the hash, whatever the inputs.
  pub schedule_of-HasSizes : (x k t : Bytes) → HasSizes (schedule_of x k t)
  schedule_of-HasSizes x k t = record {
    client_handshake = laws.length-expand _ _ 32;
    server_handshake = laws.length-expand _ _ 32;
    master = laws.length-hmac _ _;
  }

  abbrev pub finished_of : Bytes → Bytes → Bytes
  finished_of secret t =
      c.hmac (c.expand secret (hkdf_label (ascii "finished") [] 32) 32) (c.sha256 t)

  -- The Finished value of RFC 8446: a MAC of the transcript's hash under the finished key.
  pub finished_total :
      (secret t : Bytes) → length secret ≡ 32 → finished_mac c secret t ≡ ok (finished_of secret t)
  unfolding finished_mac
  finished_total secret t hs = rw (
      expand_total secret (ascii "finished") [] 32 hs (omega arith) (omega arith) (omega arith)
        (omega arith) (omega arith))

  abbrev pub traffic_of : Bytes → Bytes → TrafficSecrets
  traffic_of master t = record {
    client_application = derived master (ascii "c ap traffic") t;
    server_application = derived master (ascii "s ap traffic") t;
  }

  pub derive_application_total :
      (master t : Bytes)
      → length master ≡ 32
      → length t ≤ 4096
      → derive_application c master t ≡ ok (traffic_of master t)
  unfolding derive_application
  derive_application_total master t hm ht =
      let cl = derived master (ascii "c ap traffic") t in
      let sv = derived master (ascii "s ap traffic") t in
      let size_c : length cl ≡ 32 = laws.length-expand _ _ 32 in
      let size_s : length sv ≡ 32 = laws.length-expand _ _ 32 in
      rw (
        derive_total master (ascii "c ap traffic") t hm (omega arith) (omega arith) ht,
        derive_total master (ascii "s ap traffic") t hm (omega arith) (omega arith) ht,
        (check_bytes_iff "client application" cl 32 32).1 (omega arith, omega arith),
        (check_bytes_iff "server application" sv 32 32).1 (omega arith, omega arith),
      )

  key_schedule_guards :
      (x k t : Bytes) {s : Schedule}
      → key_schedule c x k t ≡ ok s
      → (length x ≡ 32) × (length k ≡ 32) × (bytes_eq x zeros ≡ false)
  unfolding key_schedule check_bytes
  key_schedule_guards x k t h = ground arith

  derive_secret_long :
      (secret label t : Bytes) {r : Bytes}
      → 4096 < length t
      → derive_secret c secret label t ≡ ok r
      → ⊥
  unfolding derive_secret check_bytes
  derive_secret_long secret label t h e = ground arith

  -- A long transcript stops the derivation of the traffic secrets.
  key_schedule_long :
      (x k t : Bytes) {s : Schedule} → 4096 < length t → key_schedule c x k t ≡ ok s → ⊥
  unfolding key_schedule
  key_schedule_long x k t h e = grind (arith, derive_secret_long)

  -- A schedule that was computed has secrets of the hash's size.
  pub key_schedule-HasSizes :
      (x k t : Bytes) {s : Schedule} → key_schedule c x k t ≡ ok s → HasSizes s
  key_schedule-HasSizes x k t {s} h = elim (dec_le (length t) 4096) [
    | yes ht ↦
        let (hx, hk, nz) = key_schedule_guards x k t h in
        let e : s ≡ schedule_of x k t = cc (key_schedule_total x k t hx hk ht nz) in
        rw e (schedule_of-HasSizes x k t)
    | no long ↦ absurd (key_schedule_long x k t (omega arith) h)
  ]
