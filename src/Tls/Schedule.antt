-- ===== src/Tls/Schedule.antt =====
-- The key schedule of src/pqc_bench/tls_simulator.py (lines 24 to 60 and 146 to 181). The hash, the
-- MAC, the expansion, X25519 and ML-KEM-768 come from Python packages: the record `Crypto` names
-- them, and `CryptoLaws` states what their documentation promises.
pub mod Label
pub mod Sizes
use post_quantum_cryptograph.Common.{
  ℕ, ◌+◌, ◌<◌, ◌≤◌, ◌≡◌, String, Bool, true, false, ◌&&◌, not, List, [], ◌∷◌, ◌++◌, Option, none,
  some, leb, if◌then◌else◌, length, replicate,
}
use post_quantum_cryptograph.Common.Bytes.{Bytes, ascii, to_bytes2, bytes_eq}
use post_quantum_cryptograph.Common.Exec.{Result, ok, err, value_error, ◌>>?◌}
use post_quantum_cryptograph.Tls.Messages.{check_bytes, max_transcript_bytes}

-- The packages, over the types `X` and `K` of private X25519 and ML-KEM keys. `none` stands for the
-- `ValueError` of a public key that does not load or of an exchange that is refused.
pub record Crypto (X K : Type 0) : Type 0 where
  pub sha256 : Bytes → Bytes
  -- hmac.digest(key, message, "sha256")
  pub hmac : Bytes → Bytes → Bytes
  -- HKDFExpand(SHA256, length, info).derive(secret)
  pub expand : Bytes → Bytes → ℕ → Bytes
  -- key.public_key().public_bytes_raw()
  pub x_public : X → Bytes
  -- key.exchange(X25519PublicKey.from_public_bytes(public))
  pub x_exchange : X → Bytes → Option Bytes
  pub kem_public : K → Bytes
  -- MLKEM768PublicKey.from_public_bytes(public).encapsulate(), with its randomness as a number:
  -- the shared secret and the ciphertext.
  pub kem_encapsulate : Bytes → ℕ → Option (Bytes × Bytes)
  pub kem_decapsulate : K → Bytes → Option Bytes

-- The sizes of RFC 2104, RFC 5869, RFC 7748 and FIPS 203; that both ends of an exchange compute one
-- secret, and that decapsulation undoes encapsulation.
pub record CryptoLaws {X K : Type 0} (c : Crypto X K) : Type 0 where
  pub length-sha256 : (m : Bytes) → length (c.sha256 m) ≡ 32
  pub length-hmac : (k m : Bytes) → length (c.hmac k m) ≡ 32
  pub length-expand : (k i : Bytes) (n : ℕ) → length (c.expand k i n) ≡ n
  pub length-x_public : (a : X) → length (c.x_public a) ≡ 32
  pub length-x_exchange : (a : X) (p s : Bytes) → c.x_exchange a p ≡ some s → length s ≡ 32
  pub x_exchange_comm : (a b : X) → c.x_exchange a (c.x_public b) ≡ c.x_exchange b (c.x_public a)
  pub length-kem_public : (k : K) → length (c.kem_public k) ≡ 1184
  pub length-kem_secret :
      (p : Bytes) (r : ℕ) (s t : Bytes) → c.kem_encapsulate p r ≡ some (s, t) → length s ≡ 32
  pub length-kem_ciphertext :
      (p : Bytes) (r : ℕ) (s t : Bytes) → c.kem_encapsulate p r ≡ some (s, t) → length t ≡ 1088
  pub length-kem_decapsulate :
      (k : K) (t s : Bytes) → c.kem_decapsulate k t ≡ some s → length s ≡ 32
  pub kem_decapsulate-encapsulate :
      (k : K) (r : ℕ) (s t : Bytes)
      → c.kem_encapsulate (c.kem_public k) r ≡ some (s, t)
      → c.kem_decapsulate k t ≡ some s

-- `_DOMAIN` and `_ZEROS`
unfoldable pub domain : Bytes
domain = ascii "PQC-BENCH-OFFLINE-TLS13-V1" ++ 0 ∷ []

unfoldable pub zeros : Bytes
unfolding replicate
zeros = replicate 32 0

abbrev pub max_hkdf_input_bytes : ℕ
max_hkdf_input_bytes = 4096

-- RFC 8446 HkdfLabel; the one-byte lengths fit because of the limits checked before.
unfoldable pub hkdf_label : Bytes → Bytes → ℕ → Bytes
hkdf_label label context n =
    let full_label = ascii "tls13 " ++ label in
    to_bytes2 n ++ (length full_label ∷ full_label ++ (length context ∷ context))

pub record TrafficSecrets : Type 0 where
  pub client_application : Bytes
  pub server_application : Bytes

pub record Schedule : Type 0 where
  pub client_handshake : Bytes
  pub server_handshake : Bytes
  pub master : Bytes

module _ {X K : Type 0} (c : Crypto X K) where
  unfoldable pub hkdf_extract : Bytes → Bytes → Result Bytes
  unfolding check_bytes
  hkdf_extract salt ikm = check_bytes "salt" salt 0 max_hkdf_input_bytes >>? λ _.
      check_bytes "ikm" ikm 0 max_hkdf_input_bytes >>? λ _. ok (c.hmac salt ikm)

  unfoldable pub hkdf_expand_label : Bytes → Bytes → Bytes → ℕ → Result Bytes
  unfolding check_bytes hkdf_label
  hkdf_expand_label secret label context n = check_bytes "secret" secret 32 32 >>? λ _.
      check_bytes "label" label 1 249 >>? λ _. check_bytes "context" context 0 255 >>? λ _.
      if leb 1 n && leb n 8160
      then ok (c.expand secret (hkdf_label label context n) n)
      else err (value_error "length must be an integer in 1..8160")

  unfoldable pub derive_secret : Bytes → Bytes → Bytes → Result Bytes
  derive_secret secret label transcript =
      check_bytes "transcript" transcript 0 max_transcript_bytes >>? λ _.
      hkdf_expand_label secret label (c.sha256 transcript) 32

  -- `_Schedule` has no `__post_init__`.
  unfoldable pub key_schedule : Bytes → Bytes → Bytes → Result Schedule
  key_schedule x25519_shared mlkem_shared transcript =
      check_bytes "X25519 shared" x25519_shared 32 32 >>? λ _.
      check_bytes "ML-KEM shared" mlkem_shared 32 32 >>? λ _.
      if bytes_eq x25519_shared zeros
      then err (value_error "all-zero X25519 shared value")
      else hkdf_extract zeros zeros >>? λ early.
          derive_secret early (ascii "derived") [] >>? λ salt.
          hkdf_extract salt (x25519_shared ++ mlkem_shared) >>? λ handshake.
          derive_secret handshake (ascii "c hs traffic") transcript >>? λ client_handshake.
          derive_secret handshake (ascii "s hs traffic") transcript >>? λ server_handshake.
          derive_secret handshake (ascii "derived") [] >>? λ derived.
          hkdf_extract derived zeros >>? λ master. ok (record {
            client_handshake = client_handshake;
            server_handshake = server_handshake;
            master = master;
          })

  -- `_finished`
  unfoldable pub finished_mac : Bytes → Bytes → Result Bytes
  finished_mac secret transcript = hkdf_expand_label secret (ascii "finished") [] 32 >>? λ key.
      ok (c.hmac key (c.sha256 transcript))

  -- `_derive_application`, with the checks of `TrafficSecrets.__post_init__`
  unfoldable pub derive_application : Bytes → Bytes → Result TrafficSecrets
  derive_application master transcript =
      derive_secret master (ascii "c ap traffic") transcript >>? λ cl.
      derive_secret master (ascii "s ap traffic") transcript >>? λ sv.
      check_bytes "client application" cl 32 32 >>? λ _.
      check_bytes "server application" sv 32 32 >>? λ _.
      ok (record { client_application = cl; server_application = sv })
