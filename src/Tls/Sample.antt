-- ===== src/Tls/Sample.antt =====
-- A concrete instance of the packages that tls_simulator.py calls: toy functions that meet
-- `CryptoLaws`, so that the theorems can be applied and the peers can run.
use post_quantum_cryptograph.Common.{
  ℕ, ◌+◌, ◌%◌, ◌≡◌, refl, Option, none, some, [], ◌∷◌, arith, length, replicate, length-replicate,
}
use post_quantum_cryptograph.Common.Bytes.{Bytes}
use post_quantum_cryptograph.Tls.Schedule.{Crypto, CryptoLaws}

abbrev first : Bytes → Option ℕ
first [] = none
first (b ∷ r) = some b

-- The exchange of a toy key with a public value is the sum of their residues.
abbrev sum_with : ℕ → Bytes → Option Bytes
sum_with a [] = none
sum_with a (b ∷ r) = some (replicate 32 ((a % 256 + b) % 256))

abbrev repeat_first : Bytes → Option Bytes
repeat_first [] = none
repeat_first (b ∷ r) = some (replicate 32 b)

abbrev pub toy : Crypto ℕ ℕ
toy = record {
  sha256 = λ m. replicate 32 (length m % 256);
  hmac = λ k m. replicate 32 ((length k + length m) % 256);
  expand = λ k i n. replicate n (length i % 256);
  x_public = λ a. replicate 32 (a % 256);
  x_exchange = sum_with;
  kem_public = λ k. replicate 1184 (k % 256);
  kem_encapsulate = λ p r. some (replicate 32 (r % 256), replicate 1088 (r % 256));
  kem_decapsulate = λ k t. repeat_first t;
}

sum_with-length : (a : ℕ) (p s : Bytes) → sum_with a p ≡ some s → length s ≡ 32
sum_with-length a [] s h = ground arith
sum_with-length a (b ∷ r) s h = ground (arith, length-replicate 32 ((a % 256 + b) % 256))

repeat_first-length : (t s : Bytes) → repeat_first t ≡ some s → length s ≡ 32
repeat_first-length [] s h = ground arith
repeat_first-length (b ∷ r) s h = ground (arith, length-replicate 32 b)

sum_with_comm :
    (a b : ℕ) → sum_with a (replicate 32 (b % 256)) ≡ sum_with b (replicate 32 (a % 256))
unfolding replicate
sum_with_comm a b =
    let e : (a % 256 + b % 256) % 256 ≡ (b % 256 + a % 256) % 256 = omega arith in rw e

abbrev encapsulated : ℕ → Option (Bytes × Bytes)
encapsulated r = some (replicate 32 (r % 256), replicate 1088 (r % 256))

encapsulated-secret :
    (r : ℕ) (s t : Bytes) → encapsulated r ≡ some (s, t) → s ≡ replicate 32 (r % 256)
encapsulated-secret r s t h = cc

encapsulated-ciphertext :
    (r : ℕ) (s t : Bytes) → encapsulated r ≡ some (s, t) → t ≡ replicate 1088 (r % 256)
encapsulated-ciphertext r s t h = cc

repeat_first-replicate : (b : ℕ) → repeat_first (replicate 1088 b) ≡ some (replicate 32 b)
unfolding replicate
repeat_first-replicate b = refl

pub toy_laws : CryptoLaws toy
toy_laws = record {
  length-sha256 = λ m. length-replicate 32 _;
  length-hmac = λ k m. length-replicate 32 _;
  length-expand = λ k i n. length-replicate n _;
  length-x_public = λ a. length-replicate 32 _;
  length-x_exchange = sum_with-length;
  x_exchange_comm = sum_with_comm;
  length-kem_public = λ k. length-replicate 1184 _;
  length-kem_secret = λ p r s t h. rw (encapsulated-secret r s t h) (length-replicate 32 _);
  length-kem_ciphertext =
      λ p r s t h. rw (encapsulated-ciphertext r s t h) (length-replicate 1088 _);
  length-kem_decapsulate = λ k t s h. repeat_first-length t s h;
  kem_decapsulate-encapsulate = λ k r s t h.
      rw (encapsulated-secret r s t h, encapsulated-ciphertext r s t h) (repeat_first-replicate _);
}
