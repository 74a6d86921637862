-- ===== src/Pki/Examples.antt =====
-- A chain from toy key pairs: a signature is the message, or a block of the right length.
use post_quantum_cryptograph.Common.{
  ℕ, suc, zero, ◌≡◌, refl, ap, Bool, true, false, [], ◌∷◌, ◌==◌, length,
}
use post_quantum_cryptograph.Common.Int.{ℤ, pos, ◌+ℤ◌}
use post_quantum_cryptograph.Common.Bytes.{Bytes, ascii, bytes_eq, bytes_eq_refl}
use post_quantum_cryptograph.Common.Sets.{every}
use post_quantum_cryptograph.Common.Checked.{ok}
use post_quantum_cryptograph.Fips.{drop_spaces, reverse_onto}
use post_quantum_cryptograph.Pki.{
  aware, check_time, name_of, is_name, check_name, PublicKey, Contents, Certificate,
  HybridCertificate, Keys, contents_of, issue, generate_chain, verify_chain,
}
use post_quantum_cryptograph.Pki.Verified.{ArePairs, AreDistinct, verify-generate_chain}

fill : ℕ → Bytes
fill zero = []
fill (suc n) = 0 ∷ fill n

length-fill : (n : ℕ) → length (fill n) ≡ n
unfolding fill
length-fill zero = refl
length-fill (suc n) = ap suc (length-fill n)

abbrev tbs : Contents → Bytes
tbs c = 7 ∷ []

abbrev der : Certificate → Bytes
der c = 1 ∷ 2 ∷ 3 ∷ []

abbrev rsa_verify : PublicKey → Bytes → Bytes → Bool
rsa_verify k signature m = bytes_eq signature m

abbrev pq_key_ok : Bytes → Bool
pq_key_ok k = length k == 1952

abbrev pq_verify : Bytes → Bytes → Bytes → Bool
pq_verify k signature m = length signature == 3309

abbrev pair_of : ℕ → Keys
pair_of n = record {
  rsa_public = record { is_rsa = true; key_size = 4096; exponent = 65537; modulus = n };
  rsa_sign = λ m. m;
  pq_public = n ∷ fill 1951;
  pq_sign = λ m. fill 3309;
}

pair_of-ArePairs : (n : ℕ) → ArePairs tbs der rsa_verify pq_key_ok pq_verify (pair_of n)
pair_of-ArePairs n = record {
  rsa = refl;
  size = refl;
  exponent = refl;
  pq_length = ap suc (length-fill 1951);
  pq_ok = rw (length-fill 1951) refl;
  rsa_verifies = λ m. bytes_eq_refl m;
  pq_signature_length = λ m. length-fill 3309;
  pq_verifies = λ m. rw (length-fill 3309) refl;
}

pairs-AreDistinct :
    AreDistinct tbs der rsa_verify pq_key_ok pq_verify (pair_of 5) (pair_of 6) (pos 11) (pos 12)
unfolding bytes_eq
pairs-AreDistinct = record {
  rsa_keys = refl;
  pq_keys = refl;
  serials = refl;
  first_range = refl;
  second_range = refl;
}

abbrev start : ℤ
start = pos 1700000000

abbrev stop : ℤ
stop = pos 1702592000

abbrev root : HybridCertificate
root = issue tbs der rsa_verify pq_key_ok pq_verify (pair_of 5) (
    contents_of tbs der rsa_verify pq_key_ok pq_verify true (name_of (ascii "Root"))
      (name_of (ascii "Root")) (pair_of 5) start stop (pos 11))

abbrev leaf : HybridCertificate
leaf = issue tbs der rsa_verify pq_key_ok pq_verify (pair_of 5) (
    contents_of tbs der rsa_verify pq_key_ok pq_verify false (name_of (ascii "Leaf 1"))
      (name_of (ascii "Root")) (pair_of 6) start stop (pos 12))

generated :
    generate_chain tbs der rsa_verify pq_key_ok pq_verify
      (ascii "Root")
      (ascii "Leaf 1")
      (aware 0 start)
      30
      (pair_of 5)
      (pair_of 6)
      (pos 11)
      (pos 12)
    ≡ ok (root, leaf)
unfolding generate_chain check_name check_time is_name bytes_eq every drop_spaces reverse_onto ◌+ℤ◌
generated = refl

verify-generate_chain_example :
    verify_chain tbs der rsa_verify pq_key_ok pq_verify
      (root ∷ leaf ∷ [])
      (der root.certificate)
      (aware 0 (pos 1701000000))
    ≡ ok tt
unfolding check_time
verify-generate_chain_example =
    verify-generate_chain tbs der rsa_verify pq_key_ok pq_verify (ascii "Root") (ascii "Leaf 1")
      (aware 0 start) 30 (pair_of 5) (pair_of 6) (pos 11) (pos 12) root leaf
      (aware 0 (pos 1701000000)) (pos 1701000000) (pair_of-ArePairs 5) (pair_of-ArePairs 6)
      pairs-AreDistinct generated refl (refl, refl)
