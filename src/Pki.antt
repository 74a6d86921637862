-- ===== src/Pki.antt =====
-- src/pqc_bench/pki/hybrid_certs.py: a root and a leaf certificate with two signatures each.
--
-- A certificate is what the code reads of it, where the package cryptography can parse it; its DER
-- encoding, the encoding of what is signed and both verifications are parameters. A time is naive, or
-- microseconds and the seconds since 1970. The key pairs, the signatures and the serial numbers that
-- generate_chain draws are arguments; the leaf's serial is the first that is drawn and differs from
-- the root's. The types of Python's values are not checked.
pub mod Verified
mod Examples
use post_quantum_cryptograph.Common.{
  ℕ, suc, ◌+◌, ◌-◌, ◌*◌, ◌/◌, ◌%◌, ◌^◌, drop, String, Bool, true, false, not, ◌&&◌, ◌||◌, Option,
  none, some, List, [], ◌∷◌, ◌++◌, map, ltb, leb, ◌==◌, length, if◌then◌else◌,
}
use post_quantum_cryptograph.Common.Int.{ℤ, pos, negsuc, ◌+ℤ◌, ◌-ℤ◌, leb_ℤ, ltb_ℤ, ◌==ℤ◌}
use post_quantum_cryptograph.Common.Bytes.{Bytes, ascii, bytes_eq, starts_with}
use post_quantum_cryptograph.Common.Sets.{mem, every}
use post_quantum_cryptograph.Common.Checked.{Checked, ok, rejected, ◌>>=◌, ◌>>◌, require}
use post_quantum_cryptograph.Fips.{strip}

pub data Time : Type 0 where
  naive : Time
  aware : ℕ → ℤ → Time

-- `_time`: from the start of 1950 to the end of 9998.
unfoldable pub check_time : Time → Checked ℤ
check_time naive = rejected "time must be timezone-aware datetime"
check_time (aware micros seconds) =
    require (micros == 0 && leb_ℤ (negsuc 631151999) seconds && ltb_ℤ seconds (pos 253370764800))
      "time must have whole seconds and year 1950..9998"
    >> ok seconds

-- A name: its sets of attributes, each an identifier and a value.
abbrev pub Name : Type 0
Name = List (List (Bytes × Bytes))

abbrev pub common_name : Bytes
common_name = ascii "2.5.4.3"

abbrev is_white : ℕ → Bool
is_white c = leb 9 c && leb c 13 || leb 28 c && leb c 32

abbrev is_name_char : ℕ → Bool
is_name_char c =
    leb 65 c && leb c 90
    || leb 97 c && leb c 122
    || leb 48 c && leb c 57
    || c == 32
    || c == 46
    || c == 95
    || c == 45

unfoldable pub is_name : Bytes → Bool
is_name t =
    leb 1 (length t)
    && leb (length t) 64
    && bytes_eq (strip is_white (λ c. false) t) t
    && every is_name_char t

abbrev pub name_of : Bytes → Name
name_of t = ((common_name, t) ∷ []) ∷ []

-- `_name`
unfoldable pub check_name : Bytes → Checked Name
check_name t =
    require (is_name t) "CN must be 1..64 ASCII letters/digits, space, dot, _ or -"
    >> ok (name_of t)

abbrev pub same_set : List (Bytes × Bytes) → List (Bytes × Bytes) → Bool
same_set [] [] = true
same_set ((k, v) ∷ as₁) ((j, w) ∷ as₂) = bytes_eq k j && bytes_eq v w && same_set as₁ as₂
same_set as₁ as₂ = false

abbrev pub same_name : Name → Name → Bool
same_name [] [] = true
same_name (s ∷ ss) (t ∷ ts) = same_set s t && same_name ss ts
same_name ss ts = false

pub record PublicKey : Type 0 where
  pub is_rsa : Bool
  pub key_size : ℕ
  pub exponent : ℕ
  pub modulus : ℕ

abbrev pub same_key : PublicKey → PublicKey → Bool
same_key k j = k.key_size == j.key_size && k.exponent == j.exponent && k.modulus == j.modulus

pub data Value : Type 0 where
  basic_constraints : Bool → Option ℕ → Value
  key_usage : List Bool → Value
  unrecognized : Bytes → Value
  other : Value

pub record Extension : Type 0 where
  pub oid : Bytes
  pub critical : Bool
  pub value : Value

-- What is signed of a certificate.
pub record Contents : Type 0 where
  pub is_v3 : Bool
  pub public_key : PublicKey
  pub is_rsa_with_sha256 : Bool
  pub subject : Name
  pub issuer : Name
  pub not_valid_before : ℤ
  pub not_valid_after : ℤ
  pub serial_number : ℤ
  pub extensions : List Extension

pub record Certificate : Type 0 where
  pub contents : Contents
  pub signature : Bytes

pub record HybridCertificate : Type 0 where
  pub certificate : Certificate
  pub pq_signature : Bytes

abbrev pub basic_oid : Bytes
basic_oid = ascii "2.5.29.19"

abbrev pub usage_oid : Bytes
usage_oid = ascii "2.5.29.15"

abbrev pub pq_oid : Bytes
pq_oid = ascii "2.25.291736001099758881243455354620834827871"

abbrev pub expected_oids : List Bytes
expected_oids = basic_oid ∷ usage_oid ∷ pq_oid ∷ []

abbrev pub pq_prefix : Bytes
pq_prefix = ascii "PQC1" ++ (0 ∷ ascii "ML-DSA-65") ++ (0 ∷ [])

abbrev pub usage : Bool → List Bool
usage ca = true ∷ false ∷ false ∷ false ∷ false ∷ ca ∷ ca ∷ false ∷ false ∷ []

abbrev oids : List Extension → List Bytes
oids = map (λ e. e.oid)

-- The extension with an identifier; without one the code raises.
unfoldable pub extension_of : Bytes → List Extension → Checked Extension
extension_of oid [] = rejected "invalid hybrid certificate chain"
extension_of oid (e ∷ es) = if bytes_eq e.oid oid then ok e else extension_of oid es

abbrev pub is_basic : Bool → Value → Bool
is_basic true (basic_constraints true (some n)) = n == 0
is_basic false (basic_constraints false none) = true
is_basic ca v = false

abbrev pub same_bits : List Bool → List Bool → Bool
same_bits [] [] = true
same_bits (true ∷ bs) (true ∷ cs) = same_bits bs cs
same_bits (false ∷ bs) (false ∷ cs) = same_bits bs cs
same_bits bs cs = false

abbrev pub is_usage : Bool → Value → Bool
is_usage ca (key_usage bits) = same_bits bits (usage ca)
is_usage ca v = false

abbrev pub day : ℕ
day = 86400

abbrev pub four_bytes : ℕ → Bytes
four_bytes n = n / 16777216 % 256 ∷ n / 65536 % 256 ∷ n / 256 % 256 ∷ n % 256 ∷ []

abbrev pub single_name : Name → Checked Bytes
single_name (((k, v) ∷ []) ∷ []) = require (bytes_eq k common_name) "invalid subject CN" >> ok v
single_name n = rejected "subject must contain only a CN"

-- The payload of the extension for the ML-DSA key.
abbrev pub payload_of : Value → Checked Bytes
payload_of (unrecognized payload) = ok payload
payload_of v = rejected "invalid PQ extension"

-- The key pairs of one certificate.
pub record Keys : Type 0 where
  pub rsa_public : PublicKey
  pub rsa_sign : Bytes → Bytes
  pub pq_public : Bytes
  pub pq_sign : Bytes → Bytes

module _ (tbs : Contents → Bytes) (der : Certificate → Bytes)
    (rsa_verify : PublicKey → Bytes → Bytes → Bool) (pq_key_ok : Bytes → Bool)
    (pq_verify : Bytes → Bytes → Bytes → Bool) where
  -- `_message`
  abbrev pub message : Certificate → Bytes
  message cert =
      ascii "pqc-bench/hybrid-cert/v1" ++ (0 ∷ four_bytes (length (der cert))) ++ der cert

  -- The subject is the name that `_name` makes of its own text.
  unfoldable pub check_subject : Contents → Checked (Unit {0})
  check_subject c = single_name c.subject >>= λ v.
      check_name v >>= λ n. require (same_name c.subject n) "invalid subject CN"

  unfoldable pub check_extensions : Contents → Bool → Checked Bytes
  check_extensions c ca =
      require
        (every (λ e. mem e.oid expected_oids) c.extensions
          && every (λ o. mem o (map (λ e. e.oid) c.extensions)) expected_oids
          && length c.extensions == 3)
        "exact three-extension profile required"
      >> (extension_of basic_oid c.extensions >>= λ bc.
          extension_of usage_oid c.extensions >>= λ ku. extension_of pq_oid c.extensions >>= λ pq.
          require (bc.critical && is_basic ca bc.value) "invalid basic constraints"
          >> (require (ku.critical && is_usage ca ku.value) "invalid key usage"
              >> (require (not pq.critical) "invalid PQ extension" >> payload_of pq.value)))

  -- `_profile`: the ML-DSA key of the certificate.
  unfoldable pub check_profile : Contents → Bool → ℤ → Checked Bytes
  check_profile c ca at =
      require c.is_v3 "only X.509 v3 accepted"
      >> (require (c.public_key.is_rsa && c.public_key.key_size == 4096)
            "RSA-4096 public key required"
          >> (require (c.public_key.exponent == 65537) "RSA exponent must be 65537"
              >> (require c.is_rsa_with_sha256 "RSA PKCS1v15 SHA256 required"
                  >> (check_subject c
                      >> (require (leb_ℤ c.not_valid_before at && leb_ℤ at c.not_valid_after)
                            "certificate expired or not yet valid"
                          >> (require
                                (ltb_ℤ c.not_valid_before c.not_valid_after
                                  && leb_ℤ (c.not_valid_after -ℤ c.not_valid_before)
                                      (pos (365 * day)))
                                "invalid validity interval"
                              >> (require
                                    (ltb_ℤ (pos 0) c.serial_number
                                      && ltb_ℤ c.serial_number (pos (2 ^ 159)))
                                    "invalid serial"
                                  >> (check_extensions c ca >>= λ payload.
                                      require
                                        (length payload == length pq_prefix + 1952
                                          && starts_with pq_prefix payload)
                                        "invalid PQ key schema"
                                      >> (let key = drop (length pq_prefix) payload in
                                          require (pq_key_ok key) "invalid hybrid certificate chain"
                                          >> ok key)))))))))

  unfoldable pub check_signatures : PublicKey → Bytes → HybridCertificate → Checked (Unit {0})
  check_signatures key pq_key h =
      require (length h.pq_signature == 3309) "ML-DSA-65 signature must be 3309 bytes"
      >> (require (rsa_verify key h.certificate.signature (tbs h.certificate.contents))
            "invalid hybrid certificate chain"
          >> require (pq_verify pq_key h.pq_signature (message h.certificate))
              "invalid hybrid certificate chain")

  unfoldable pub check_pair : Contents → Bytes → Contents → Bytes → Checked (Unit {0})
  check_pair rc rp lc lp =
      require
        (same_name rc.issuer rc.subject
          && same_name lc.issuer rc.subject
          && not (same_name lc.subject rc.subject))
        "invalid issuer/subject relationship"
      >> (require
            (not (rc.serial_number ==ℤ lc.serial_number)
              && not (same_key rc.public_key lc.public_key))
            "root and leaf must have distinct serials and keys"
          >> (require (not (bytes_eq rp lp)) "root and leaf must have distinct PQ keys"
              >> require
                  (leb_ℤ rc.not_valid_before lc.not_valid_before
                    && leb_ℤ lc.not_valid_after rc.not_valid_after)
                  "leaf validity outside root validity"))

  unfoldable pub verify_chain : List HybridCertificate → Bytes → Time → Checked (Unit {0})
  verify_chain (root ∷ leaf ∷ []) trusted_root_der time = check_time time >>= λ at.
      require (leb 1 (length trusted_root_der) && leb (length trusted_root_der) 16384)
        "explicit bounded root DER pin required"
      >> (require (bytes_eq (der root.certificate) trusted_root_der) "untrusted root"
          >> (check_profile root.certificate.contents true at >>= λ root_pq.
              check_profile leaf.certificate.contents false at >>= λ leaf_pq.
              check_pair root.certificate.contents root_pq leaf.certificate.contents leaf_pq
              >> (check_signatures root.certificate.contents.public_key root_pq root
                  >> check_signatures root.certificate.contents.public_key root_pq leaf)))
  verify_chain chain trusted_root_der time = rejected "chain must be a (root, leaf) tuple"

  abbrev pub path_length : Bool → Option ℕ
  path_length true = some 0
  path_length false = none

  abbrev pub contents_of : Bool → Name → Name → Keys → ℤ → ℤ → ℤ → Contents
  contents_of ca subject issuer keys start stop serial = record {
    is_v3 = true;
    public_key = keys.rsa_public;
    is_rsa_with_sha256 = true;
    subject = subject;
    issuer = issuer;
    not_valid_before = start;
    not_valid_after = stop;
    serial_number = serial;
    extensions =
        record { oid = basic_oid; critical = true; value = basic_constraints ca (path_length ca) }
        ∷ record { oid = usage_oid; critical = true; value = key_usage (usage ca) }
        ∷ record {
          oid = pq_oid;
          critical = false;
          value = unrecognized (pq_prefix ++ keys.pq_public);
        }
        ∷ [];
  }

  -- Both signatures are made with the root's keys.
  abbrev pub signed_by : Keys → Contents → Certificate
  signed_by root c = record { contents = c; signature = root.rsa_sign (tbs c) }

  abbrev pub issue : Keys → Contents → HybridCertificate
  issue root c =
      let cert = signed_by root c in
      record { certificate = cert; pq_signature = root.pq_sign (message cert) }

  unfoldable pub generate_chain :
      Bytes
      → Bytes
      → Time
      → ℕ
      → Keys
      → Keys
      → ℤ
      → ℤ
      → Checked (HybridCertificate × HybridCertificate)
  generate_chain root_cn leaf_cn not_before days root_keys leaf_keys root_serial leaf_serial =
      check_name root_cn >>= λ root_name. check_name leaf_cn >>= λ leaf_name.
      require (not (same_name root_name leaf_name)) "root and leaf names must differ"
      >> (check_time not_before >>= λ start.
          require (leb 1 days && leb days 365) "validity_days must be integer 1..365"
          >> (let stop = start +ℤ pos (days * day) in
              check_time (aware 0 stop) >>= λ s.
              let root = contents_of true root_name root_name root_keys start stop root_serial in
              let leaf = contents_of false leaf_name root_name leaf_keys start stop leaf_serial in
              ok (issue root_keys root, issue root_keys leaf)))
