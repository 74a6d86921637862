-- ===== src/Gateway/Examples.antt =====
-- The theorems about the gateway at concrete inputs.
use text.Mathlib.Text.{◌==◌ as str_eq}
use post_quantum_cryptograph.Common.{
  ℕ, ◌+◌, ◌-◌, ◌*◌, ◌/◌, ◌≤◌, ◌≡◌, ◌≢◌, refl, String, true, false, ◌&&◌, Option, none, some, List,
  [], ◌∷◌, arith, if◌then◌else◌, length, All,
}
use post_quantum_cryptograph.Common.Int.{ℤ, pos, negsuc, pos_part, ◌+ℤ◌, ◌-ℤ◌}
use post_quantum_cryptograph.Common.Bytes.{Bytes, bytes_eq}
use post_quantum_cryptograph.Common.Dict.{lookup}
use post_quantum_cryptograph.Gateway.RateLimit.{
  TokenBucket, RateLimiterManager, consume, refilled, gained, new_bucket, check_rate_limit,
  custom_limit, get_or_create_bucket,
}
use post_quantum_cryptograph.Gateway.RateLimit.Bucket.{IsBucket}
use post_quantum_cryptograph.Gateway.RateLimit.Burst.{serve, burst_bound}
use post_quantum_cryptograph.Gateway.RateLimit.Retry.{retry_after_suffices}
use post_quantum_cryptograph.Gateway.Auth.{
  ok, Tenant, AuthManager, AuthContext, add_api_key, authenticate_api_key, Payload, Codec,
  CodecLaws, dot, split_dots, generate_jwt, verify_jwt, is_past,
}
use post_quantum_cryptograph.Gateway.Auth.Keys.{authenticate-add_api_key}
use post_quantum_cryptograph.Gateway.Auth.Tokens.{verify-generate, verify_jwt_sound, Verified}

-- A bucket of 20 tokens of 100 units, that gains 10 units per tick.
abbrev bucket : TokenBucket
bucket = new_bucket 2000 10 0

bucket-IsBucket : IsBucket bucket
bucket-IsBucket = record { nonneg = omega arith; bounded = omega arith }

abbrev requests : List (ℕ × ℕ)
requests = (1, 1500) ∷ (2, 1500) ∷ (200, 1500) ∷ []

-- The second of three is refused.
three_requests : (serve requests bucket).0 ≡ 3000
unfolding serve consume refilled gained ◌+ℤ◌ ◌-ℤ◌
three_requests = refl

burst_bound_example :
    let (granted, b') = serve requests bucket in granted ≤ 2000 + (b'.last_refill - 0) * 10
burst_bound_example =
    burst_bound requests bucket bucket-IsBucket (omega arith, (omega arith, (omega arith, tt)))

abbrev limiter : RateLimiterManager
limiter = record {
  default_limit = record { rate = 10; capacity = 20 };
  buckets = [];
  tenant_limits = [];
  ip_limits = [];
}

-- A limiter whose bucket for one address has a single token left.
abbrev drained : TokenBucket
drained = record { capacity = 2000; refill_rate = 10; tokens = pos 100; last_refill = 0 }

abbrev busy : RateLimiterManager
busy = record limiter { buckets = ("10.0.0.1", drained) ∷ [] }

retry_after_suffices_example :
    (check_rate_limit 100 "10.0.0.1" false 3 20 20 20
      (check_rate_limit 100 "10.0.0.1" false 3 1 1 1 busy).1).0.allowed
    ≡ true
unfolding lookup check_rate_limit custom_limit get_or_create_bucket consume refilled gained ◌+ℤ◌
    ◌-ℤ◌
retry_after_suffices_example =
    retry_after_suffices 100 "10.0.0.1" false busy 3 1 1 1 20 20 20 (omega arith) (omega arith)
      (omega arith) (record { nonneg = omega arith; bounded = omega arith }, omega arith) refl
      (omega arith) (omega arith) (omega arith)

abbrev tenant : Tenant
tenant = record {
  roles = ("viewer", "read" ∷ []) ∷ [];
  api_keys = [];
  users = ("alice", record { role = "viewer"; api_key = "key" }) ∷ [];
}

abbrev manager : AuthManager
manager = record { tenants = ("alpha", tenant) ∷ [] }

authenticate-add_api_key_example :
    (m' : AuthManager) × (add_api_key "alpha" "key-2" "viewer" "bob" manager ≡ ok m')
    × ((id key : String)
        → authenticate_api_key id key m' ≡ (
            if str_eq "alpha" id && str_eq "key-2" key
            then ok (
                some (record {
                  tenant_id = "alpha";
                  username = some "bob";
                  role = "viewer";
                  permissions = "read" ∷ [];
                }))
            else authenticate_api_key id key manager))
unfolding lookup
authenticate-add_api_key_example =
    authenticate-add_api_key "alpha" "key-2" "viewer" "bob" manager tenant ("read" ∷ []) refl refl

-- A codec whose payloads tell only their expiry, of the one user.
abbrev alice_claims : ℤ → Payload
alice_claims exp = record {
  tenant_id = some "alpha";
  username = some "alice";
  role = some "viewer";
  exp = some exp;
}

abbrev expiry_bytes : Option ℤ → Bytes
expiry_bytes none = 100 ∷ []
expiry_bytes (some e) = (pos_part e + 100) ∷ []

abbrev read_expiry : Bytes → Option Payload
read_expiry (b ∷ []) = some (alice_claims (pos (b - 100)))
read_expiry _ = none

abbrev toy : Codec
toy = record {
  encode = λ p. expiry_bytes p.exp;
  decode = read_expiry;
  sign = λ m. (length m + 100) ∷ [];
}

expiry_bytes-no_dot : (o : Option ℤ) → All (λ b. b ≢ dot) (expiry_bytes o)
expiry_bytes-no_dot none = (omega arith, tt)
expiry_bytes-no_dot (some e) = (omega arith, tt)

toy_laws : CodecLaws toy
toy_laws = record {
  encode-no_dot = λ p. expiry_bytes-no_dot p.exp;
  sign-no_dot = λ m. (omega arith, tt);
}

verify-generate_example :
    (token : Bytes) × (generate_jwt toy 1000 "alpha" "alice" (pos 3600) 1_500 manager ≡ ok token)
    × (verify_jwt toy 1000 token 3_601_000 manager ≡ (
        if is_past toy 1000 (pos (1_500 / 1000) +ℤ pos 3600) 3_601_000
        then none
        else some (record {
          tenant_id = "alpha";
          username = some "alice";
          role = "viewer";
          permissions = "read" ∷ [];
        })))
unfolding lookup ◌+ℤ◌
verify-generate_example =
    verify-generate toy toy_laws 1000 "alpha" "alice" (pos 3600) 1_500 3_601_000 manager tenant
      (record { role = "viewer"; api_key = "key" }) ("read" ∷ []) refl refl refl refl

abbrev context : AuthContext
context = record {
  tenant_id = "alpha";
  username = some "alice";
  role = "viewer";
  permissions = "read" ∷ [];
}

abbrev token : Bytes
token = 3701 ∷ dot ∷ 101 ∷ []

verify_jwt_sound_example : Verified toy toy_laws 1000 token 3_601_000 manager context
unfolding verify_jwt split_dots lookup bytes_eq
verify_jwt_sound_example = verify_jwt_sound toy toy_laws 1000 token 3_601_000 manager context refl

-- One tick after its second has passed the token is refused.
expired : verify_jwt toy 1000 token 3_601_001 manager ≡ none
unfolding verify_jwt split_dots bytes_eq
expired = refl

-- A lifetime of -1 seconds gives a token that has expired already.
born_expired : is_past toy 1000 (pos (1_500 / 1000) +ℤ negsuc 0) 1_500 ≡ true
unfolding ◌+ℤ◌
born_expired = refl
