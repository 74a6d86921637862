-- ===== src/Gateway/Auth.antt =====
-- src/pqc_bench/gateway/auth.py: tenants, API keys, tokens and permissions.
--
-- JSON, base64 and HMAC come from Python's library: the record `Codec` stands for them. A token is
-- the list of its characters' codes. The clock reads in ticks, `ticks_per_second` to a second, so
-- that `int(time.time())` and the comparison of a whole second with a fraction are exact.
pub mod Keys
pub mod Tokens
use text.Mathlib.Text.{◌==◌ as str_eq}
use post_quantum_cryptograph.Common.{
  ℕ, ◌+◌, ◌*◌, ◌/◌, ◌≡◌, ◌≢◌, String, Bool, true, false, not, Option, none, some, List, [], ◌∷◌,
  ◌++◌, ltb, ◌==◌, if◌then◌else◌, All,
}
use post_quantum_cryptograph.Common.Int.{ℤ, pos, pos_part, neg_part, ◌+ℤ◌}
use post_quantum_cryptograph.Common.Bytes.{Bytes, bytes_eq}
use post_quantum_cryptograph.Common.Dict.{Dict, lookup, insert, contains, is_some}

-- The exceptions that the manager raises itself, and the `KeyError` of a missing role.
pub data AuthError : Type 0 where
  unknown_tenant undefined_role invalid_user key_error : AuthError

pub data AuthResult {ℓ} (A : Type ℓ) : Type ℓ where
  ok : A → AuthResult A
  err : AuthError → AuthResult A

infixl 5 ◌>>=◌
abbrev pub ◌>>=◌ {ℓ κ} :
    {A : Type ℓ} {B : Type κ} → AuthResult A → (A → AuthResult B) → AuthResult B
ok a >>= f = f a
err e >>= f = err e

pub record KeyInfo : Type 0 where
  pub username : String
  pub role : String

pub record UserInfo : Type 0 where
  pub role : String
  pub api_key : String

pub record Tenant : Type 0 where
  pub roles : Dict (List String)
  pub api_keys : Dict KeyInfo
  pub users : Dict UserInfo

pub record AuthManager : Type 0 where
  pub tenants : Dict Tenant

-- What authentication and token verification hand out.
pub record AuthContext : Type 0 where
  pub tenant_id : String
  pub username : Option String
  pub role : String
  pub permissions : List String

unfoldable pub register_tenant : String → Dict (List String) → AuthManager → AuthManager
register_tenant tenant_id roles m = record m {
  tenants = insert tenant_id (record { roles = roles; api_keys = []; users = [] }) m.tenants;
}

-- The writes of `add_api_key` into a tenant.
abbrev pub with_key : String → String → String → Tenant → Tenant
with_key api_key role username t = record t {
  api_keys = insert api_key (record { username = username; role = role }) t.api_keys;
  users = insert username (record { role = role; api_key = api_key }) t.users;
}

abbrev pub or_raise {ℓ} : {A : Type ℓ} → Option A → AuthError → AuthResult A
or_raise none e = err e
or_raise (some a) e = ok a

unfoldable pub add_api_key :
    String → String → String → String → AuthManager → AuthResult AuthManager
add_api_key tenant_id api_key role username m = do
  t ← or_raise (lookup tenant_id m.tenants) unknown_tenant
  permissions ← or_raise (lookup role t.roles) undefined_role
  ok (record m { tenants = insert tenant_id (with_key api_key role username t) m.tenants })

-- `roles[info["role"]]` raises `KeyError` where the role is missing.
abbrev key_context : String → Tenant → Option KeyInfo → AuthResult (Option AuthContext)
key_context tenant_id t none = ok none
key_context tenant_id t (some info) = do
  permissions ← or_raise (lookup info.role t.roles) key_error
  ok (
      some (record {
        tenant_id = tenant_id;
        username = some info.username;
        role = info.role;
        permissions = permissions;
      }))

abbrev tenant_context : String → String → Option Tenant → AuthResult (Option AuthContext)
tenant_context tenant_id api_key none = ok none
tenant_context tenant_id api_key (some t) = key_context tenant_id t (lookup api_key t.api_keys)

unfoldable pub authenticate_api_key :
    String → String → AuthManager → AuthResult (Option AuthContext)
authenticate_api_key tenant_id api_key m =
    tenant_context tenant_id api_key (lookup tenant_id m.tenants)

-- `MultiTenantAuthManager.__init__`
unfoldable pub new_manager : AuthResult AuthManager
unfolding register_tenant add_api_key
new_manager =
    let alpha =
      register_tenant "tenant-alpha"
        (("admin", "read" ∷ "write" ∷ "fuzz" ∷ "admin" ∷ [])
          ∷ ("analyst", "read" ∷ "fuzz" ∷ [])
          ∷ ("viewer", "read" ∷ [])
          ∷ [])
        (record { tenants = [] }) in
    let beta =
      register_tenant "tenant-beta"
        (("admin", "read" ∷ "write" ∷ "admin" ∷ []) ∷ ("viewer", "read" ∷ []) ∷ []) alpha in
    add_api_key "tenant-alpha" "key-alpha-admin" "admin" "alice" beta >>= λ m.
    add_api_key "tenant-alpha" "key-alpha-analyst" "analyst" "bob" m >>= λ m'.
    add_api_key "tenant-beta" "key-beta-admin" "admin" "charlie" m'

-- `required in permissions`
unfoldable pub elem : String → List String → Bool
elem a [] = false
elem a (x ∷ xs) = if str_eq a x then true else elem a xs

unfoldable pub check_permission : Option AuthContext → String → Bool
unfolding elem
check_permission none required = false
check_permission (some context) required = elem required context.permissions

-- The object that `json.loads` returns, as `verify_jwt` reads it: each key may be missing.
pub record Payload : Type 0 where
  pub tenant_id : Option String
  pub username : Option String
  pub role : Option String
  pub exp : Option ℤ

abbrev pub dot : ℕ
dot = b'.'

-- `encode` is json.dumps, base64 and rstrip; `decode` the padding, base64 and json.loads, `none` an
-- exception; `sign` the unpadded base64 of the HMAC under the manager's secret.
pub record Codec : Type 0 where
  pub encode : Payload → Bytes
  pub decode : Bytes → Option Payload
  pub sign : Bytes → Bytes

-- The URL-safe alphabet has no dot.
pub record CodecLaws (codec : Codec) : Type 0 where
  pub encode-no_dot : (p : Payload) → All (λ b. b ≢ dot) (codec.encode p)
  pub sign-no_dot : (m : Bytes) → All (λ b. b ≢ dot) (codec.sign m)

-- token.split("."), from the end of the token.
abbrev cons_first : ℕ → List Bytes → List Bytes
cons_first b [] = (b ∷ []) ∷ []
cons_first b (part ∷ parts) = (b ∷ part) ∷ parts

unfoldable pub split_dots : Bytes → List Bytes
split_dots [] = [] ∷ []
split_dots (b ∷ rest) = if b == dot then [] ∷ split_dots rest else cons_first b (split_dots rest)

module _ (codec : Codec) (ticks_per_second : ℕ) where
  abbrev pub claims : String → String → String → ℤ → Payload
  claims tenant_id username role exp = record {
    tenant_id = some tenant_id;
    username = some username;
    role = some role;
    exp = some exp;
  }

  abbrev pub token_of : Payload → Bytes
  token_of p = codec.encode p ++ dot ∷ codec.sign (codec.encode p)

  unfoldable pub generate_jwt : String → String → ℤ → ℕ → AuthManager → AuthResult Bytes
  generate_jwt tenant_id username expiry_seconds now m = do
    t ← or_raise (lookup tenant_id m.tenants) invalid_user
    user ← or_raise (lookup username t.users) invalid_user
    ok (
        token_of
          (claims tenant_id username user.role (pos (now / ticks_per_second) +ℤ expiry_seconds)))

  -- payload.get("exp", 0)
  abbrev pub expiry : Payload → ℤ
  expiry p = elim p.exp [ none ↦ pos 0 | some e ↦ e ]

  -- The second comes before the reading of the clock; both sides are scaled to ticks.
  abbrev pub is_past : ℤ → ℕ → Bool
  is_past second now =
      ltb (pos_part second * ticks_per_second) (now + neg_part second * ticks_per_second)

  abbrev role_context : String → Payload → String → Option (List String) → Option AuthContext
  role_context tenant_id p role none = none
  role_context tenant_id p role (some permissions) = some (record {
    tenant_id = tenant_id;
    username = p.username;
    role = role;
    permissions = permissions;
  })

  abbrev role_in : String → Payload → Option String → Option Tenant → Option AuthContext
  role_in tenant_id p none t = none
  role_in tenant_id p (some role) none = none
  role_in tenant_id p (some role) (some t) = role_context tenant_id p role (lookup role t.roles)

  abbrev tenant_in : Payload → Option String → AuthManager → Option AuthContext
  tenant_in p none m = none
  tenant_in p (some tenant_id) m = role_in tenant_id p p.role (lookup tenant_id m.tenants)

  abbrev verify_payload : ℕ → AuthManager → Option Payload → Option AuthContext
  verify_payload now m none = none
  verify_payload now m (some p) = if is_past (expiry p) now then none else tenant_in p p.tenant_id m

  abbrev verify_parts : ℕ → AuthManager → List Bytes → Option AuthContext
  verify_parts now m (payload_b64 ∷ sig_b64 ∷ []) =
      if not (bytes_eq sig_b64 (codec.sign payload_b64))
      then none
      else verify_payload now m (codec.decode payload_b64)
  verify_parts now m _ = none

  -- Every exception inside `verify_jwt` ends in `None`.
  unfoldable pub verify_jwt : Bytes → ℕ → AuthManager → Option AuthContext
  verify_jwt token now m = verify_parts now m (split_dots token)
