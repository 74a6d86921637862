-- ===== src/Gateway/Auth/Keys.antt =====
-- API keys (gateway/auth.py, lines 138 to 172).
use text.Mathlib.Text.{◌==◌ as str_eq}
use text.Mathlib.TextEquality.{eq_iff}
use post_quantum_cryptograph.Common.{
  ◌≡◌, refl, sym, subst, ◌∙◌, inl, inr, Option-cases, String, Bool, true, false, ◌&&◌, Option, none,
  some, List, [], arith, if◌then◌else◌,
}
use post_quantum_cryptograph.Common.Dict.{Dict, lookup, insert, is_some, lookup-insert}
use post_quantum_cryptograph.Gateway.Auth.{
  AuthResult, ok, err, KeyInfo, UserInfo, Tenant, AuthManager, AuthContext, ◌>>=◌, new_manager,
  register_tenant, with_key, key_context, add_api_key, authenticate_api_key,
}

-- Every key and every user of a tenant has a role that the tenant defines.
pub record IsTenant (t : Tenant) : Type 0 where
  pub key_roles :
      (k : String) (info : KeyInfo)
      → lookup k t.api_keys ≡ some info
      → is_some (lookup info.role t.roles) ≡ true
  pub user_roles :
      (u : String) (info : UserInfo)
      → lookup u t.users ≡ some info
      → is_some (lookup info.role t.roles) ≡ true

pub record IsManager (m : AuthManager) : Type 0 where
  pub tenants : (id : String) (t : Tenant) → lookup id m.tenants ≡ some t → IsTenant t

fresh-IsTenant :
    (roles : Dict (List String)) → IsTenant (record { roles = roles; api_keys = []; users = [] })
unfolding lookup
fresh-IsTenant roles = record { key_roles = λ k info h. cc; user_roles = λ u info h. cc }

with_key-IsTenant :
    (api_key role username : String) (t : Tenant)
    → IsTenant t
    → is_some (lookup role t.roles) ≡ true
    → IsTenant (with_key api_key role username t)
with_key-IsTenant api_key role username t v defined = record {
  key_roles = λ k info h. ground (
    arith,
    lookup-insert api_key k (record { username = username; role = role }) t.api_keys,
    v.key_roles k info,
  );
  user_roles = λ u info h. ground (
    arith,
    lookup-insert username u (record { role = role; api_key = api_key }) t.users,
    v.user_roles u info,
  );
}

insert-IsTenant :
    (tenant_id id : String) (fresh t : Tenant) (m : AuthManager)
    → IsManager m
    → IsTenant fresh
    → lookup id (insert tenant_id fresh m.tenants) ≡ some t
    → IsTenant t
insert-IsTenant tenant_id id fresh t m v new h =
    let e : (if str_eq tenant_id id then some fresh else lookup id m.tenants) ≡ some t =
      sym (lookup-insert tenant_id id fresh m.tenants) ∙ h in
    found (str_eq tenant_id id) e
  where
    found : (b : Bool) → (if b then some fresh else lookup id m.tenants) ≡ some t → IsTenant t
    found true e = let same : fresh ≡ t = cc in subst IsTenant same new
    found false e = v.tenants id t e

add_api_key-eq-ok :
    (tenant_id api_key role username : String) (m : AuthManager) {m' : AuthManager}
    → add_api_key tenant_id api_key role username m ≡ ok m'
    → (t : Tenant) × (lookup tenant_id m.tenants ≡ some t)
      × (is_some (lookup role t.roles) ≡ true)
      × (record m { tenants = insert tenant_id (with_key api_key role username t) m.tenants } ≡ m')
unfolding add_api_key
add_api_key-eq-ok tenant_id api_key role username m {m'} h =
    elim (Option-cases (lookup tenant_id m.tenants)) [
      | inl missing ↦ absurd (unknown missing)
      | inr (t, there) ↦ (t, there, ground arith, ground arith)
    ]
  where
    unknown : lookup tenant_id m.tenants ≡ none → ⊥
    unknown missing = ground arith

-- Registering a tenant keeps every key's and every user's role defined, in every tenant.
pub register_tenant-IsManager :
    (tenant_id : String) (roles : Dict (List String)) (m : AuthManager)
    → IsManager m
    → IsManager (register_tenant tenant_id roles m)
unfolding register_tenant
register_tenant-IsManager tenant_id roles m v = record {
  tenants = λ id t h.
      let fresh : Tenant = record { roles = roles; api_keys = []; users = [] } in
      insert-IsTenant tenant_id id fresh t m v (fresh-IsTenant roles) h;
}

-- Adding a key, where it does not raise, keeps every key's and every user's role defined.
pub add_api_key-IsManager :
    (tenant_id api_key role username : String) (m : AuthManager) {m' : AuthManager}
    → IsManager m
    → add_api_key tenant_id api_key role username m ≡ ok m'
    → IsManager m'
add_api_key-IsManager tenant_id api_key role username m {m'} v h =
    let (t, there, defined, e) = add_api_key-eq-ok tenant_id api_key role username m h in
    record {
      tenants = λ id t' h'.
          insert-IsTenant tenant_id id (with_key api_key role username t) t' m v
            (with_key-IsTenant api_key role username t (v.tenants tenant_id t there) defined)
            (subst (λ (n : AuthManager). lookup id n.tenants ≡ some t') (sym e) h');
    }

key_total :
    (tenant_id api_key : String) (t : Tenant)
    → IsTenant t
    → (o : Option KeyInfo) → lookup api_key t.api_keys ≡ o
    → (c : Option AuthContext) × (key_context tenant_id t o ≡ ok c)
key_total tenant_id api_key t v none h = (none, refl)
key_total tenant_id api_key t v (some info) h = elim (Option-cases (lookup info.role t.roles)) [
  | inl missing ↦ absurd (defined missing)
  | inr (permissions, there) ↦ (
    some (record {
      tenant_id = tenant_id;
      username = some info.username;
      role = info.role;
      permissions = permissions;
    }),
    rw there,
  )
]
  where
    defined : lookup info.role t.roles ≡ none → ⊥
    defined missing = ground (arith, v.key_roles api_key info h)

-- In a manager with defined roles a key is answered with its context or with nothing: the lookup of
-- its role does not raise `KeyError`.
pub authenticate_total :
    (tenant_id api_key : String) (m : AuthManager)
    → IsManager m
    → (c : Option AuthContext) × (authenticate_api_key tenant_id api_key m ≡ ok c)
unfolding authenticate_api_key
authenticate_total tenant_id api_key m v = elim (Option-cases (lookup tenant_id m.tenants)) [
  | inl missing ↦ (none, rw missing)
  | inr (t, there) ↦
      rw there (
        key_total tenant_id api_key t (v.tenants tenant_id t there) (lookup api_key t.api_keys)
          refl)
]

-- A key that was added answers with its user, its role and the role's permissions; what any other
-- tenant or key answers has not changed.
pub authenticate-add_api_key :
    (tenant_id api_key role username : String) (m : AuthManager) (t : Tenant)
    (permissions : List String)
    → lookup tenant_id m.tenants ≡ some t
    → lookup role t.roles ≡ some permissions
    → (m' : AuthManager) × (add_api_key tenant_id api_key role username m ≡ ok m')
      × ((id key : String)
          → authenticate_api_key id key m' ≡ (
              if str_eq tenant_id id && str_eq api_key key
              then ok (
                  some (record {
                    tenant_id = tenant_id;
                    username = some username;
                    role = role;
                    permissions = permissions;
                  }))
              else authenticate_api_key id key m))
unfolding authenticate_api_key add_api_key
authenticate-add_api_key tenant_id api_key role username m t permissions ht hr = (
  record m { tenants = insert tenant_id (with_key api_key role username t) m.tenants },
  rw (ht, hr),
  λ id key. ground (
    arith,
    lookup-insert tenant_id id (with_key api_key role username t) m.tenants,
    lookup-insert api_key key (record { username = username; role = role }) t.api_keys,
    eq_iff tenant_id id,
    eq_iff api_key key,
  ),
)

empty-IsManager : IsManager (record { tenants = [] })
unfolding lookup
empty-IsManager = record { tenants = λ id t h. cc }

abbrev HoldsManager : AuthResult AuthManager → Type 0
HoldsManager (ok m) = IsManager m
HoldsManager (err e) = Unit

add_api_key-HoldsManager :
    (tenant_id api_key role username : String) (m : AuthManager)
    → IsManager m
    → HoldsManager (add_api_key tenant_id api_key role username m)
add_api_key-HoldsManager tenant_id api_key role username m v = of_result _ refl
  where
    of_result :
        (r : AuthResult AuthManager)
        → add_api_key tenant_id api_key role username m ≡ r
        → HoldsManager r
    of_result (ok m') h = add_api_key-IsManager tenant_id api_key role username m v h
    of_result (err e) h = tt

bind-HoldsManager :
    (r : AuthResult AuthManager) (f : AuthManager → AuthResult AuthManager)
    → HoldsManager r
    → ((m : AuthManager) → IsManager m → HoldsManager (f m))
    → HoldsManager (r >>= f)
bind-HoldsManager (ok m) f h k = k m h
bind-HoldsManager (err e) f h k = tt

abbrev is_ok : AuthResult AuthManager → Bool
is_ok (ok m) = true
is_ok (err e) = false

held_result :
    (r : AuthResult AuthManager)
    → HoldsManager r
    → is_ok r ≡ true
    → (m : AuthManager) × (r ≡ ok m) × IsManager m
held_result (ok m) v h = (m, refl, v)
held_result (err e) v h = cc

new_manager-HoldsManager : HoldsManager new_manager
unfolding new_manager
new_manager-HoldsManager =
    bind-HoldsManager _ _
      (add_api_key-HoldsManager _ _ _ _ _
        (register_tenant-IsManager _ _ _ (register_tenant-IsManager _ _ _ empty-IsManager)))
      (λ m v.
        bind-HoldsManager _ _ (add_api_key-HoldsManager _ _ _ _ m v)
          (λ m' v'. add_api_key-HoldsManager _ _ _ _ m' v'))

new_manager-is_ok : is_ok new_manager ≡ true
unfolding new_manager register_tenant add_api_key lookup insert
new_manager-is_ok = refl

-- The constructor does not raise, and in the manager that it makes every role of a key or a user is
-- defined.
pub new_manager-IsManager : (m : AuthManager) × (new_manager ≡ ok m) × IsManager m
new_manager-IsManager = held_result new_manager new_manager-HoldsManager new_manager-is_ok
