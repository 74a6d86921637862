-- ===== src/Gateway/Auth/Tokens.antt =====
-- Tokens (gateway/auth.py, lines 72 to 131).
use post_quantum_cryptograph.Common.{
  false, ℕ, ◌/◌, ◌≡◌, ◌≢◌, refl, sym, ap, ◌∙◌, inl, inr, Option-cases, String, none, some, List, [],
  ◌∷◌, ◌++◌, arith, if◌then◌else◌, All,
}
use post_quantum_cryptograph.Common.Bytes.{Bytes, bytes_eq_iff, bytes_eq_refl}
use post_quantum_cryptograph.Common.Dict.{lookup}
use post_quantum_cryptograph.Common.Int.{ℤ, pos, ◌+ℤ◌}
use post_quantum_cryptograph.Gateway.Auth.{
  ok, UserInfo, Tenant, AuthManager, AuthContext, Payload, Codec, CodecLaws, dot, split_dots,
  cons_first, claims, token_of, generate_jwt, verify_jwt, verify_payload, tenant_in, expiry,
  is_past, verify_parts,
}

split_dots-no_dot : (xs : Bytes) → All (λ b. b ≢ dot) xs → split_dots xs ≡ xs ∷ []
unfolding split_dots
split_dots-no_dot [] h = refl
split_dots-no_dot (b ∷ xs) h = rw (split_dots-no_dot xs h.1) (ground arith)

split_dots-append :
    (xs ys : Bytes)
    → All (λ b. b ≢ dot) xs
    → All (λ b. b ≢ dot) ys
    → split_dots (xs ++ dot ∷ ys) ≡ xs ∷ ys ∷ []
unfolding split_dots
split_dots-append [] ys h k = ap (λ t. [] ∷ t) (split_dots-no_dot ys k)
split_dots-append (b ∷ xs) ys h k = rw (split_dots-append xs ys h.1 k) (ground arith)

-- What `split_dots` returns, joined again with dots.
join_dots : List Bytes → Bytes
join_dots [] = []
join_dots (p ∷ []) = p
join_dots (p ∷ q ∷ ps) = p ++ dot ∷ join_dots (q ∷ ps)

split_dots-ne-nil : (xs : Bytes) → split_dots xs ≢ []
unfolding split_dots
split_dots-ne-nil [] h = cc
split_dots-ne-nil (b ∷ xs) h = ground arith

join_dots-cons_first :
    (b : ℕ) (parts : List Bytes) → parts ≢ [] → join_dots (cons_first b parts) ≡ b ∷ join_dots parts
unfolding join_dots
join_dots-cons_first b [] h = absurd (h refl)
join_dots-cons_first b (p ∷ []) h = refl
join_dots-cons_first b (p ∷ q ∷ ps) h = refl

join_dots-nil_first :
    (parts : List Bytes) → parts ≢ [] → join_dots ([] ∷ parts) ≡ dot ∷ join_dots parts
unfolding join_dots
join_dots-nil_first [] h = absurd (h refl)
join_dots-nil_first (p ∷ ps) h = refl

join_dots-split_dots : (xs : Bytes) → join_dots (split_dots xs) ≡ xs
unfolding split_dots
join_dots-split_dots [] = unfold join_dots in refl
join_dots-split_dots (b ∷ xs) = grind (
  arith,
  join_dots-split_dots xs,
  split_dots-ne-nil xs,
  join_dots-cons_first b (split_dots xs),
  join_dots-nil_first (split_dots xs),
)

-- A token that splits in two parts is the two around a dot.
split_dots-parts : (token p s : Bytes) → split_dots token ≡ p ∷ s ∷ [] → token ≡ p ++ dot ∷ s
unfolding join_dots
split_dots-parts token p s h = sym (join_dots-split_dots token) ∙ ap join_dots h

module _ (codec : Codec) (laws : CodecLaws codec) (ticks_per_second : ℕ) where
  verify_jwt-token_of :
      (p : Payload) (now : ℕ) (m : AuthManager)
      → codec.decode (codec.encode p) ≡ some p
      → verify_jwt codec ticks_per_second (token_of codec ticks_per_second p) now m
        ≡ verify_payload codec ticks_per_second now m (some p)
  unfolding verify_jwt
  verify_jwt-token_of p now m again = rw (
    split_dots-append (codec.encode p) (codec.sign (codec.encode p)) (laws.encode-no_dot p)
        (laws.sign-no_dot (codec.encode p)),
    bytes_eq_refl (codec.sign (codec.encode p)),
    again,
  )

  -- Where the codec decodes the claims that it encoded, a token that was generated verifies until
  -- its expiry second has passed, and then no more; it carries the tenant, the user, the user's role
  -- and that role's permissions.
  pub verify-generate :
      (tenant_id username : String) (expiry_seconds : ℤ) (now later : ℕ) (m : AuthManager)
      (t : Tenant) (user : UserInfo) (permissions : List String)
      → lookup tenant_id m.tenants ≡ some t
      → lookup username t.users ≡ some user
      → lookup user.role t.roles ≡ some permissions
      → (let p =
            claims codec ticks_per_second tenant_id username user.role
              (pos (now / ticks_per_second) +ℤ expiry_seconds) in
          codec.decode (codec.encode p) ≡ some p)
      → (token : Bytes) × (generate_jwt codec ticks_per_second tenant_id username expiry_seconds now
            m
          ≡ ok token)
        × (verify_jwt codec ticks_per_second token later m ≡ (
            if is_past codec ticks_per_second (pos (now / ticks_per_second) +ℤ expiry_seconds) later
            then none
            else some (record {
              tenant_id = tenant_id;
              username = some username;
              role = user.role;
              permissions = permissions;
            })))
  unfolding generate_jwt
  verify-generate tenant_id username expiry_seconds now later m t user permissions ht hu hr again =
      let p =
        claims codec ticks_per_second tenant_id username user.role
          (pos (now / ticks_per_second) +ℤ expiry_seconds) in
      (
        token_of codec ticks_per_second p,
        rw (ht, hu),
        verify_jwt-token_of p later m again ∙ rw (ht, hr),
      )

  -- What stands behind a token that verified.
  pub record Verified (token : Bytes) (now : ℕ) (m : AuthManager) (c : AuthContext) : Type 0 where
    pub payload : Bytes
    pub body : Payload
    pub tenant : Tenant
    pub signed : token ≡ payload ++ dot ∷ codec.sign payload
    pub decoded : codec.decode payload ≡ some body
    pub unexpired : is_past codec ticks_per_second (expiry codec ticks_per_second body) now ≡ false
    pub tenant_id : body.tenant_id ≡ some c.tenant_id
    pub role : body.role ≡ some c.role
    pub username : body.username ≡ c.username
    pub known : lookup c.tenant_id m.tenants ≡ some tenant
    pub granted : lookup c.role tenant.roles ≡ some c.permissions

  abbrev GrantedBy : Payload → AuthManager → AuthContext → Tenant → Type 0
  GrantedBy p m c t =
      (p.tenant_id ≡ some c.tenant_id)
      × (p.role ≡ some c.role)
      × (p.username ≡ c.username)
      × (lookup c.tenant_id m.tenants ≡ some t)
      × (lookup c.role t.roles ≡ some c.permissions)

  tenant_in_sound :
      (p : Payload) (m : AuthManager) (c : AuthContext)
      → tenant_in codec ticks_per_second p p.tenant_id m ≡ some c
      → (t : Tenant) × GrantedBy p m c t
  tenant_in_sound p m c h = elim (Option-cases p.tenant_id) [
    | inl missing ↦ absurd (ground arith)
    | inr (id, named) ↦ elim (Option-cases (lookup id m.tenants)) [
      | inl missing ↦ absurd (ground arith)
      | inr (t, there) ↦ (t, ground arith)
    ]
  ]

  verify_parts_sound :
      (p s : Bytes) (now : ℕ) (m : AuthManager) (c : AuthContext)
      → verify_parts codec ticks_per_second now m (p ∷ s ∷ []) ≡ some c
      → (body : Payload) × (s ≡ codec.sign p)
        × (codec.decode p ≡ some body)
        × (is_past codec ticks_per_second (expiry codec ticks_per_second body) now ≡ false)
        × (tenant_in codec ticks_per_second body body.tenant_id m ≡ some c)
  verify_parts_sound p s now m c h = ground (arith, bytes_eq_iff s (codec.sign p))

  verify_split :
      (token : Bytes) (now : ℕ) (m : AuthManager) (c : AuthContext) (parts : List Bytes)
      → split_dots token ≡ parts
      → verify_parts codec ticks_per_second now m parts ≡ some c
      → Verified token now m c
  verify_split token now m c (p ∷ s ∷ []) e h =
      let (body, signed, decoded, fresh, inside) = verify_parts_sound p s now m c h in
      let (t, (a, b, d, f, g)) = tenant_in_sound body m c inside in
      record {
        payload = p;
        body = body;
        tenant = t;
        signed = split_dots-parts token p s e ∙ ap (λ x. p ++ dot ∷ x) signed;
        decoded = decoded;
        unexpired = fresh;
        tenant_id = a;
        role = b;
        username = d;
        known = f;
        granted = g;
      }
  verify_split token now m c _ e h = cc

  -- Whatever text is presented: a token that verifies is a payload and its signature, with one dot
  -- between them; it has not expired; its tenant is registered now, its role is one of that
  -- tenant's, and the permissions are those that the tenant grants the role now.
  pub verify_jwt_sound :
      (token : Bytes) (now : ℕ) (m : AuthManager) (c : AuthContext)
      → verify_jwt codec ticks_per_second token now m ≡ some c
      → Verified token now m c
  unfolding verify_jwt
  verify_jwt_sound token now m c h = verify_split token now m c (split_dots token) refl h
