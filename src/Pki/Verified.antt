-- ===== src/Pki/Verified.antt =====
-- A chain that is generated is verified (hybrid_certs.py, lines 65 to 197).
use post_quantum_cryptograph.Common.{
  ℕ, subst, ◌*◌, ◌≡◌, refl, Bool, true, false, not, ◌&&◌, [], ◌∷◌, ◌++◌, leb, ◌==◌, length, drop,
  arith, ◌^◌,
}
use post_quantum_cryptograph.Common.Int.{
  ℤ, pos, ◌+ℤ◌, ◌-ℤ◌, leb_ℤ, ltb_ℤ, ◌==ℤ◌, +ℤ_parts, -ℤ_parts,
}
use post_quantum_cryptograph.Common.Bytes.{
  Bytes, bytes_eq, bytes_eq_refl, bytes_eq_iff, starts_with,
}
use post_quantum_cryptograph.Common.Sets.{mem, every}
use post_quantum_cryptograph.Common.Checked.{Checked, ok, require-eq-ok, bind-eq-ok, ok-injective}
use post_quantum_cryptograph.Pki.{
  Time, aware, check_time, Name, name_of, is_name, check_name, same_name, PublicKey, same_key,
  Contents, Certificate, HybridCertificate, extension_of, pq_prefix, day, message, check_subject,
  check_extensions, check_profile, check_signatures, check_pair, verify_chain, Keys, contents_of,
  signed_by, issue, generate_chain,
}

module _ (tbs : Contents → Bytes) (der : Certificate → Bytes)
    (rsa_verify : PublicKey → Bytes → Bytes → Bool) (pq_key_ok : Bytes → Bool)
    (pq_verify : Bytes → Bytes → Bytes → Bool) where
  -- What the packages promise of key pairs.
  pub record ArePairs (k : Keys) : Type 0 where
    pub rsa : k.rsa_public.is_rsa ≡ true
    pub size : k.rsa_public.key_size ≡ 4096
    pub exponent : k.rsa_public.exponent ≡ 65537
    pub pq_length : length k.pq_public ≡ 1952
    pub pq_ok : pq_key_ok k.pq_public ≡ true
    pub rsa_verifies : (m : Bytes) → rsa_verify k.rsa_public (k.rsa_sign m) m ≡ true
    pub pq_signature_length : (m : Bytes) → length (k.pq_sign m) ≡ 3309
    pub pq_verifies : (m : Bytes) → pq_verify k.pq_public (k.pq_sign m) m ≡ true

  abbrev made : Bool → Bytes → Name → Keys → ℤ → ℤ → ℤ → Contents
  made ca t issuer k start stop serial =
      contents_of tbs der rsa_verify pq_key_ok pq_verify ca (name_of t) issuer k start stop serial

  subject_ok :
      (ca : Bool) (t : Bytes) (issuer : Name) (k : Keys) (start stop serial : ℤ)
      → is_name t ≡ true
      → check_subject tbs der rsa_verify pq_key_ok pq_verify (made ca t issuer k start stop serial)
        ≡ ok tt
  unfolding check_subject check_name bytes_eq
  subject_ok ca t issuer k start stop serial h = rw (h, bytes_eq_refl t) refl

  extensions_ok :
      (ca : Bool) (t : Bytes) (issuer : Name) (k : Keys) (start stop serial : ℤ)
      → check_extensions tbs der rsa_verify pq_key_ok pq_verify
          (made ca t issuer k start stop serial)
          ca
        ≡ ok (pq_prefix ++ k.pq_public)
  unfolding check_extensions extension_of bytes_eq every mem
  extensions_ok true t issuer k start stop serial = refl
  extensions_ok false t issuer k start stop serial = refl

  payload_length : (k : Bytes) → length k ≡ 1952 → (length (pq_prefix ++ k) == 1967) ≡ true
  payload_length k h = ground arith

  drop_prefix : (k : Bytes) → drop 15 (pq_prefix ++ k) ≡ k
  unfolding drop
  drop_prefix k = refl

  profile_ok :
      (ca : Bool) (t : Bytes) (issuer : Name) (k : Keys) (start stop serial at : ℤ)
      → ArePairs k
      → is_name t ≡ true
      → (leb_ℤ start at && leb_ℤ at stop) ≡ true
      → (ltb_ℤ start stop && leb_ℤ (stop -ℤ start) (pos (365 * day))) ≡ true
      → (ltb_ℤ (pos 0) serial && ltb_ℤ serial (pos (2 ^ 159))) ≡ true
      → check_profile tbs der rsa_verify pq_key_ok pq_verify
          (made ca t issuer k start stop serial)
          ca
          at
        ≡ ok k.pq_public
  unfolding check_profile starts_with check_subject check_extensions drop
  profile_ok ca t issuer k start stop serial at h name now span range =
      let length_ok = payload_length k.pq_public h.pq_length in
      rw
        (
          h.rsa,
          h.size,
          h.exponent,
          subject_ok ca t issuer k start stop serial name,
          now,
          span,
          range,
          extensions_ok ca t issuer k start stop serial,
          length_ok,
          h.pq_ok,
        )
        refl

  signatures_ok :
      (root : Keys) (c : Contents)
      → ArePairs root
      → check_signatures tbs der rsa_verify pq_key_ok pq_verify root.rsa_public root.pq_public
          (issue tbs der rsa_verify pq_key_ok pq_verify root c)
        ≡ ok tt
  unfolding check_signatures
  signatures_ok root c h =
      rw
        (
          h.pq_signature_length (
              message tbs der rsa_verify pq_key_ok pq_verify
                (signed_by tbs der rsa_verify pq_key_ok pq_verify root c)),
          h.rsa_verifies (tbs c),
          h.pq_verifies (
              message tbs der rsa_verify pq_key_ok pq_verify
                (signed_by tbs der rsa_verify pq_key_ok pq_verify root c)),
        )
        refl

  span_ok :
      (start : ℤ) (days : ℕ)
      → (leb 1 days && leb days 365) ≡ true
      → let stop = start +ℤ pos (days * day) in
        (ltb_ℤ start stop && leb_ℤ (stop -ℤ start) (pos (365 * day))) ≡ true
  span_ok start days h =
      ground (arith, +ℤ_parts start (pos (days * day)), -ℤ_parts (start +ℤ pos (days * day)) start)

  issuers_ok :
      (t u : Bytes)
      → same_name (name_of t) (name_of u) ≡ false
      → (same_name (name_of t) (name_of t)
          && same_name (name_of t) (name_of t)
          && not (same_name (name_of u) (name_of t)))
        ≡ true
  unfolding bytes_eq
  issuers_ok t u h = ground (arith, bytes_eq_refl t, bytes_eq_iff t u, bytes_eq_iff u t)

  pair_ok :
      (t u : Bytes) (r l : Keys) (start stop s₀ s₁ : ℤ)
      → same_name (name_of t) (name_of u) ≡ false
      → (s₀ ==ℤ s₁) ≡ false
      → same_key r.rsa_public l.rsa_public ≡ false
      → bytes_eq r.pq_public l.pq_public ≡ false
      → check_pair tbs der rsa_verify pq_key_ok pq_verify
          (made true t (name_of t) r start stop s₀)
          r.pq_public
          (made false u (name_of t) l start stop s₁)
          l.pq_public
        ≡ ok tt
  unfolding check_pair
  pair_ok t u r l start stop s₀ s₁ names serials keys pq_keys =
      rw (issuers_ok t u names, serials, keys, pq_keys, within) refl
    where
      within : (leb_ℤ start start && leb_ℤ stop stop) ≡ true
      within = ground arith

  abbrev in_range : ℤ → Bool
  in_range serial = ltb_ℤ (pos 0) serial && ltb_ℤ serial (pos (2 ^ 159))

  -- Two certificates, and the serials and keys that they do not share.
  pub record AreDistinct (r l : Keys) (s₀ s₁ : ℤ) : Type 0 where
    pub rsa_keys : same_key r.rsa_public l.rsa_public ≡ false
    pub pq_keys : bytes_eq r.pq_public l.pq_public ≡ false
    pub serials : (s₀ ==ℤ s₁) ≡ false
    pub first_range : in_range s₀ ≡ true
    pub second_range : in_range s₁ ≡ true

  -- A root certificate with an encoding that can be pinned, at a time that it is valid.
  abbrev pub IsUsable : HybridCertificate → ℤ → Type 0
  IsUsable h at =
      ((leb 1 (length (der h.certificate)) && leb (length (der h.certificate)) 16384) ≡ true)
      × ((leb_ℤ h.certificate.contents.not_valid_before at
            && leb_ℤ at h.certificate.contents.not_valid_after)
          ≡ true)

  chain_ok :
      (t u : Bytes) (days : ℕ) (r l : Keys) (start s₀ s₁ at : ℤ) (time : Time)
      → ArePairs r
      → ArePairs l
      → AreDistinct r l s₀ s₁
      → is_name t ≡ true
      → is_name u ≡ true
      → same_name (name_of t) (name_of u) ≡ false
      → (leb 1 days && leb days 365) ≡ true
      → check_time time ≡ ok at
      → let stop = start +ℤ pos (days * day) in
        let root =
          issue tbs der rsa_verify pq_key_ok pq_verify r
            (made true t (name_of t) r start stop s₀) in
        let leaf =
          issue tbs der rsa_verify pq_key_ok pq_verify r
            (made false u (name_of t) l start stop s₁) in
        IsUsable root at
        → verify_chain tbs der rsa_verify pq_key_ok pq_verify
            (root ∷ leaf ∷ [])
            (der root.certificate)
            time
          ≡ ok tt
  unfolding verify_chain
  chain_ok t u days r l start s₀ s₁ at time hr hl h nt nu names few now (pinned, valid) =
      let stop = start +ℤ pos (days * day) in
      let root = made true t (name_of t) r start stop s₀ in
      let leaf = made false u (name_of t) l start stop s₁ in
      let span = span_ok start days few in
      rw
        (
          now,
          pinned,
          bytes_eq_refl (der (signed_by tbs der rsa_verify pq_key_ok pq_verify r root)),
          profile_ok true t (name_of t) r start stop s₀ at hr nt valid span h.first_range,
          profile_ok false u (name_of t) l start stop s₁ at hl nu valid span h.second_range,
          pair_ok t u r l start stop s₀ s₁ names h.serials h.rsa_keys h.pq_keys,
          signatures_ok r root hr,
          signatures_ok r leaf hr,
        )
        refl

  -- A pair that is verified when its root is usable.
  abbrev Passes : Time → ℤ → HybridCertificate × HybridCertificate → Type 0
  Passes time at (root, leaf) =
      IsUsable root at
      → verify_chain tbs der rsa_verify pq_key_ok pq_verify (root ∷ leaf ∷ [])
          (der root.certificate) time
        ≡ ok tt

  abbrev chain_for :
      Bytes
      → Bytes
      → Time
      → ℕ
      → Keys
      → Keys
      → ℤ
      → ℤ
      → Checked (HybridCertificate × HybridCertificate)
  chain_for = generate_chain tbs der rsa_verify pq_key_ok pq_verify

  generated-Passes :
      (t u : Bytes) (not_before : Time) (days : ℕ) (r l : Keys) (s₀ s₁ at : ℤ) (time : Time)
      (pair : HybridCertificate × HybridCertificate)
      → ArePairs r
      → ArePairs l
      → AreDistinct r l s₀ s₁
      → check_time time ≡ ok at
      → is_name t ≡ true
      → is_name u ≡ true
      → chain_for t u not_before days r l s₀ s₁ ≡ ok pair
      → Passes time at pair
  unfolding generate_chain check_name
  generated-Passes t u not_before days r l s₀ s₁ at time pair hr hl h now nt nu e =
      let f₂ = rw (nt, nu) at e in
      let (differ, f₃) = require-eq-ok (not (same_name (name_of t) (name_of u))) _ _ f₂ in
      let (start, e₃, f₄) = bind-eq-ok (check_time not_before) _ f₃ in
      let (few, f₅) = require-eq-ok (leb 1 days && leb days 365) _ _ f₄ in
      let (s, e₄, f₆) = bind-eq-ok (check_time (aware 0 (start +ℤ pos (days * day)))) _ f₅ in
      subst (Passes time at) (ok-injective _ pair f₆) (
        chain_ok t u days r l start s₀ s₁ at time hr hl h nt nu
          (apart (same_name (name_of t) (name_of u)) differ) few now)
    where
      apart : (b : Bool) → not b ≡ true → b ≡ false
      apart false g = refl
      apart true g = absurd cc

  generated-names :
      (t u : Bytes) (not_before : Time) (days : ℕ) (r l : Keys) (s₀ s₁ : ℤ)
      (pair : HybridCertificate × HybridCertificate)
      → chain_for t u not_before days r l s₀ s₁ ≡ ok pair
      → (is_name t ≡ true) × (is_name u ≡ true)
  unfolding generate_chain check_name
  generated-names t u not_before days r l s₀ s₁ pair e =
      let (n, e₁, f₁) = bind-eq-ok (check_name t) _ e in
      let (m, e₂, f₂) = bind-eq-ok (check_name u) _ f₁ in
      let (nt, _) = require-eq-ok (is_name t) _ (ok (name_of t)) e₁ in
      let (nu, _) = require-eq-ok (is_name u) _ (ok (name_of u)) e₂ in (nt, nu)

  -- A chain that is generated is verified: where both key pairs sign and verify as the packages
  -- promise, with RSA-4096, exponent 65,537 and ML-DSA-65 sizes, where the keys and the serials of
  -- root and leaf differ and the serials are positive and below 2 ^ 159, and where the root's
  -- encoding has 1 to 16,384 bytes, the root and leaf that generate_chain returned, whatever their
  -- names, start and days, pass verify_chain with the root's own encoding as the pin, at every
  -- accepted time from the root's start to its end.
  pub verify-generate_chain :
      (root_cn leaf_cn : Bytes) (not_before : Time) (days : ℕ) (r l : Keys) (s₀ s₁ : ℤ)
      (root leaf : HybridCertificate) (time : Time) (at : ℤ)
      → ArePairs r
      → ArePairs l
      → AreDistinct r l s₀ s₁
      → generate_chain tbs der rsa_verify pq_key_ok pq_verify root_cn leaf_cn not_before days r l s₀
          s₁
        ≡ ok (root, leaf)
      → check_time time ≡ ok at
      → IsUsable root at
      → verify_chain tbs der rsa_verify pq_key_ok pq_verify
          (root ∷ leaf ∷ [])
          (der root.certificate)
          time
        ≡ ok tt
  verify-generate_chain t u not_before days r l s₀ s₁ root leaf time at hr hl h e now usable =
      let (nt, nu) = generated-names t u not_before days r l s₀ s₁ (root, leaf) e in
      generated-Passes t u not_before days r l s₀ s₁ at time (root, leaf) hr hl h now nt nu e usable
