-- ===== src/Common/Table.antt =====
-- Python's `dict` with keys that are lists of codes, in insertion order.
use post_quantum_cryptograph.Common.{
  ◌≡◌, refl, subst, Bool, ◌||◌, Option, none, some, List, [], ◌∷◌, arith, if◌then◌else◌, All,
  Bool-cases, inl, inr,
}
use post_quantum_cryptograph.Common.Bytes.{Bytes, bytes_eq, bytes_eq_iff}
use post_quantum_cryptograph.Common.Dict.{is_some}

abbrev pub Table {ℓ} : Type ℓ → Type ℓ
Table V = List (Bytes × V)

module _ {ℓ} {V : Type ℓ} where
  -- d.get(k)
  unfoldable pub find : Bytes → Table V → Option V
  find k [] = none
  find k ((j, v) ∷ d) = if bytes_eq j k then some v else find k d

  -- d[k] = v
  unfoldable pub put : Bytes → V → Table V → Table V
  put k v [] = (k, v) ∷ []
  put k v ((j, w) ∷ d) = if bytes_eq j k then (k, v) ∷ d else (j, w) ∷ put k v d

  -- `k in d`
  abbrev pub has : Bytes → Table V → Bool
  has k d = is_some (find k d)

  pub find-put :
      (k j : Bytes) (v : V) (d : Table V)
      → find j (put k v d) ≡ (if bytes_eq k j then some v else find j d)
  unfolding find put
  find-put k j v [] = refl
  find-put k j v ((i, w) ∷ d) =
      ground (arith, bytes_eq_iff k j, bytes_eq_iff i k, bytes_eq_iff i j, find-put k j v d)

  pub has-put : (k j : Bytes) (v : V) (d : Table V) → has j (put k v d) ≡ (bytes_eq k j || has j d)
  has-put k j v d = elim (Bool-cases (bytes_eq k j)) [
    | inl t ↦ rw (find-put k j v d, t) refl
    | inr f ↦ rw (find-put k j v d, f) refl
  ]

  -- A property of the entries that are written.
  pub All-put {κ} :
      (P : Bytes × V → Type κ) (k : Bytes) (v : V) (d : Table V)
      → P (k, v)
      → All P d
      → All P (put k v d)
  unfolding put
  All-put P k v [] new h = (new, tt)
  All-put P k v ((j, w) ∷ d) new h = elim (Bool-cases (bytes_eq j k)) [
    | inl t ↦ rw t (new, h.1)
    | inr f ↦ rw f (h.0, All-put P k v d new h.1)
  ]

  pub All-find {κ} :
      (P : Bytes × V → Type κ) (k : Bytes) (v : V) (d : Table V)
      → All P d
      → find k d ≡ some v
      → P (k, v)
  unfolding find
  All-find P k v [] h e = cc
  All-find P k v ((j, w) ∷ d) h e = elim (Bool-cases (bytes_eq j k)) [
    | inl t ↦
        let same : (j, w) ≡ (k, v) = let key = (bytes_eq_iff j k).0 t in ground (arith, key) in
        subst P same h.0
    | inr f ↦ All-find P k v d h.1 (rw f at e)
  ]
