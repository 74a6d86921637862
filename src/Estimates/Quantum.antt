-- ===== src/Estimates/Quantum.antt =====
-- Which estimation a scheme gets (quantum_cost/__init__.py).
use post_quantum_cryptograph.Common.{
  ℕ, ◌≡◌, ◌≢◌, ◌⊎◌, refl, sym, ap, ◌∙◌, subst, inl, inr, Bool, true, false, ◌&&◌, ◌||◌, Option,
  none, some, [], ◌∷◌, ◌++◌, arith, append_assoc, append-nil, ◌==◌, Bool-cases, All,
}
use post_quantum_cryptograph.Common.Bytes.{Bytes, bytes_eq, bytes_eq_iff, starts_with}
use post_quantum_cryptograph.Common.Table.{Table, find, All-find}
use post_quantum_cryptograph.Common.Checked.{Checked, ok, rejected, ◌>>=◌}
use post_quantum_cryptograph.Cbom.{lower}
use post_quantum_cryptograph.Estimates.{
  related, Resources, ml_kem_quantum_resources, first_related, resources_or, get_ml_kem_resources,
  Run, missing, timed_out, failed, exited, Parsed, document, not_json, unreadable, Estimation,
  reported, internal, estimate_quantum_resources, parsed_or, run_aqre_estimation,
}

-- The second text is the first with more characters, or none, at its end.
abbrev pub Begins : Bytes → Bytes → Type 0
Begins s t = (rest : Bytes) × (t ≡ s ++ rest)

starts_with-Begins : (s t : Bytes) → starts_with s t ≡ true → Begins s t
unfolding starts_with
starts_with-Begins [] t h = (t, refl)
starts_with-Begins (c ∷ s) [] h = absurd cc
starts_with-Begins (c ∷ s) (d ∷ t) h =
    let (same, more) = both (c == d) (starts_with s t) h in
    let (rest, e) = starts_with-Begins s t more in
    let equal : d ≡ c = ground arith in (rest, ap (λ x. x ∷ t) equal ∙ ap (λ l. c ∷ l) e)
  where
    both : (p q : Bool) → (p && q) ≡ true → (p ≡ true) × (q ≡ true)
    both true q g = (refl, g)
    both false q g = absurd cc

starts_with-append : (s rest : Bytes) → starts_with s (s ++ rest) ≡ true
unfolding starts_with
starts_with-append [] rest = refl
starts_with-append (c ∷ s) rest = let more = starts_with-append s rest in ground arith

not-Begins : (s t : Bytes) → starts_with s t ≡ false → Begins s t → ⊥
not-Begins s t h (rest, e) =
    let yes : starts_with s t ≡ true = rw e (starts_with-append s rest) in cc

Begins-trans : (s t u : Bytes) → Begins s t → Begins t u → Begins s u
Begins-trans s t u (x, e) (y, f) = (x ++ y, f ∙ ap (λ l. l ++ y) e ∙ rw append_assoc refl)

Begins-self : (s : Bytes) → Begins s s
Begins-self s = ([], sym (append-nil s))

-- No key starts another.
abbrev IsApart : Bytes → Bytes × Resources → Type 0
IsApart key (other, r) = (Begins key other → ⊥) × (Begins other key → ⊥)

abbrev AreApart : Table Resources → Type 0
AreApart [] = Unit
AreApart ((key, r) ∷ table) = All (IsApart key) table × AreApart table

apart_of :
    (s t : Bytes)
    → starts_with s t ≡ false
    → starts_with t s ≡ false
    → (Begins s t → ⊥) × (Begins t s → ⊥)
apart_of s t h g = (not-Begins s t h, not-Begins t s g)

keys-AreApart : AreApart ml_kem_quantum_resources
unfolding starts_with
keys-AreApart = (
  (apart_of _ _ refl refl, (apart_of _ _ refl refl, tt)),
  ((apart_of _ _ refl refl, tt), (tt, tt)),
)

-- The entry of the first key with a property.
abbrev pub IsFirst : (Bytes → Type 0) → Resources → Table Resources → Type 0
IsFirst P r [] = ⊥
IsFirst P r ((key, s) ∷ table) = (P key × (r ≡ s)) ⊎ ((P key → ⊥) × IsFirst P r table)

-- No key has the property.
abbrev pub IsNone : (Bytes → Type 0) → Table Resources → Type 0
IsNone P table = All (λ (e : Bytes × Resources). P e.0 → ⊥) table

-- The resources of a name: those of the key that starts it; or, if none does, of the first key that
-- it starts.
abbrev pub AreFor : Bytes → Table Resources → Resources → Type 0
AreFor name table r =
    IsFirst (λ key. Begins key name) r table
    ⊎ (IsNone (λ key. Begins key name) table × IsFirst (λ key. Begins name key) r table)

abbrev pub IsUnknown : Bytes → Table Resources → Type 0
IsUnknown name table = IsNone (λ key. Begins key name) table × IsNone (λ key. Begins name key) table

-- A name that a key extends begins with no key apart from that one.
no_other :
    (name key : Bytes) (table : Table Resources)
    → Begins name key
    → All (IsApart key) table
    → IsNone (λ other. Begins other name) table
no_other name key [] h apart = tt
no_other name key ((other, s) ∷ table) h apart =
    (λ b. apart.0.1 (Begins-trans other name key b h), no_other name key table h apart.1)

find-AreFor :
    (name : Bytes) (table : Table Resources) (r : Resources)
    → AreApart table
    → find name table ≡ some r
    → IsFirst (λ key. Begins key name) r table
unfolding find
find-AreFor name [] r apart e = absurd cc
find-AreFor name ((key, s) ∷ table) r apart e = elim (Bool-cases (bytes_eq key name)) [
  | inl t ↦
      let same : key ≡ name = (bytes_eq_iff key name).0 t in
      let value : some s ≡ some r = rw t at e in
      inl (subst (λ k. Begins key k) same (Begins-self key), sym (some-injective value))
  | inr f ↦
      let later : find name table ≡ some r = rw f at e in
      let outside = All-find (IsApart key) name r table apart.0 later in
      inr (outside.0, find-AreFor name table r apart.1 later)
]
  where
    some-injective : {a b : Resources} → some a ≡ some b → a ≡ b
    some-injective g = cc

either : (p q : Bool) → (p || q) ≡ true → (p ≡ true) ⊎ (q ≡ true)
either true q h = inl refl
either false q h = inr h

neither : (p q : Bool) → (p || q) ≡ false → (p ≡ false) × (q ≡ false)
neither false q h = (refl, h)
neither true q h = absurd cc

-- What the loop finds.
abbrev IsFound : Bytes → Table Resources → Checked Resources → Type 0
IsFound name table (ok r) = AreFor name table r
IsFound name table (rejected message) = (message ≡ "Unknown ML-KEM scheme") × IsUnknown name table

IsFound-later :
    (name key : Bytes) (s : Resources) (table : Table Resources) (result : Checked Resources)
    → (Begins key name → ⊥)
    → (Begins name key → ⊥)
    → IsFound name table result
    → IsFound name ((key, s) ∷ table) result
IsFound-later name key s table (ok r) h g (inl first) = inl (inr (h, first))
IsFound-later name key s table (ok r) h g (inr (none_, first)) = inr ((h, none_), inr (g, first))
IsFound-later name key s table (rejected m) h g (e, (a, b)) = (e, ((h, a), (g, b)))

found_here :
    (name key : Bytes) (s : Resources) (table : Table Resources)
    → All (IsApart key) table
    → related name key ≡ true
    → AreFor name ((key, s) ∷ table) s
found_here name key s table apart h = elim (Bool-cases (starts_with key name)) [
  | inl t ↦ inl (inl (starts_with-Begins key name t, refl))
  | inr f ↦
      let b = starts_with-Begins name key (first_of (starts_with name key) f h) in
      inr ((not-Begins key name f, no_other name key table b apart), inl (b, refl))
]
  where
    first_of : (p : Bool) {q : Bool} → q ≡ false → (p || q) ≡ true → p ≡ true
    first_of true f h = refl
    first_of false f h = absurd cc

first_related-IsFound :
    (name : Bytes) (table : Table Resources)
    → AreApart table
    → IsFound name table (first_related name table)
unfolding first_related
first_related-IsFound name [] apart = (refl, (tt, tt))
first_related-IsFound name ((key, s) ∷ table) apart = elim (Bool-cases (related name key)) [
  | inl t ↦ rw t (found_here name key s table apart.0 t)
  | inr f ↦
      let (a, b) = neither (starts_with name key) (starts_with key name) f in
      rw f (
        IsFound-later name key s table (first_related name table) (not-Begins key name b)
          (not-Begins name key a) (first_related-IsFound name table apart.1))
]

-- The first branch of the lookup, for the name itself, changes nothing.
resources_or-IsFound :
    (name : Bytes) (o : Option Resources)
    → find name ml_kem_quantum_resources ≡ o
    → IsFound name ml_kem_quantum_resources
        (resources_or o (first_related name ml_kem_quantum_resources))
resources_or-IsFound name (some r) e =
    inl (find-AreFor name ml_kem_quantum_resources r keys-AreApart e)
resources_or-IsFound name none e = first_related-IsFound name ml_kem_quantum_resources keys-AreApart

-- The command gave no document: it is missing, took too long, exited with an error or printed no JSON.
abbrev pub GaveNothing : (Bytes → Parsed) → Run → Type 0
GaveNothing parse run =
    (run ≡ missing)
    ⊎ (run ≡ timed_out)
    ⊎ ((code : ℕ) × (out : Bytes) × (run ≡ exited code out) × ((code ≢ 0) ⊎ (parse out ≡ not_json)))

-- What each outcome of an estimation says of the command and of the scheme.
abbrev pub IsOutcome : (Bytes → Parsed) → Run → Bytes → Checked Estimation → Type 0
IsOutcome parse run scheme (ok (reported d)) =
    (out : Bytes) × (run ≡ exited 0 out) × (parse out ≡ document d)
IsOutcome parse run scheme (ok (internal name r)) =
    GaveNothing parse run × (name ≡ scheme) × AreFor (lower scheme) ml_kem_quantum_resources r
IsOutcome parse run scheme (rejected message) =
    (run ≡ failed message)
    ⊎ ((out : Bytes) × (run ≡ exited 0 out) × (parse out ≡ unreadable message))
    ⊎ (GaveNothing parse run
        × (message ≡ "Unknown ML-KEM scheme")
        × IsUnknown (lower scheme) ml_kem_quantum_resources)

estimated-IsOutcome :
    (parse : Bytes → Parsed) (run : Run) (scheme : Bytes) (found : Checked Resources)
    → GaveNothing parse run
    → IsFound (lower scheme) ml_kem_quantum_resources found
    → IsOutcome parse run scheme (found >>= λ r. ok (internal scheme r))
estimated-IsOutcome parse run scheme (ok r) nothing h = (nothing, refl, h)
estimated-IsOutcome parse run scheme (rejected m) nothing (e, unknown) =
    inr (inr (nothing, e, unknown))

fallback-IsOutcome :
    (parse : Bytes → Parsed) (run : Run) (scheme : Bytes)
    → GaveNothing parse run
    → IsOutcome parse run scheme (estimate_quantum_resources scheme)
unfolding estimate_quantum_resources get_ml_kem_resources
fallback-IsOutcome parse run scheme nothing =
    estimated-IsOutcome parse run scheme _ nothing
      (resources_or-IsFound (lower scheme) (find (lower scheme) ml_kem_quantum_resources) refl)

parsed-IsOutcome :
    (parse : Bytes → Parsed) (out scheme : Bytes) (p : Parsed)
    → parse out ≡ p
    → IsOutcome parse (exited 0 out) scheme (parsed_or p (estimate_quantum_resources scheme))
parsed-IsOutcome parse out scheme (document d) e = (out, refl, e)
parsed-IsOutcome parse out scheme not_json e =
    fallback-IsOutcome parse (exited 0 out) scheme (inr (inr (0, out, refl, inr e)))
parsed-IsOutcome parse out scheme (unreadable m) e = inr (inl (out, refl, e))

-- What each outcome of an estimation with aqre means. A document that is returned is the JSON that
-- the command printed, with exit status 0. An internal estimate means that the command is missing,
-- took too long, exited with another status or printed no JSON; its resources are those of the one
-- key that the lowered name of the scheme begins with, or, if there is none, of the first key that
-- begins with the name. An exception is one of the command or the parser that is not caught, or the
-- command gave nothing, no key begins with the name, and the name begins with no key.
pub run_aqre_estimation_lem :
    (parse : Bytes → Parsed) (run : Run) (scheme : Bytes)
    → IsOutcome parse run scheme (run_aqre_estimation parse run scheme)
unfolding run_aqre_estimation
run_aqre_estimation_lem parse missing scheme = fallback-IsOutcome parse missing scheme (inl refl)
run_aqre_estimation_lem parse timed_out scheme =
    fallback-IsOutcome parse timed_out scheme (inr (inl refl))
run_aqre_estimation_lem parse (failed message) scheme = inl refl
run_aqre_estimation_lem parse (exited code out) scheme = elim (Bool-cases (code == 0)) [
  | inl t ↦
      let zero_ : code ≡ 0 = ground arith in
      rw zero_ (parsed-IsOutcome parse out scheme (parse out) refl)
  | inr f ↦ rw f (
      fallback-IsOutcome parse (exited code out) scheme
        (inr (inr (code, out, refl, inl (λ z. ground arith)))))
]
