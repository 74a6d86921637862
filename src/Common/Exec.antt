-- ===== src/Common/Exec.antt =====
-- Methods of a stateful object that may raise. The state comes back beside an exception too:
-- what a method wrote before it raised stays written.
use post_quantum_cryptograph.Common.{String, Bool, true, false, ℕ, Option, none, some}

-- The exceptions: a length check that names its field and bounds, any other `ValueError`, the
-- subclass `ProtocolError`, and the `AttributeError` of a method call on `None`.
pub data Error : Type 0 where
  bad_length : String → ℕ → ℕ → Error
  value_error : String → Error
  protocol_error : String → Error
  attribute_error : Error

pub data Result {ℓ} (A : Type ℓ) : Type ℓ where
  ok : A → Result A
  err : Error → Result A

-- isinstance(exc, ValueError); `ProtocolError` derives from `ValueError`.
unfoldable pub is_value_error : Error → Bool
is_value_error attribute_error = false
is_value_error (bad_length n a b) = true
is_value_error (value_error m) = true
is_value_error (protocol_error m) = true

-- Chains of pure code that may raise.
infixl 8 ◌>>?◌
abbrev pub ◌>>?◌ {ℓ κ} : {A : Type ℓ} {B : Type κ} → Result A → (A → Result B) → Result B
ok a >>? f = f a
err e >>? f = err e

abbrev pub Exec : Type 0 → Type 0 → Type 0
Exec S A = S → Result A × S

module _ {S A : Type 0} where
  abbrev pub pure : A → Exec S A
  pure a s = (ok a, s)

  abbrev pub raise : Error → Exec S A
  raise e s = (err e, s)

  abbrev pub lift : Result A → Exec S A
  lift r s = (r, s)

  abbrev pub gets : (S → A) → Exec S A
  gets f s = (ok (f s), s)

  -- A method of a field that may be `None`.
  abbrev pub attribute : Option A → Exec S A
  attribute none = raise attribute_error
  attribute (some a) = pure a

  -- try: m except ValueError: handler
  abbrev handled : Exec S A → Result A × S → Result A × S
  handled handler (ok a, s) = (ok a, s)
  handled handler (err e, s) = elim (is_value_error e) [ true ↦ handler s | false ↦ (err e, s) ]

  abbrev pub catch_value_error : Exec S A → Exec S A → Exec S A
  catch_value_error m handler s = handled handler (m s)

abbrev pub modify : {S : Type 0} → (S → S) → Exec S (Unit {0})
modify f s = (ok tt, f s)

module _ {S A B : Type 0} where
  infixl 5 ◌>>=◌ ◌>>◌
  abbrev pub ◌>>=◌ : Exec S A → (A → Exec S B) → Exec S B
  ◌>>=◌ m f s = let (r, s') = m s in elim r [ ok a ↦ f a s' | err e ↦ (err e, s') ]

  abbrev pub ◌>>◌ : Exec S A → Exec S B → Exec S B
  m >> k = m >>= λ _. k
