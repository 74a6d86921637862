-- ===== src/Common/Checked.antt =====
-- Code that returns a result or raises an exception with a message, and keeps no state.
use post_quantum_cryptograph.Common.{◌≡◌, refl, String, Bool, true, false}

-- A result, or the message of the exception that was raised.
pub data Checked {ℓ} (A : Type ℓ) : Type ℓ where
  ok : A → Checked A
  rejected : String → Checked A

infixl 5 ◌>>=◌
abbrev pub ◌>>=◌ {ℓ κ} : {A : Type ℓ} {B : Type κ} → Checked A → (A → Checked B) → Checked B
ok a >>= f = f a
rejected e >>= f = rejected e

infixl 5 ◌>>◌
abbrev pub ◌>>◌ {κ} : {B : Type κ} → Checked (Unit {0}) → Checked B → Checked B
ok a >> r = r
rejected e >> r = rejected e

-- if not test: raise …(message)
abbrev pub require : Bool → String → Checked (Unit {0})
require true message = ok tt
require false message = rejected message

-- What a result that is not a refusal has passed.
pub require-eq-ok {κ} :
    {B : Type κ} (b : Bool) (message : String) (r : Checked B) {a : B}
    → require b message >> r ≡ ok a
    → (b ≡ true) × (r ≡ ok a)
require-eq-ok true message r h = (refl, h)
require-eq-ok false message r h = cc

pub bind-eq-ok {ℓ κ} :
    {A : Type ℓ} {B : Type κ} (r : Checked A) (f : A → Checked B) {b : B}
    → r >>= f ≡ ok b
    → (a : A) × (r ≡ ok a) × (f a ≡ ok b)
bind-eq-ok (ok a) f h = (a, refl, h)
bind-eq-ok (rejected m) f h = cc

pub ok-injective {ℓ} : {A : Type ℓ} (a b : A) → ok a ≡ ok b → a ≡ b
ok-injective a b h = cc

pub then-eq-ok {κ} :
    {B : Type κ} (r : Checked (Unit {0})) (q : Checked B) {b : B}
    → r >> q ≡ ok b
    → (r ≡ ok tt) × (q ≡ ok b)
then-eq-ok (ok u) q h = (refl, h)
then-eq-ok (rejected m) q h = cc
