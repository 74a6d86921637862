-- ===== src/Common/Bytes.antt =====
-- Python's `bytes`: lists of numbers below 256, big-endian integers, slices and comparison.
use Prim.Native.Char.{code}
use post_quantum_cryptograph.Common.{
  ℕ, ◌+◌, ◌-◌, ◌*◌, ◌/◌, ◌%◌, ◌<◌, ◌≡◌, refl, ◌↔◌, String, Bool, true, false, ◌&&◌, ◌||◌, List, [],
  ◌∷◌, arith, ltb, ◌==◌, take, drop, All, length, if◌then◌else◌,
}

abbrev pub Bytes : Type 0
Bytes = List ℕ

-- Every element is a byte.
abbrev pub AreBytes : Bytes → Type 0
AreBytes = All (λ b. b < 256)

-- The bytes of an ASCII text.
abbrev pub ascii : String → Bytes
ascii String.[] = []
ascii (String.◌∷◌ c s) = code c ∷ ascii s

-- xs[a:b]
abbrev pub slice : ℕ → ℕ → Bytes → Bytes
slice a b xs = take (b - a) (drop a xs)

-- n.to_bytes(2, "big") and n.to_bytes(3, "big"), for numbers that fit.
abbrev pub to_bytes2 : ℕ → Bytes
to_bytes2 n = n / 256 % 256 ∷ n % 256 ∷ []

abbrev pub to_bytes3 : ℕ → Bytes
to_bytes3 n = n / 65536 % 256 ∷ n / 256 % 256 ∷ n % 256 ∷ []

-- int.from_bytes(xs, "big")
unfoldable pub from_bytes_acc : ℕ → Bytes → ℕ
from_bytes_acc acc [] = acc
from_bytes_acc acc (b ∷ xs) = from_bytes_acc (acc * 256 + b) xs

unfoldable pub from_bytes : Bytes → ℕ
unfolding from_bytes_acc
from_bytes = from_bytes_acc 0

pub from_bytes-to_bytes2 : (n : ℕ) → n < 65536 → from_bytes (to_bytes2 n) ≡ n
unfolding from_bytes
from_bytes-to_bytes2 n h = omega arith

pub from_bytes-to_bytes3 : (n : ℕ) → n < 16777216 → from_bytes (to_bytes3 n) ≡ n
unfolding from_bytes
from_bytes-to_bytes3 n h = omega arith

-- hmac.compare_digest(a, b) and a == b on bytes.
unfoldable pub bytes_eq : Bytes → Bytes → Bool
bytes_eq [] [] = true
bytes_eq [] (b ∷ ys) = false
bytes_eq (a ∷ xs) [] = false
bytes_eq (a ∷ xs) (b ∷ ys) = a == b && bytes_eq xs ys

pub bytes_eq_iff : (xs ys : Bytes) → (bytes_eq xs ys ≡ true) ↔ (xs ≡ ys)
unfolding bytes_eq
bytes_eq_iff [] [] = (λ _. refl, λ _. refl)
bytes_eq_iff [] (b ∷ ys) = (λ h. cc, λ h. cc)
bytes_eq_iff (a ∷ xs) [] = (λ h. cc, λ h. cc)
bytes_eq_iff (a ∷ xs) (b ∷ ys) = ground (arith, bytes_eq_iff xs ys)

pub bytes_eq_refl : (xs : Bytes) → bytes_eq xs xs ≡ true
bytes_eq_refl xs = (bytes_eq_iff xs xs).1 refl

-- `s < t` on texts: the order of the codes.
unfoldable pub less_text : Bytes → Bytes → Bool
less_text s [] = false
less_text [] (d ∷ t) = true
less_text (c ∷ s) (d ∷ t) = ltb c d || (c == d && less_text s t)

-- `n in t` on texts: n is the start of t or of a part of t that reaches its end.
unfoldable pub starts_with : Bytes → Bytes → Bool
starts_with [] t = true
starts_with (c ∷ n) [] = false
starts_with (c ∷ n) (d ∷ t) = c == d && starts_with n t

unfoldable pub has_text : Bytes → Bytes → Bool
has_text n [] = starts_with n []
has_text n (d ∷ t) = starts_with n (d ∷ t) || has_text n t

-- text.split(separator)
abbrev pub onto_first : ℕ → List Bytes → List Bytes
onto_first c [] = (c ∷ []) ∷ []
onto_first c (p ∷ ps) = (c ∷ p) ∷ ps

unfoldable pub split_on : ℕ → Bytes → List Bytes
split_on s [] = [] ∷ []
split_on s (c ∷ cs) = if c == s then [] ∷ split_on s cs else onto_first c (split_on s cs)

pub to_bytes2-from_bytes :
    (xs : Bytes) → AreBytes xs → length xs ≡ 2 → to_bytes2 (from_bytes xs) ≡ xs
unfolding from_bytes
to_bytes2-from_bytes [] h e = absurd (omega arith)
to_bytes2-from_bytes (a ∷ []) h e = absurd (omega arith)
to_bytes2-from_bytes (a ∷ b ∷ []) h e = ground arith
to_bytes2-from_bytes (a ∷ b ∷ c ∷ xs) h e = absurd (omega arith)

pub to_bytes3-from_bytes :
    (a b c : ℕ)
    → a < 256
    → b < 256
    → c < 256
    → to_bytes3 (from_bytes (a ∷ b ∷ c ∷ [])) ≡ a ∷ b ∷ c ∷ []
unfolding from_bytes
to_bytes3-from_bytes a b c ha hb hc = ground arith
