-- ===== src/Executive/Order.antt =====
-- The gaps of a report are in strict order (executive_report.py, lines 88 to 97).
use post_quantum_cryptograph.Common.{
  ◌≡◌, refl, Bool, true, false, ◌||◌, ◌&&◌, not, List, [], ◌∷◌, arith, All,
}
use post_quantum_cryptograph.Common.Bytes.{Bytes, bytes_eq, bytes_eq_iff}
use post_quantum_cryptograph.Common.TextOrder.{less_text_trans, less_text_total}
use post_quantum_cryptograph.Common.Sorting.{IsStrict, IsDistinct, sort_by, sort_by-IsStrict}
use post_quantum_cryptograph.Executive.{less_pair, has_pair, all_different}

less_pair_trans :
    (p q r : Bytes × Bytes) → less_pair p q ≡ true → less_pair q r ≡ true → less_pair p r ≡ true
less_pair_trans p q r h g = ground (
  arith,
  bytes_eq_iff p.0 q.0,
  bytes_eq_iff q.0 r.0,
  bytes_eq_iff p.0 r.0,
  less_text_trans p.0 q.0 r.0,
  less_text_trans p.1 q.1 r.1,
)

less_pair_total :
    (p q : Bytes × Bytes)
    → (bytes_eq p.0 q.0 && bytes_eq p.1 q.1) ≡ false
    → less_pair q p ≡ false
    → less_pair p q ≡ true
less_pair_total p q h g = ground (
  arith,
  bytes_eq_iff p.0 q.0,
  bytes_eq_iff q.0 p.0,
  bytes_eq_iff p.1 q.1,
  less_text_total p.0 q.0,
  less_text_total p.1 q.1,
)

apart :
    (p : Bytes × Bytes) (qs : List (Bytes × Bytes))
    → has_pair p qs ≡ false
    → All (λ q. less_pair q p ≡ false → less_pair p q ≡ true) qs
unfolding has_pair
apart p [] h = tt
apart p (q ∷ qs) h =
    let (here, there) = parts (bytes_eq p.0 q.0 && bytes_eq p.1 q.1) (has_pair p qs) h in
    (less_pair_total p q here, apart p qs there)
  where
    parts : (a b : Bool) → (a || b) ≡ false → (a ≡ false) × (b ≡ false)
    parts false b h = (refl, h)
    parts true b h = cc

all_different-IsDistinct :
    (ps : List (Bytes × Bytes)) → all_different ps ≡ true → IsDistinct less_pair ps
unfolding all_different
all_different-IsDistinct [] h = tt
all_different-IsDistinct (p ∷ ps) h =
    let (fresh, rest) = parts (has_pair p ps) (all_different ps) h in
    (apart p ps fresh, all_different-IsDistinct ps rest)
  where
    parts : (a b : Bool) → (not a && b) ≡ true → (a ≡ false) × (b ≡ true)
    parts false b h = (refl, h)
    parts true b h = cc

pub sorted-IsStrict :
    (ps : List (Bytes × Bytes))
    → all_different ps ≡ true
    → IsStrict less_pair (sort_by less_pair ps)
sorted-IsStrict ps h = sort_by-IsStrict less_pair less_pair_trans ps (all_different-IsDistinct ps h)
