-- ===== src/Leaderboard/Order.antt =====
-- The order of the keys, and `sorted` (waveform_leaderboard.py, line 128).
use native.Mathlib.Nat.{mul-le-mul_right, le_of_mul-le-mul_right}
use post_quantum_cryptograph.Common.{ℕ, suc, ◌*◌, ◌≤◌, ◌≡◌, true, false, not, ◌&&◌, arith}
use post_quantum_cryptograph.Common.TextOrder.{less_text_asym, less_text_trans, less_text_total}
use post_quantum_cryptograph.Leaderboard.{Fraction, over, less, equal, Entry, before}

cross_trans :
    (m c n d k e : ℕ) → m * suc d ≤ n * suc c → n * suc e ≤ k * suc d → m * suc e ≤ k * suc c
cross_trans m c n d k e h g =
    let h' : m * suc d * suc e ≤ n * suc c * suc e = mul-le-mul_right (suc e) h in
    let g' : n * suc e * suc c ≤ k * suc d * suc c = mul-le-mul_right (suc c) g in
    le_of_mul-le-mul_right {k = suc d} (omega arith) (omega arith)

pub less_le_trans : (x y z : Fraction) → less y x ≡ false → less z y ≡ false → less z x ≡ false
less_le_trans (over m c) (over n d) (over k e) h g = ground (arith, cross_trans m c n d k e)

pub less_asym : (x y : Fraction) → less x y ≡ true → less y x ≡ false
less_asym (over m c) (over n d) h = ground arith

pub equal_iff : (x y : Fraction) → equal x y ≡ (not (less x y) && not (less y x))
equal_iff (over m c) (over n d) = ground arith

pub before_asym : (a b : Entry) → before a b ≡ true → before b a ≡ false
unfolding before
before_asym a b h = ground (
  arith,
  less_asym a.score b.score,
  less_asym b.score a.score,
  equal_iff a.score b.score,
  equal_iff b.score a.score,
  less_text_asym a.result.model_id b.result.model_id,
)

pub before_trans : (a b c : Entry) → before a b ≡ true → before b c ≡ true → before a c ≡ true
unfolding before
before_trans a b c h g = ground (
  arith,
  less_le_trans a.score b.score c.score,
  less_le_trans b.score c.score a.score,
  less_le_trans c.score a.score b.score,
  less_le_trans a.score c.score b.score,
  less_le_trans b.score a.score c.score,
  less_le_trans c.score b.score a.score,
  less_asym b.score a.score,
  less_asym c.score b.score,
  equal_iff a.score b.score,
  equal_iff b.score c.score,
  equal_iff a.score c.score,
  less_text_trans a.result.model_id b.result.model_id c.result.model_id,
)

pub before_total :
    (a b : Entry) → before a b ≡ false → before b a ≡ false → a.result.model_id ≡ b.result.model_id
unfolding before
before_total a b h g = ground (
  arith,
  less_asym a.score b.score,
  less_asym b.score a.score,
  equal_iff a.score b.score,
  equal_iff b.score a.score,
  less_text_total a.result.model_id b.result.model_id,
)
