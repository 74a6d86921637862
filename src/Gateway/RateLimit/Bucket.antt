-- ===== src/Gateway/RateLimit/Bucket.antt =====
-- One call of `TokenBucket.consume` (gateway/ratelimit.py, lines 16 to 27).
use post_quantum_cryptograph.Common.{ℕ, ◌*◌, ◌≤◌, ◌≡◌, ◌↔◌, true, false, arith}
use post_quantum_cryptograph.Common.Int.{pos, ◌+ℤ◌, ◌≤ℤ◌, int_laws, +ℤ_parts}
use post_quantum_cryptograph.Gateway.RateLimit.{TokenBucket, consume, refilled, gained}

-- No more tokens than the bucket holds, and none owed.
pub record IsBucket (b : TokenBucket) : Type 0 where
  pub nonneg : pos 0 ≤ℤ b.tokens
  pub bounded : b.tokens ≤ℤ pos b.capacity

gained_nonneg : (rate last now : ℕ) → last ≤ now → pos 0 ≤ℤ gained rate last now
unfolding gained
gained_nonneg rate last now h = let k : last * rate ≤ now * rate = grind arith in ground arith

pub refilled_bounds :
    (b : TokenBucket) (now : ℕ)
    → IsBucket b
    → b.last_refill ≤ now
    → (b.tokens ≤ℤ refilled b now) × (refilled b now ≤ℤ pos b.capacity)
unfolding refilled
refilled_bounds b now v h = ground (
  arith,
  gained_nonneg b.refill_rate b.last_refill now h,
  +ℤ_parts b.tokens (gained b.refill_rate b.last_refill now),
)

-- A call at a clock that has not gone back keeps the bucket between empty and full, changes neither
-- its capacity nor its rate, and grants the request exactly if the refilled bucket holds its cost,
-- which is then taken out, and nothing else.
pub consume_lem :
    (cost now : ℕ) (b : TokenBucket)
    → IsBucket b
    → b.last_refill ≤ now
    → let (allowed, b') = consume cost now b in
      IsBucket b'
      × (b'.capacity ≡ b.capacity)
      × (b'.refill_rate ≡ b.refill_rate)
      × (b'.last_refill ≡ now)
      × ((allowed ≡ true) ↔ (pos cost ≤ℤ refilled b now))
      × (allowed ≡ true → b'.tokens +ℤ pos cost ≡ refilled b now)
      × (allowed ≡ false → b'.tokens ≡ refilled b now)
unfolding consume
consume_lem cost now b v h = grind (int_laws, refilled_bounds b now v h)
