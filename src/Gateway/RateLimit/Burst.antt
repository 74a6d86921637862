-- ===== src/Gateway/RateLimit/Burst.antt =====
-- Any sequence of requests on one bucket (gateway/ratelimit.py, lines 16 to 27).
use post_quantum_cryptograph.Common.{
  ℕ, ◌+◌, ◌*◌, ◌-◌, ◌≤◌, ◌≡◌, refl, sym, subst, List, [], ◌∷◌, arith, if◌then◌else◌,
}
use post_quantum_cryptograph.Common.Int.{pos, ◌+ℤ◌, ◌≤ℤ◌, int_laws, +ℤ_parts}
use post_quantum_cryptograph.Gateway.RateLimit.{TokenBucket, consume, refilled, gained}
use post_quantum_cryptograph.Gateway.RateLimit.Bucket.{IsBucket, consume_lem}

-- Requests, each with the clock's reading and its cost: the sum of the costs granted.
unfoldable pub serve : List (ℕ × ℕ) → TokenBucket → ℕ × TokenBucket
serve [] b = (0, b)
serve ((now, cost) ∷ requests) b =
    let (allowed, b') = consume cost now b in
    let (granted, b'') = serve requests b' in ((if allowed then cost else 0) + granted, b'')

-- The clock does not go back.
abbrev pub Ordered : ℕ → List (ℕ × ℕ) → Type 0
Ordered last [] = Unit
Ordered last ((now, cost) ∷ requests) = (last ≤ now) × Ordered now requests

pub refilled_le :
    (b : TokenBucket) (now : ℕ)
    → refilled b now ≤ℤ b.tokens +ℤ gained b.refill_rate b.last_refill now
unfolding refilled
refilled_le b now = ground (arith, +ℤ_parts b.tokens (gained b.refill_rate b.last_refill now))

pub consume_le :
    (cost now : ℕ) (b : TokenBucket)
    → IsBucket b
    → b.last_refill ≤ now
    → let (allowed, b') = consume cost now b in
      pos (if allowed then cost else 0) +ℤ b'.tokens
      ≤ℤ b.tokens +ℤ gained b.refill_rate b.last_refill now
unfolding consume
consume_le cost now b v h = grind (int_laws, refilled_le b now)

pub gained_trans : (r a b c : ℕ) → gained r a b +ℤ gained r b c ≡ gained r a c
unfolding gained
gained_trans r a b c = grind int_laws

gained_self : (r a : ℕ) → gained r a a ≡ pos 0
unfolding gained
gained_self r a = ground arith

pub gained_elapsed : (r a b : ℕ) → a ≤ b → gained r a b ≡ pos ((b - a) * r)
unfolding gained
gained_elapsed r a b h =
    let k : a * r ≤ b * r = grind arith in
    let e : (b - a) * r + a * r ≡ b * r = grind arith in ground arith

serve_le :
    (requests : List (ℕ × ℕ)) (b : TokenBucket)
    → IsBucket b
    → Ordered b.last_refill requests
    → let (granted, b') = serve requests b in
      IsBucket b'
      × (b'.capacity ≡ b.capacity)
      × (b.last_refill ≤ b'.last_refill)
      × (pos granted +ℤ b'.tokens ≤ℤ b.tokens +ℤ gained b.refill_rate b.last_refill b'.last_refill)
unfolding serve
serve_le [] b v h =
    (v, refl, omega arith, grind (int_laws, gained_self b.refill_rate b.last_refill))
serve_le ((now, cost) ∷ requests) b v h =
    let b' = (consume cost now b).1 in
    let end = (serve requests b').1.last_refill in
    let (v', same_cap, same_rate, at_now, _, _, _) = consume_lem cost now b v h.0 in
    let ih = serve_le requests b' v' (subst (λ t. Ordered t requests) (sym at_now) h.1) in
    let step = consume_le cost now b v h.0 in
    let e : gained b'.refill_rate b'.last_refill end ≡ gained b.refill_rate now end = cc in
    (
      ih.0,
      cc (ih.1),
      omega (arith, ih.2, at_now, h.0),
      grind (int_laws, ih.3, step, e, gained_trans b.refill_rate b.last_refill now end),
    )

-- However the requests come, as long as the clock does not go back, the total cost that a bucket
-- grants is at most its capacity and what its rate refills in the time that passed.
pub burst_bound :
    (requests : List (ℕ × ℕ)) (b : TokenBucket)
    → IsBucket b
    → Ordered b.last_refill requests
    → let (granted, b') = serve requests b in
      granted ≤ b.capacity + (b'.last_refill - b.last_refill) * b.refill_rate
burst_bound requests b v h =
    let (v', _, later, le) = serve_le requests b v h in
    let elapsed = (serve requests b).1.last_refill - b.last_refill in
    grind (int_laws, le, v.bounded, v'.nonneg, gained_elapsed b.refill_rate b.last_refill _ later)
