-- ===== src/Gateway/RateLimit/Manager.antt =====
-- `RateLimiterManager.check_rate_limit` (gateway/ratelimit.py, lines 40 to 102).
use text.Mathlib.TextEquality.{eq_iff}
use post_quantum_cryptograph.Common.{
  ℕ, ◌*◌, ◌≤◌, ◌<◌, ◌≡◌, ◌≢◌, refl, String, Bool, false, Option, none, some, arith,
}
use post_quantum_cryptograph.Common.Int.{pos, ◌≤ℤ◌}
use post_quantum_cryptograph.Common.Dict.{lookup, lookup-insert, lookup-insert_self}
use post_quantum_cryptograph.Gateway.RateLimit.{
  TokenBucket, RateLimiterManager, Limit, consume, custom_limit, get_or_create_bucket,
  check_rate_limit,
}
use post_quantum_cryptograph.Gateway.RateLimit.Bucket.{IsBucket, consume_lem, refilled_bounds}

-- The limit that a check goes by.
abbrev pub limit_for : Option Limit → Limit → Limit
limit_for none d = d
limit_for (some l) d = l

abbrev pub BucketAt : Option TokenBucket → ℕ → Type 0
BucketAt none now = Unit
BucketAt (some b) now = IsBucket b × (b.last_refill ≤ now)

module _ (unit : ℕ) (identifier : String) (is_tenant : Bool) (m : RateLimiterManager) where
  -- The bucket that a check uses holds no more than its capacity, owes nothing, and has not been
  -- refilled in the future; it has the capacity and the rate of the custom limit, if there is one.
  pub get_or_create_bucket-IsBucket :
      (created now : ℕ)
      → created ≤ now
      → BucketAt (lookup identifier m.buckets) now
      → let b =
          get_or_create_bucket unit identifier (custom_limit identifier is_tenant m) created m in
        IsBucket b × (b.last_refill ≤ now)
  unfolding get_or_create_bucket
  get_or_create_bucket-IsBucket created now h v = ground arith

  -- A check decides by the limit that is registered for the identifier, of a tenant or of an
  -- address as the flag says: with a custom limit the bucket has its rate and capacity.
  pub custom_limit_applies :
      (created : ℕ) (l : Limit)
      → custom_limit identifier is_tenant m ≡ some l
      → let b = get_or_create_bucket unit identifier (some l) created m in
        (b.capacity ≡ l.capacity * unit) × (b.refill_rate ≡ l.rate)
  unfolding get_or_create_bucket
  custom_limit_applies created l h = ground arith

  -- Where the clock does not go back and the identifier's bucket, if it has one, is between empty
  -- and full: a check leaves the limits and the buckets of all other identifiers as they were, and
  -- stores for its own a bucket between empty and full; a request that costs more than the capacity
  -- is refused.
  pub check_rate_limit_lem :
      (tokens created now later : ℕ)
      → created ≤ now
      → now ≤ later
      → BucketAt (lookup identifier m.buckets) now
      → let (verdict, m') = check_rate_limit unit identifier is_tenant tokens created now later m in
        ((other : String) → other ≢ identifier → lookup other m'.buckets ≡ lookup other m.buckets)
        × BucketAt (lookup identifier m'.buckets) later
        × (m'.tenant_limits ≡ m.tenant_limits)
        × (m'.ip_limits ≡ m.ip_limits)
        × (pos 0 ≤ℤ verdict.remaining)
        × (verdict.remaining ≤ℤ pos verdict.capacity)
        × (verdict.capacity < tokens * unit → verdict.allowed ≡ false)
  unfolding check_rate_limit
  check_rate_limit_lem tokens created now later h₁ h₂ v =
      let b =
        get_or_create_bucket unit identifier (custom_limit identifier is_tenant m) created m in
      let (vb, hb) = get_or_create_bucket-IsBucket created now h₁ v in
      let after = (consume (tokens * unit) now b).1 in
      let (va, cap, _, at_now, iff, _, _) = consume_lem (tokens * unit) now b vb hb in
      let (lo, hi) = refilled_bounds after later va (omega (arith, at_now, h₂)) in
      let (_, full) = refilled_bounds b now vb hb in
      (
        λ other ne.
            ground (arith, lookup-insert identifier other after m.buckets, eq_iff identifier other),
        rw lookup-insert_self (va, omega (arith, at_now, h₂)),
        refl,
        refl,
        ground (arith, lo, hi, va.nonneg),
        ground (arith, lo, hi, va.nonneg),
        λ over. ground (arith, iff, full, cap),
      )
