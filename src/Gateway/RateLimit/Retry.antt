-- ===== src/Gateway/RateLimit/Retry.antt =====
-- The `retry_after` of a refusal (gateway/ratelimit.py, lines 85 to 97) is long enough.
use post_quantum_cryptograph.Common.{
  ℕ, ◌*◌, ◌-◌, ◌≤◌, ◌<◌, ◌≡◌, refl, ap, subst, ◌∙◌, String, Bool, true, false, Option, none, some,
  arith,
}
use post_quantum_cryptograph.Common.Int.{pos, ◌-ℤ◌, ◌≤ℤ◌, int_laws}
use post_quantum_cryptograph.Common.Dict.{lookup, lookup-insert_self}
use post_quantum_cryptograph.Gateway.RateLimit.{
  TokenBucket, RateLimiterManager, Limit, consume, refilled, gained, custom_limit,
  get_or_create_bucket, check_rate_limit, Verdict, updated, bucket_or_new,
}
use post_quantum_cryptograph.Gateway.RateLimit.Bucket.{consume_lem}
use post_quantum_cryptograph.Gateway.RateLimit.Burst.{gained_trans, gained_elapsed}
use post_quantum_cryptograph.Gateway.RateLimit.Manager.{BucketAt, get_or_create_bucket-IsBucket}

-- What a bucket holds at one time, and what it gains until another, it holds then, up to its
-- capacity.
refilled_later :
    (b : TokenBucket) (cost later now : ℕ)
    → pos cost -ℤ refilled b later ≤ℤ gained b.refill_rate later now
    → cost ≤ b.capacity
    → pos cost ≤ℤ refilled b now
unfolding refilled
refilled_later b cost later now h fits =
    grind (int_laws, gained_trans b.refill_rate b.last_refill later now)

-- Consuming changes neither parameter, so the limit is not applied anew.
updated_again :
    (unit : ℕ) (o : Option TokenBucket) (custom : Option Limit) (d : Limit) (created cost now : ℕ)
    → let b = (consume cost now (bucket_or_new unit o custom d created)).1 in
      updated unit custom b ≡ b
unfolding consume updated
updated_again unit none none d created cost now = refl
updated_again unit (some b) none d created cost now = refl
updated_again unit none (some l) d created cost now = ground arith
updated_again unit (some b) (some l) d created cost now = ground arith

custom_limit-buckets :
    (identifier : String) (is_tenant : Bool) (m m' : RateLimiterManager)
    → m'.tenant_limits ≡ m.tenant_limits
    → m'.ip_limits ≡ m.ip_limits
    → custom_limit identifier is_tenant m' ≡ custom_limit identifier is_tenant m
unfolding custom_limit
custom_limit-buckets identifier true m m' h₁ h₂ = ap (lookup identifier) h₁
custom_limit-buckets identifier false m m' h₁ h₂ = ap (lookup identifier) h₂

allowed-check :
    (unit : ℕ) (identifier : String) (is_tenant : Bool) (m : RateLimiterManager)
    (tokens created now later : ℕ)
    → (check_rate_limit unit identifier is_tenant tokens created now later m).0.allowed
      ≡ (consume
          (tokens * unit)
          now
          (get_or_create_bucket unit identifier (custom_limit identifier is_tenant m) created m)).0
unfolding check_rate_limit
allowed-check unit identifier is_tenant m tokens created now later = refl

module _ (unit : ℕ) (identifier : String) (is_tenant : Bool) (m : RateLimiterManager) where
  -- The second of two checks finds the bucket that the first one stored.
  bucket_again :
      (tokens created now later created' : ℕ)
      → let m' = (check_rate_limit unit identifier is_tenant tokens created now later m).1 in
        let b =
          get_or_create_bucket unit identifier (custom_limit identifier is_tenant m) created m in
        get_or_create_bucket unit identifier (custom_limit identifier is_tenant m') created' m'
        ≡ (consume (tokens * unit) now b).1
  unfolding check_rate_limit get_or_create_bucket
  bucket_again tokens created now later created' =
      let m' = (check_rate_limit unit identifier is_tenant tokens created now later m).1 in
      rw (custom_limit-buckets identifier is_tenant m m' refl refl, lookup-insert_self)
        (updated_again unit (lookup identifier m.buckets) (custom_limit identifier is_tenant m)
          m.default_limit created (tokens * unit) now)

  -- The first of two checks, and the bucket that it consumed from.
  abbrev pub checked : ℕ → ℕ → ℕ → ℕ → Verdict × RateLimiterManager
  checked tokens created now later =
      check_rate_limit unit identifier is_tenant tokens created now later m

  abbrev pub used : ℕ → TokenBucket
  used created =
      get_or_create_bucket unit identifier (custom_limit identifier is_tenant m) created m

  second_allowed :
      (tokens created now later created' now' later' : ℕ)
      → (check_rate_limit unit identifier is_tenant tokens created' now' later'
          (checked tokens created now later).1).0.allowed
        ≡ (consume (tokens * unit) now' (consume (tokens * unit) now (used created)).1).0
  second_allowed tokens created now later created' now' later' =
      let m' = (checked tokens created now later).1 in
      allowed-check unit identifier is_tenant m' tokens created' now' later'
      ∙ ap (λ b. (consume (tokens * unit) now' b).0)
          (bucket_again tokens created now later created')

  -- What a refusal reports, in terms of the bucket that it left.
  reported :
      (tokens created now later : ℕ)
      → (checked tokens created now later).0.allowed ≡ false
      → 0 < (used created).refill_rate
      → let after = (consume (tokens * unit) now (used created)).1 in
        ((checked tokens created now later).0.retry_after.numerator
          ≡ pos (tokens * unit) -ℤ refilled after later)
        × ((checked tokens created now later).0.retry_after.denominator ≡ after.refill_rate)
        × ((checked tokens created now later).0.capacity ≡ after.capacity)
  unfolding check_rate_limit consume
  reported tokens created now later h r = ground arith

  -- Where the clock does not go back and the identifier's bucket, if it has one, is between empty
  -- and full: of a refused request the reported retry_after is the time after which the same
  -- request is granted, if no other comes between; a second check whose clock has moved on by at
  -- least that much allows it, provided that the rate is positive and that it costs no more than
  -- the capacity.
  pub retry_after_suffices :
      (tokens created now later created' now' later' : ℕ)
      → created ≤ now
      → now ≤ later
      → later ≤ now'
      → BucketAt (lookup identifier m.buckets) now
      → (checked tokens created now later).0.allowed ≡ false
      → 0 < (used created).refill_rate
      → tokens * unit ≤ (checked tokens created now later).0.capacity
      → (checked tokens created now later).0.retry_after.numerator
        ≤ℤ pos ((now' - later) * (checked tokens created now later).0.retry_after.denominator)
      → (check_rate_limit unit identifier is_tenant tokens created' now' later'
          (checked tokens created now later).1).0.allowed
        ≡ true
  retry_after_suffices tokens created now later created' now' later' h₁ h₂ h₃ v refused rate fits
        waited =
      let cost = tokens * unit in
      let b = used created in
      let after = (consume cost now b).1 in
      let (vb, hb) = get_or_create_bucket-IsBucket unit identifier is_tenant m created now h₁ v in
      let (va, _, same_rate, at_now, _, _, _) = consume_lem cost now b vb hb in
      let (num, den, cap) = reported tokens created now later refused rate in
      let enough : pos cost ≤ℤ refilled after now' =
        refilled_later after cost later now'
          (rw (gained_elapsed after.refill_rate later now' h₃) (
            subst (λ n. n ≤ℤ pos ((now' - later) * after.refill_rate)) num
              (subst
                (λ d.
                  (checked tokens created now later).0.retry_after.numerator
                  ≤ℤ pos ((now' - later) * d))
                den waited)))
          (omega (arith, fits, cap)) in
      let (_, _, _, _, iff, _, _) =
        consume_lem cost now' after va (omega (arith, at_now, h₂, h₃)) in
      second_allowed tokens created now later created' now' later' ∙ iff.1 enough
