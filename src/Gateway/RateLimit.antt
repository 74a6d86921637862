-- ===== src/Gateway/RateLimit.antt =====
-- src/pqc_bench/gateway/ratelimit.py: the token bucket and the manager of buckets.
--
-- The floats are exact scaled integers: a token is `unit` small units, a clock reading is a number
-- of ticks, and a rate is a number of small units per tick, so that elapsed * rate is exact.
-- Rounding is not modelled. Rates and capacities are not negative. Every call of `time.time()` is
-- an argument, and may go backwards.
pub mod Bucket
pub mod Burst
pub mod Manager
pub mod Retry
use post_quantum_cryptograph.Common.{
  ℕ, ◌*◌, String, Bool, true, false, not, ◌&&◌, ◌||◌, Option, none, some, List, [], ◌∷◌, ltb, ◌==◌,
  if◌then◌else◌,
}
use post_quantum_cryptograph.Common.Int.{ℤ, pos, ◌+ℤ◌, ◌-ℤ◌, sub_ℕ, ltb_ℤ, leb_ℤ}
use post_quantum_cryptograph.Common.Dict.{Dict, lookup, insert, contains}

pub record TokenBucket : Type 0 where
  pub capacity : ℕ
  pub refill_rate : ℕ
  pub tokens : ℤ
  pub last_refill : ℕ

-- min(a, b) and max(a, b)
abbrev pub min_ℤ : ℤ → ℤ → ℤ
min_ℤ a b = if leb_ℤ a b then a else b

abbrev pub max_ℤ : ℤ → ℤ → ℤ
max_ℤ a b = if leb_ℤ a b then b else a

-- (now - last) * rate, which is negative if the clock went back.
unfoldable pub gained : ℕ → ℕ → ℕ → ℤ
gained rate last now = sub_ℕ (now * rate) (last * rate)

-- min(capacity, tokens + elapsed * rate)
unfoldable pub refilled : TokenBucket → ℕ → ℤ
refilled b now = min_ℤ (pos b.capacity) (b.tokens +ℤ gained b.refill_rate b.last_refill now)

-- `TokenBucket.__init__`
abbrev pub new_bucket : ℕ → ℕ → ℕ → TokenBucket
new_bucket capacity refill_rate now = record {
  capacity = capacity;
  refill_rate = refill_rate;
  tokens = pos capacity;
  last_refill = now;
}

-- What a request costs, in small units, is `cost`.
unfoldable pub consume : ℕ → ℕ → TokenBucket → Bool × TokenBucket
consume cost now b =
    let tokens = refilled b now in
    if leb_ℤ (pos cost) tokens
    then (true, record b { tokens = tokens -ℤ pos cost; last_refill = now })
    else (false, record b { tokens = tokens; last_refill = now })

-- A limit is a rate and a capacity in whole tokens.
pub record Limit : Type 0 where
  pub rate : ℕ
  pub capacity : ℕ

pub record RateLimiterManager : Type 0 where
  pub default_limit : Limit
  pub buckets : Dict TokenBucket
  pub tenant_limits : Dict Limit
  pub ip_limits : Dict Limit

unfoldable pub set_tenant_limit : String → Limit → RateLimiterManager → RateLimiterManager
set_tenant_limit tenant_id limit m = record m {
  tenant_limits = insert tenant_id limit m.tenant_limits;
}

unfoldable pub set_ip_limit : String → Limit → RateLimiterManager → RateLimiterManager
set_ip_limit ip limit m = record m { ip_limits = insert ip limit m.ip_limits }

unfoldable pub reset : RateLimiterManager → RateLimiterManager
reset m = record m { buckets = []; tenant_limits = []; ip_limits = [] }

-- A fraction of ticks, for `needed / bucket.refill_rate`.
pub record Fraction : Type 0 where
  pub numerator : ℤ
  pub denominator : ℕ

pub record Verdict : Type 0 where
  pub allowed : Bool
  pub remaining : ℤ
  pub capacity : ℕ
  pub retry_after : Fraction

abbrev limit_or : Option Limit → Limit → Limit
limit_or none d = d
limit_or (some l) d = l

unfoldable pub custom_limit : String → Bool → RateLimiterManager → Option Limit
custom_limit identifier true m = lookup identifier m.tenant_limits
custom_limit identifier false m = lookup identifier m.ip_limits

-- needed / rate if the request was refused and the rate is positive, else 0.
retry_after : Bool → ℤ → ℕ → Fraction
retry_after allowed needed rate =
    if not allowed && ltb 0 rate
    then record { numerator = needed; denominator = rate }
    else record { numerator = pos 0; denominator = 1 }

module _ (unit : ℕ) where
  -- The two branches of `_get_or_create_bucket`.
  updated : Option Limit → TokenBucket → TokenBucket
  updated none b = b
  updated (some l) b =
      if not (b.refill_rate == l.rate) || not (b.capacity == l.capacity * unit)
      then record b {
        refill_rate = l.rate;
        capacity = l.capacity * unit;
        tokens = min_ℤ b.tokens (pos (l.capacity * unit));
      }
      else b

  abbrev bucket_or_new : Option TokenBucket → Option Limit → Limit → ℕ → TokenBucket
  bucket_or_new none custom d created =
      let l = limit_or custom d in new_bucket (l.capacity * unit) l.rate created
  bucket_or_new (some b) custom d created = updated custom b

  -- The bucket that `_get_or_create_bucket` returns, and stores under the key.
  unfoldable pub get_or_create_bucket : String → Option Limit → ℕ → RateLimiterManager → TokenBucket
  unfolding updated
  get_or_create_bucket key custom created m =
      bucket_or_new (lookup key m.buckets) custom m.default_limit created

  -- `check_rate_limit`, with the readings of the clock in a new bucket, in `consume` and in
  -- `get_info`.
  unfoldable pub check_rate_limit :
      String → Bool → ℕ → ℕ → ℕ → ℕ → RateLimiterManager → Verdict × RateLimiterManager
  unfolding retry_after
  check_rate_limit identifier is_tenant tokens created now later m =
      let custom = custom_limit identifier is_tenant m in
      let bucket = get_or_create_bucket identifier custom created m in
      let (allowed, after) = consume (tokens * unit) now bucket in
      let info_tokens = refilled after later in
      (
        record {
          allowed = allowed;
          remaining = max_ℤ (pos 0) info_tokens;
          capacity = after.capacity;
          retry_after = retry_after allowed (pos (tokens * unit) -ℤ info_tokens) after.refill_rate;
        },
        record m { buckets = insert identifier after m.buckets },
      )
