-- ===== src/Ratelimit.antt =====
-- internal/ratelimit/ratelimit.go: token buckets by tier and key, at most `max_entries` of them.
-- Tokens are exact here: a token is `unit` parts, so that one nanosecond refills
-- `requests_per_minute` parts. The rounding of the source's float64 is not modelled. A call reads
-- the clock, which is the argument `now`, in nanoseconds of the monotonic clock.
pub mod Laws
pub mod Budget
pub mod Rate
pub mod Isolation
use Prim.Native.Nat.{min}
use robotsyes.Base.{
  ℕ, suc, zero, ◌+◌, ◌-◌, ◌*◌, Bytes, Bool, true, false, none, some, ◌∷◌, ◌++◌, length, ltb,
  if◌then◌else◌,
}
use robotsyes.Base.Assoc
use robotsyes.Base.Assoc.{Assoc}
use robotsyes.Base.Int.{ℤ, pos, negsuc, positive_or}
use robotsyes.Recency
use robotsyes.Recency.{Recency, fresh, element, move_to_front, set_value, push, evict_over}

abbrev pub default_max_entries : ℕ
default_max_entries = 100000

-- the parts of a token: the nanoseconds of a minute
abbrev pub unit : ℕ
unit = 60_000_000_000

pub record Limit : Type 0 where
  pub requests_per_minute : ℤ

pub record Bucket : Type 0 where
  pub tokens : ℕ
  pub last_refill : ℕ

pub record Entry : Type 0 where
  pub key : Bytes
  pub bucket : Bucket

pub record Limiter : Type 0 where
  pub limits : Assoc Limit
  pub max_entries : ℕ
  pub buckets : Recency Entry

abbrev pub key_of : Entry → Bytes
key_of e = e.key

-- `New`
unfoldable pub new : Assoc Limit → ℤ → Limiter
new limits max_entries = record {
  limits = limits;
  max_entries = positive_or max_entries default_max_entries;
  buckets = fresh;
}

unfoldable pub published : Limiter → Assoc Limit
published l = l.limits

unfoldable pub full_key : Bytes → Bytes → Bytes
full_key tier key = tier ++ (b'|' ∷ key)

-- a bucket that is made by its first request
unfoldable pub first_bucket : ℕ → ℕ → Bucket
first_bucket rpm now = record { tokens = rpm * unit - unit; last_refill = now }

unfoldable pub refill : ℕ → ℕ → Bucket → ℕ
refill rpm now b = min (b.tokens + (now - b.last_refill) * rpm) (rpm * unit)

-- the request of a known bucket
unfoldable pub take_token : ℕ → ℕ → Bucket → Bucket × Bool
unfolding refill
take_token rpm now b =
    let tokens = refill rpm now b in
    if ltb tokens unit
    then (record { tokens = tokens; last_refill = now }, false)
    else (record { tokens = tokens - unit; last_refill = now }, true)

-- `Allow` for a tier with the positive ceiling `rpm`
unfoldable pub allow_key : ℕ → ℕ → Bytes → Limiter → Limiter × Bool
allow_key rpm now k l = elim (element k l.buckets) [
  | none ↦
      let entry : Entry = record { key = k; bucket = first_bucket rpm now } in
      (record l { buckets = evict_over key_of l.max_entries (push k entry l.buckets) }, true)
  | some (el, entry) ↦
      let order = move_to_front el l.buckets.order in
      let entry' = record entry { bucket = (take_token rpm now entry.bucket).0 } in
      (
        record l { buckets = record (l.buckets) { order = set_value el entry' order } },
        (take_token rpm now entry.bucket).1,
      )
]

unfoldable pub allow_limit : ℤ → ℕ → Bytes → Limiter → Limiter × Bool
allow_limit (pos zero) now k l = (l, false)
allow_limit (pos (suc r)) now k l = allow_key (suc r) now k l
allow_limit (negsuc n) now k l = (l, false)

unfoldable pub allow : ℕ → Bytes → Bytes → Limiter → Limiter × Bool
allow now tier key l = elim (Assoc.get tier l.limits) [
  | none ↦ (l, false)
  | some lim ↦ allow_limit lim.requests_per_minute now (full_key tier key) l
]

unfoldable pub remove_element : Recency.Element Entry → Recency Entry → Recency Entry
remove_element = Recency.remove_element key_of

unfoldable pub len : Limiter → ℕ
len l = length l.buckets.order
