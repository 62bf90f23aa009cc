-- ===== src/Tests/Limits.antt =====
-- internal/ratelimit at concrete inputs.
use robotsyes.Base.{
  ℕ, ◌+◌, ◌-◌, ◌*◌, ◌≤◌, Bytes, true, some, List, [], ◌∷◌, ◌≡◌, refl, codes, arith, equal,
}
use robotsyes.Base.Int.{pos}
use robotsyes.Recency.Values.{find_key}
use robotsyes.Ratelimit
use robotsyes.Ratelimit.{Limiter, Entry, key_of, full_key, allow, allow_key, unit}
use robotsyes.Ratelimit.Laws.{IsValid, view, new-IsValid}
use robotsyes.Ratelimit.Isolation.{Spares, allow-Spares}
use robotsyes.Ratelimit.Rate
use robotsyes.Ratelimit.Rate.{granted, last_time, rate_bound, waited_allowed}

abbrev tier : Bytes
tier = codes "unverified"

abbrev limiter : Limiter
limiter = Ratelimit.new ((tier, record { requests_per_minute = pos 2 }) ∷ []) (pos 10)

limiter-IsValid : IsValid limiter
limiter-IsValid = (new-IsValid ((tier, record { requests_per_minute = pos 2 }) ∷ []) (pos 10)).0

abbrev at : ℕ → Bytes → Rate.Request
at now client = record { now = now; tier = tier; client = client }

abbrev alice : Bytes
alice = codes "alice"

abbrev bob : Bytes
bob = codes "bob"

abbrev requests : List Rate.Request
requests = at 1 alice ∷ at 2 bob ∷ at 2 alice ∷ at 3 alice ∷ []

no_bar : Ratelimit.Isolation.LacksBar tier
no_bar = (
  λ e. omega arith,
  (
    λ e. omega arith,
    (
      λ e. omega arith,
      (
        λ e. omega arith,
        (
          λ e. omega arith,
          (
            λ e. omega arith,
            (λ e. omega arith, (λ e. omega arith, (λ e. omega arith, (λ e. omega arith, tt)))),
          ),
        ),
      ),
    ),
  ),
)

rate_bound_example :
    granted (full_key tier alice) requests limiter * unit
    ≤ 2 * unit + (last_time 0 requests - 0) * 2
unfolding robotsyes.Base.Assoc.get Ratelimit.new equal find_key robotsyes.Base.Int.positive_or
rate_bound_example =
    rate_bound 1 tier alice 0 requests limiter limiter-IsValid refl refl no_bar
      (no_bar, (no_bar, (no_bar, (no_bar, tt))))
      (omega arith, (omega arith, (omega arith, (omega arith, tt)))) (omega arith)

allow-Spares_example : Spares (full_key tier alice) limiter (allow 5 tier bob limiter).0
unfolding equal full_key
allow-Spares_example = allow-Spares (full_key tier alice) 5 tier bob limiter limiter-IsValid refl

no_bucket :
    (e : Entry)
    → find_key key_of (full_key tier alice) (view limiter) ≡ some e
    → unit ≤ (5 - e.bucket.last_refill) * 2
unfolding Ratelimit.new find_key
no_bucket e h = absurd (ground arith)

waited_allowed_example : (allow_key 2 5 (full_key tier alice) limiter).1 ≡ true
waited_allowed_example =
    waited_allowed 1 5 (full_key tier alice) limiter limiter-IsValid (λ e h. no_bucket e h)
