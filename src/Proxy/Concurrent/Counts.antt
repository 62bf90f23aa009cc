-- ===== src/Proxy/Concurrent/Counts.antt =====
-- What each record of an event adds to the counters of the server.
use robotsyes.Base.{ℕ, ◌+◌, ◌%◌, ◌≡◌, arith}
use robotsyes.Base.Int.{two_64}
use robotsyes.Metrics.{Counter, inc}
use robotsyes.Identity.{Tier, unverified, declared, verified}
use robotsyes.Proxy.Metrics.{
  ServerMetrics, ByTier, counter, inc_tier, new_server_metrics, record_request, record_denied,
  record_payment_challenged, record_payment_settled,
}
use robotsyes.Proxy.Concurrent.Tally.{same}

-- The counter `c'` counts `k` more than `c`.
abbrev Adds : Counter → Counter → ℕ → Type 0
Adds c c' k = (n n' : ℕ) → c.bits ≡ n % two_64 → n' ≡ n + k → c'.bits ≡ n' % two_64

inc_tier-Adds :
    (t t' : Tier) (m : ByTier) → Adds (counter t m) (counter t (inc_tier t' m)) (same t t')
unfolding counter inc_tier inc
inc_tier-Adds unverified unverified m n n' h e = omega arith
inc_tier-Adds unverified declared m n n' h e = omega arith
inc_tier-Adds unverified verified m n n' h e = omega arith
inc_tier-Adds declared unverified m n n' h e = omega arith
inc_tier-Adds declared declared m n n' h e = omega arith
inc_tier-Adds declared verified m n n' h e = omega arith
inc_tier-Adds verified unverified m n n' h e = omega arith
inc_tier-Adds verified declared m n n' h e = omega arith
inc_tier-Adds verified verified m n n' h e = omega arith

inc-Adds : (c : Counter) → Adds c (inc c) 1
unfolding inc
inc-Adds c n n' h e = omega arith

Adds-nothing : (c : Counter) → Adds c c 0
Adds-nothing c n n' h e = omega arith

pub nothing_counted :
    (t : Tier) (n : ℕ) → n ≡ 0 → (counter t new_server_metrics.requests_by_tier).bits ≡ n % two_64
unfolding counter new_server_metrics
nothing_counted unverified n h = omega arith
nothing_counted declared n h = omega arith
nothing_counted verified n h = omega arith

-- By how much the counters grow.
pub record Counts (m m' : ServerMetrics) (g d : Tier → ℕ) (c s : ℕ) : Type 0 where
  pub of_requests :
      (t : Tier) → Adds (counter t m.requests_by_tier) (counter t m'.requests_by_tier) (g t)
  pub of_denials :
      (t : Tier) → Adds (counter t m.denied_by_tier) (counter t m'.denied_by_tier) (d t)
  pub of_challenges : Adds m.x402_challenged m'.x402_challenged c
  pub of_settlements : Adds m.x402_settled m'.x402_settled s

abbrev pub no_tier : Tier → ℕ
no_tier t = 0

pub Counts-nothing : (m : ServerMetrics) → Counts m m no_tier no_tier 0 0
Counts-nothing m = record {
  of_requests = λ t. Adds-nothing _;
  of_denials = λ t. Adds-nothing _;
  of_challenges = Adds-nothing _;
  of_settlements = Adds-nothing _;
}

pub record_request-Counts :
    (tier : Tier) (m : ServerMetrics)
    → Counts m (record_request tier m) (λ t. same t tier) no_tier 0 0
unfolding record_request
record_request-Counts tier m = record {
  of_requests = λ t. inc_tier-Adds t tier m.requests_by_tier;
  of_denials = λ t. Adds-nothing _;
  of_challenges = Adds-nothing _;
  of_settlements = Adds-nothing _;
}

pub record_denied-Counts :
    (tier : Tier) (m : ServerMetrics)
    → Counts m (record_denied tier m) no_tier (λ t. same t tier) 0 0
unfolding record_denied
record_denied-Counts tier m = record {
  of_requests = λ t. Adds-nothing _;
  of_denials = λ t. inc_tier-Adds t tier m.denied_by_tier;
  of_challenges = Adds-nothing _;
  of_settlements = Adds-nothing _;
}

pub record_payment_challenged-Counts :
    (m : ServerMetrics) → Counts m (record_payment_challenged m) no_tier no_tier 1 0
unfolding record_payment_challenged
record_payment_challenged-Counts m = record {
  of_requests = λ t. Adds-nothing _;
  of_denials = λ t. Adds-nothing _;
  of_challenges = inc-Adds m.x402_challenged;
  of_settlements = Adds-nothing _;
}

pub record_payment_settled-Counts :
    (m : ServerMetrics) → Counts m (record_payment_settled m) no_tier no_tier 0 1
unfolding record_payment_settled
record_payment_settled-Counts m = record {
  of_requests = λ t. Adds-nothing _;
  of_denials = λ t. Adds-nothing _;
  of_challenges = Adds-nothing _;
  of_settlements = inc-Adds m.x402_settled;
}
