-- ===== src/Proxy/Concurrent/Tally.antt =====
-- The counters of the server beside the numbers of requests that they count.
use robotsyes.Base.{ℕ, ◌%◌, List, ◌≡◌, sum_by}
use robotsyes.Base.Int.{two_64}
use robotsyes.Identity.{Tier, unverified, declared, verified}
use robotsyes.Proxy.Metrics.{ServerMetrics, counter}
use robotsyes.Proxy.Reply.{Body, rate_limit_error, payment_challenge, Reply, respond}
use robotsyes.Proxy.Concurrent.{
  Phase, arrived, identified, admitted, refused, paid, measured, turned_away, served, sold, Thread,
}

-- one if the tiers are the same, and otherwise zero
abbrev pub same : Tier → Tier → ℕ
same unverified unverified = 1
same declared declared = 1
same verified verified = 1
same t t' = 0

abbrev pub flat : Tier → Body → ℕ
flat t (rate_limit_error tier) = same t tier
flat t body = 0

abbrev challenging : Body → ℕ
challenging (payment_challenge ch) = 1
challenging body = 0

-- whether the reply is the flat 429 for a request of the tier
abbrev is_flat : Tier → Reply → ℕ
is_flat t (respond status headers body) = flat t body
is_flat t reply = 0

-- whether the reply is a payment challenge
abbrev is_challenge : Reply → ℕ
is_challenge (respond status headers body) = challenging body
is_challenge reply = 0

-- whether a request was granted the tier
abbrev pub granted : Tier → Phase → ℕ
granted t arrived = 0
granted t (measured reply) = 0
granted t (identified id) = same t id.tier
granted t (admitted id) = same t id.tier
granted t (refused id) = same t id.tier
granted t (paid id) = same t id.tier
granted t (turned_away id reply) = same t id.tier
granted t (served id reply) = same t id.tier
granted t (sold id reply) = same t id.tier

-- whether a request of the tier was answered with the flat 429
abbrev pub denied : Tier → Phase → ℕ
denied t (turned_away id reply) = is_flat t reply
denied t phase = 0

abbrev pub challenged : Phase → ℕ
challenged (turned_away id reply) = is_challenge reply
challenged phase = 0

abbrev pub settled : Phase → ℕ
settled (paid id) = 1
settled (sold id reply) = 1
settled phase = 0

module _ {M Q : Type 0} where
  abbrev pub how_many : (Phase → ℕ) → List (Thread M Q) → ℕ
  how_many w ths = sum_by (λ th. w th.phase) ths

  -- Each counter is the number of the requests that it counts, in 64 bits.
  pub record Tallies (m : ServerMetrics) (ths : List (Thread M Q)) : Type 0 where
    pub requests :
        (t : Tier) → (counter t m.requests_by_tier).bits ≡ how_many (granted t) ths % two_64
    pub denials : (t : Tier) → (counter t m.denied_by_tier).bits ≡ how_many (denied t) ths % two_64
    pub challenges : m.x402_challenged.bits ≡ how_many challenged ths % two_64
    pub settlements : m.x402_settled.bits ≡ how_many settled ths % two_64
