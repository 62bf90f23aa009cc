-- ===== src/Proxy/Server/Ceiling.antt =====
-- internal/proxy/proxy.go: sequences of requests, and which of them the server serves.
pub mod Questions
pub mod Bound
use robotsyes.Base.{
  ℕ, suc, ◌+◌, ◌-◌, ◌*◌, ◌≤◌, ◌<◌, Bytes, Bool, true, false, not, ◌&&◌, Option, none, some, is_some,
  List, [], ◌∷◌, ◌≡◌, ◌∙◌, inl, inr, refl, ap, arith, All, all, length, equal, ◌==◌, Bool-cases,
  Option-cases, if◌then◌else◌,
}
use robotsyes.Base.Assoc
use robotsyes.Base.Int.{pos}
use robotsyes.Recency.Values.{find_key}
use robotsyes.Identity.{Tier, unverified, declared, verified, tier_name}
use robotsyes.Identity.Signed.{Clock}
use robotsyes.Config.{Config}
use robotsyes.Ratelimit
use robotsyes.Ratelimit.{Limiter, key_of, full_key, unit}
use robotsyes.Ratelimit.Laws.{IsValid, view, new-IsValid}
use robotsyes.Ratelimit.Isolation.{LacksBar}
use robotsyes.Ratelimit.Budget.{spent}
use robotsyes.Ratelimit.Rate
use robotsyes.Ratelimit.Rate.{bucket_key, granted, rate_bound}
use robotsyes.Proxy.Reply.{
  Answer, Gate, Incoming, Body, rate_limit_error, payment_challenge, Reply, respond, client_key,
}
use robotsyes.Proxy.Discovery.{Verifier}
use robotsyes.Proxy.Server.{
  Server, Web, new, limits_of, identify, serve_http, serve_identified, handle_rate_limited,
  answered, metrics_path,
}
use robotsyes.Proxy.Server.Paid.{
  payment_for, Denies, Settled, IsOverCeiling, serve_http_identified, over_ceiling_paid,
}

-- A request as it comes to the server, with what the network and the merchant answer at that time.
pub record Call (M Q : Type 0) : Type 0 where
  pub web : Web Q
  pub gate : Gate M
  pub clock : Clock
  pub now : ℕ
  pub incoming : Incoming

abbrev is_denial : Body → Bool
is_denial (rate_limit_error tier) = true
is_denial (payment_challenge ch) = true
is_denial body = false

-- The reply is neither the flat 429 nor a payment challenge.
abbrev pub is_served : Reply → Bool
is_served (respond status headers body) = not (is_denial body)
is_served reply = true

-- The merchant settles a payment for the request, without a challenge and without an error.
abbrev pub settles : Answer → Bool
settles a = is_some a.settlement && (not (is_some a.challenge) && not a.failed)

module _ {M Q : Type 0} where
  abbrev pub serve : Call M Q → Server M → Server M × Reply
  serve c s = serve_http c.web c.gate c.clock c.now c.incoming s

  -- What the limiter is asked about a request.
  abbrev pub asked : Call M Q → Server M → Rate.Request
  asked c s =
      let id = (identify c.web c.gate c.clock c.incoming s).1 in
      record {
        now = c.now;
        tier = tier_name id.tier;
        client = client_key c.web.platform.split_host_port c.incoming.request id;
      }

  abbrev pub is_metrics : Call M Q → Bool
  is_metrics c = equal c.incoming.request.path metrics_path

  -- what the merchant answers if it is asked
  abbrev pub pays : Call M Q → Server M → Bool
  pays c s = elim s.payments [
    | none ↦ false
    | some m ↦ settles (c.gate.require_payment (payment_for c.incoming.request) m).1
  ]

  abbrev pub of_bucket : Bytes → Call M Q → Server M → Bool
  of_bucket k c s = not (is_metrics c) && equal (bucket_key (asked c s)) k

  -- The limiter denies the request, and the merchant, which is asked then, settles its payment.
  abbrev pub buys : Call M Q → Server M → Bool
  buys c s = not (Rate.serve (asked c s) s.limiter).1 && pays c s

  -- How many requests of the bucket `k` are served, and how many of those that the limiter denies
  -- have their payment settled.
  unfoldable pub served : Bytes → List (Call M Q) → Server M → ℕ
  served k [] s = 0
  served k (c ∷ cs) s =
      spent (of_bucket k c s && is_served (serve c s).1) + served k cs (serve c s).0

  unfoldable pub paid : Bytes → List (Call M Q) → Server M → ℕ
  paid k [] s = 0
  paid k (c ∷ cs) s = spent (of_bucket k c s && buys c s) + paid k cs (serve c s).0

  abbrev pub InOrder : ℕ → List (Call M Q) → Type 0
  InOrder t [] = Unit
  InOrder t (c ∷ cs) = (t ≤ c.now) × InOrder c.now cs

  abbrev pub end_of : ℕ → List (Call M Q) → ℕ
  end_of t [] = t
  end_of t (c ∷ cs) = end_of c.now cs

  -- What the limiter is asked, one request after the other.
  unfoldable pub questions : List (Call M Q) → Server M → List Rate.Request
  questions [] s = []
  questions (c ∷ cs) s =
      let rest = questions cs (serve c s).0 in if is_metrics c then rest else asked c s ∷ rest
