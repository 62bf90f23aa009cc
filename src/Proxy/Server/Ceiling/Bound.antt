-- ===== src/Proxy/Server/Ceiling/Bound.antt =====
-- The published ceiling, over every sequence of requests that the server handles.
use robotsyes.Base.{
  ℕ, suc, ◌+◌, ◌-◌, ◌*◌, ◌≤◌, ◌<◌, Bytes, Bool, true, false, ◌&&◌, Option, none, some, List, [],
  ◌∷◌, ◌≡◌, inl, inr, refl, ap, arith, length, equal, Bool-cases, Option-cases,
}
use robotsyes.Base.Assoc
use robotsyes.Base.Assoc.{Assoc}
use robotsyes.Base.Int.{ℤ, pos, positive_or}
use robotsyes.Recency.Values.{find_key}
use robotsyes.Identity.{Tier, tier_name}
use robotsyes.Config.{Config}
use robotsyes.Ratelimit
use robotsyes.Ratelimit.{Limiter, key_of, full_key, unit}
use robotsyes.Ratelimit.Laws.{IsValid, view, new-IsValid}
use robotsyes.Ratelimit.Budget.{spent}
use robotsyes.Ratelimit.Rate
use robotsyes.Ratelimit.Rate.{bucket_key, granted, rate_bound}
use robotsyes.Proxy.Reply.{
  Answer, Gate, Incoming, Body, rate_limit_error, payment_challenge, Reply, respond, client_key,
}
use robotsyes.Proxy.Discovery.{Verifier}
use robotsyes.Proxy.Server.{
  Server, new, limits_of, identify, serve_http, serve_identified, handle_rate_limited, answered,
}
use robotsyes.Proxy.Server.Paid.{Denies, Settled, serve_http_identified, over_ceiling_paid}
use robotsyes.Proxy.Server.Ceiling.{
  Call, is_served, serve, asked, is_metrics, pays, buys, served, paid, InOrder, end_of, questions,
}
use robotsyes.Identity.{Identity, Request}
use robotsyes.Proxy.Server.Paid.{limited}
use robotsyes.Proxy.Server.Ceiling.Questions.{
  length-questions-le, questions-LacksBar, questions-Ordered, last_time-le-end_of,
  tier_name-LacksBar,
}

Denies-unserved : (tier : Tier) (reply : Reply) → Denies tier reply → is_served reply ≡ false
unfolding robotsyes.Proxy.Reply.rate_limited
Denies-unserved tier reply (inl flat) = rw flat refl
Denies-unserved tier reply (inr (ch, challenged)) = rw challenged refl

spent-le-one : (t : Bool) → spent t ≤ 1
spent-le-one true = omega arith
spent-le-one false = omega arith

spent-le :
    (mine free payment serving : Bool)
    → spent serving ≤ spent free + spent payment
    → spent (mine && serving) ≤ spent (mine && free) + spent (mine && payment)
spent-le true free payment serving h = h
spent-le false free payment serving h = omega arith

last_times : (t e : ℕ) (t₀ rpm : ℕ) → t ≤ e → (t - t₀) * rpm ≤ (e - t₀) * rpm
last_times t e t₀ rpm le = grind arith

get-limits_of :
    (tier : Bytes) (limits : Assoc ℤ) (rpm : ℤ)
    → Assoc.get tier limits ≡ some rpm
    → Assoc.get tier (limits_of limits) ≡ some (record { requests_per_minute = rpm })
unfolding limits_of Assoc.get
get-limits_of tier [] rpm h = absurd (ground arith)
get-limits_of tier ((t, n) ∷ limits) rpm h = ground (arith, get-limits_of tier limits rpm)

-- The limiter of a new server has no bucket yet.
pub record IsFresh (tier : Bytes) (rpm : ℤ) (l : Limiter) : Type 0 where
  pub valid : IsValid l
  pub known : Assoc.get tier l.limits ≡ some (record { requests_per_minute = rpm })
  pub empty : (k : Bytes) → find_key key_of k (view l) ≡ none
  pub room : l.max_entries ≡ Ratelimit.default_max_entries

pub new-IsFresh :
    (tier : Bytes) (limits : Assoc ℤ) (rpm : ℤ)
    → Assoc.get tier limits ≡ some rpm
    → IsFresh tier rpm (Ratelimit.new (limits_of limits) (pos Ratelimit.default_max_entries))
unfolding Ratelimit.new find_key positive_or
new-IsFresh tier limits rpm known =
    let (valid, empty) = new-IsValid (limits_of limits) (pos Ratelimit.default_max_entries) in
    record {
      valid = valid;
      known = get-limits_of tier limits rpm known;
      empty = λ k. ap (find_key key_of k) empty;
      room = refl;
    }

module _ {M : Type 0} where
  answered-limiter :
      (tier : Tier) (a : Answer) (s : Server M) → (answered tier a s).0.limiter ≡ s.limiter
  unfolding answered
  answered-limiter tier a s = ground arith

  pub handle_rate_limited-limiter :
      (gate : Gate M) (r : Request) (tier : Tier) (s : Server M)
      → (handle_rate_limited gate r tier s).0.limiter ≡ s.limiter
  unfolding handle_rate_limited
  handle_rate_limited-limiter gate r tier s = elim (Option-cases s.payments) [
    | inl off ↦ rw (off, handle_rate_limited) refl
    | inr (merchant, on) ↦ rw (on, handle_rate_limited) (answered-limiter tier _ _)
  ]

module _ {M Q : Type 0} where
  serve_identified-limiter :
      (c : Call M Q) (id : Identity) (s : Server M)
      → (serve_identified c.web c.gate c.now c.incoming id s).0.limiter
        ≡ (limited c.web c.gate c.now c.incoming id s).limiter
  unfolding serve_identified
  serve_identified-limiter c id s =
      elim (Bool-cases
        (Ratelimit.allow c.now (tier_name id.tier)
          (client_key c.web.platform.split_host_port c.incoming.request id) s.limiter).1) [
            | inl free ↦ rw (free, serve_identified) refl
            | inr over ↦
                rw (over, serve_identified)
                  (handle_rate_limited-limiter c.gate c.incoming.request id.tier _)
          ]

  -- the limiter behind a request
  serve-limiter :
      (c : Call M Q) (s : Server M)
      → is_metrics c ≡ false
      → (serve c s).0.limiter ≡ (Rate.serve (asked c s) s.limiter).0
  unfolding identify
  serve-limiter c s limited =
      rw (serve_http_identified c.web c.gate c.clock c.now c.incoming s limited) (
        serve_identified-limiter c (identify c.web c.gate c.clock c.incoming s).1
          (identify c.web c.gate c.clock c.incoming s).0)

  settles_of : (c : Call M Q) (s : Server M) → Settled c.gate c.incoming.request s → pays c s ≡ true
  settles_of c s paid = rw (paid.has_merchant, paid.settled, paid.unchallenged, paid.no_error) refl

  served_once :
      (c : Call M Q) (s : Server M)
      → is_metrics c ≡ false
      → spent (is_served (serve c s).1)
        ≤ spent (Rate.serve (asked c s) s.limiter).1 + spent (buys c s)
  served_once c s limited = elim (Bool-cases (Rate.serve (asked c s) s.limiter).1) [
    | inl free ↦ rw free (omega (arith, spent-le-one (is_served (serve c s).1)))
    | inr over ↦ elim (over_ceiling_paid c.web c.gate c.clock c.now c.incoming s limited over) [
      | inl denied ↦ rw (Denies-unserved _ _ denied) (omega arith)
      | inr settled ↦
          rw (over, settles_of c s settled) (omega (arith, spent-le-one (is_served (serve c s).1)))
    ]
  ]

  metrics_unchanged : (c : Call M Q) (s : Server M) → is_metrics c ≡ true → (serve c s).0 ≡ s
  unfolding serve_http
  metrics_unchanged c s metrics = rw (metrics, serve_http) refl

  served-le :
      (k : Bytes) (cs : List (Call M Q)) (s : Server M)
      → served k cs s ≤ granted k (questions cs s) s.limiter + paid k cs s
  unfolding served paid questions granted
  served-le k [] s = omega arith
  served-le k (c ∷ cs) s = elim (Bool-cases (is_metrics c)) [
    | inl metrics ↦
        let same = ap (λ (u : Server M). u.limiter) (metrics_unchanged c s metrics) in
        let rest = rw same at (served-le k cs (serve c s).0) in rw metrics (omega arith)
    | inr limited ↦
        let rest = rw (serve-limiter c s limited) at (served-le k cs (serve c s).0) in
        let one =
          spent-le (equal (bucket_key (asked c s)) k) (Rate.serve (asked c s) s.limiter).1
            (buys c s) (is_served (serve c s).1) (served_once c s limited) in
        rw limited (omega arith)
  ]

  -- Over any sequence of requests in the order of time, of whatever tiers and clients and with
  -- whatever answers of the network and the merchant, a new server serves of one client in one tier
  -- at most `rpm` requests at once, `rpm` a minute beyond these, and one for every request of
  -- theirs that the limiter denies and for which the merchant, asked then, settles a payment
  -- without a challenge and without an error, if the configuration gives the tier the ceiling `rpm`
  -- and the requests are fewer than the entries that the limiter has room for. Requests for the
  -- page of the metrics are not counted; a request is served if its reply is neither the flat 429
  -- nor a payment challenge.
  pub served_bound :
      (parses_url : Bytes → Bool) (cfg : Config) (verifier : Verifier) (merchant : Option M)
      (tier : Tier) (client : Bytes) (r t₀ : ℕ) (cs : List (Call M Q)) {s : Server M}
      → new parses_url cfg verifier merchant ≡ some s
      → Assoc.get (tier_name tier) cfg.rate_limits ≡ some (pos (suc r))
      → InOrder t₀ cs
      → length cs < Ratelimit.default_max_entries
      → served (full_key (tier_name tier) client) cs s * unit
        ≤ (suc r + paid (full_key (tier_name tier) client) cs s) * unit
          + (end_of t₀ cs - t₀) * suc r
  unfolding new
  served_bound parses_url cfg verifier merchant tier client r t₀ cs {s} made known ordered few =
      let is : s.limiter
          ≡ Ratelimit.new (limits_of cfg.rate_limits) (pos Ratelimit.default_max_entries) =
        ground arith in
      let fresh : IsFresh (tier_name tier) (pos (suc r)) s.limiter =
        rw is (new-IsFresh (tier_name tier) cfg.rate_limits (pos (suc r)) known) in
      let bound =
        rate_bound r (tier_name tier) client t₀ (questions cs s) s.limiter fresh.valid fresh.known
          (fresh.empty _) (tier_name-LacksBar tier) (questions-LacksBar cs s)
          (questions-Ordered t₀ cs s ordered)
          (omega (arith, length-questions-le cs s, fresh.room)) in
      let le = served-le (full_key (tier_name tier) client) cs s in
      let later = last_times _ _ t₀ (suc r) (last_time-le-end_of t₀ cs s ordered) in omega arith
