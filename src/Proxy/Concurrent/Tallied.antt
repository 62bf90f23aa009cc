-- ===== src/Proxy/Concurrent/Tallied.antt =====
-- The counters of the server agree with what became of the requests, whatever their order.
use robotsyes.Base.{
  ℕ, ◌+◌, Bytes, Bool, Option, some, List, [], ◌∷◌, ◌++◌, ◌≡◌, inl, inr, refl, ap, arith,
  sum_by-replaced, equal, Bool-cases, map,
}
use robotsyes.Base.Star.{Star, Star-keeps}
use robotsyes.Identity.{tier_name, Tier, Identity}
use robotsyes.Identity.Signed.{Clock}
use robotsyes.Proxy.Metrics.{ServerMetrics, counter, new_server_metrics}
use robotsyes.Proxy.Reply.{rate_limited}
use robotsyes.Config.{Config}
use robotsyes.Ratelimit
use robotsyes.Proxy.Discovery.{Verifier}
use robotsyes.Proxy.Server.{Server, new, identify, handle_rate_limited, metrics_path}
use robotsyes.Proxy.Server.Counted.{handle_rate_limited-Ends}
use robotsyes.Proxy.Concurrent.{
  Phase, arrived, identified, admitted, refused, paid, measured, turned_away, served, sold, Thread,
  System, receive, key_for, ask, charge, reply_to, moved_to, Step, received, asked, charged,
  replied, replied_paid, Arrival, thread, start,
}
use robotsyes.Proxy.Concurrent.Tally.{same, granted, denied, challenged, settled, how_many, Tallies}
use robotsyes.Proxy.Concurrent.Counts.{
  nothing_counted, Counts, no_tier, Counts-nothing, record_request-Counts, record_denied-Counts,
  record_payment_challenged-Counts, record_payment_settled-Counts,
}

module _ {M Q : Type 0} where
  -- By how much each number grows.
  record Grows (ths ths' : List (Thread M Q)) (g d : Tier → ℕ) (c s : ℕ) : Type 0 where
    granting : (t : Tier) → how_many (granted t) ths' ≡ how_many (granted t) ths + g t
    denying : (t : Tier) → how_many (denied t) ths' ≡ how_many (denied t) ths + d t
    challenging_ : how_many challenged ths' ≡ how_many challenged ths + c
    settling : how_many settled ths' ≡ how_many settled ths + s

  grows :
      (before after ths : List (Thread M Q)) (th : Thread M Q) (ph ph' : Phase) (g d : Tier → ℕ)
      (c s : ℕ)
      → ths ≡ before ++ (th ∷ after)
      → th.phase ≡ ph
      → ((t : Tier) → granted t ph' ≡ granted t ph + g t)
      → ((t : Tier) → denied t ph' ≡ denied t ph + d t)
      → challenged ph' ≡ challenged ph + c
      → settled ph' ≡ settled ph + s
      → Grows ths (before ++ (record th { phase = ph' } ∷ after)) g d c s
  grows before after ths th ph ph' g d c s is at gs ds cs ss =
      let th' : Thread M Q = record th { phase = ph' } in
      let by = λ (w : Phase → ℕ).
        sum_by-replaced (λ (u : Thread M Q). w u.phase) before th th' after ths is in
      record {
        granting = λ t. omega (arith, by (granted t), ap (granted t) at, gs t);
        denying = λ t. omega (arith, by (denied t), ap (denied t) at, ds t);
        challenging_ = omega (arith, by challenged, ap challenged at, cs);
        settling = omega (arith, by settled, ap settled at, ss);
      }

  tallied :
      (m m' : ServerMetrics) (ths ths' : List (Thread M Q)) (g d : Tier → ℕ) (c s : ℕ)
      → Counts m m' g d c s
      → Grows ths ths' g d c s
      → Tallies m ths
      → Tallies m' ths'
  tallied m m' ths ths' g d c s counts more h = record {
    requests = λ t. counts.of_requests t _ _ (h.requests t) (more.granting t);
    denials = λ t. counts.of_denials t _ _ (h.denials t) (more.denying t);
    challenges = counts.of_challenges _ _ h.challenges more.challenging_;
    settlements = counts.of_settlements _ _ h.settlements more.settling;
  }

  abbrev HasTallies : System M Q → Type 0
  HasTallies s = Tallies s.server.metrics s.threads

  -- What a step does to the counters is what it does to the numbers of requests.
  stepped :
      (before after : List (Thread M Q)) (th : Thread M Q) (s : System M Q) (ph ph' : Phase)
      (server : Server M) (g d : Tier → ℕ) (c n : ℕ)
      → s.threads ≡ before ++ (th ∷ after)
      → th.phase ≡ ph
      → Counts s.server.metrics server.metrics g d c n
      → ((t : Tier) → granted t ph' ≡ granted t ph + g t)
      → ((t : Tier) → denied t ph' ≡ denied t ph + d t)
      → challenged ph' ≡ challenged ph + c
      → settled ph' ≡ settled ph + n
      → HasTallies s
      → HasTallies (moved_to before th after (server, ph') s)
  stepped before after th s ph ph' server g d c n is at counts gs ds cs ss h =
      tallied s.server.metrics server.metrics s.threads _ g d c n counts
        (grows before after s.threads th ph ph' g d c n is at gs ds cs ss) h

  receive-HasTallies :
      (before after : List (Thread M Q)) (th : Thread M Q) (s : System M Q) (t : Clock)
      → s.threads ≡ before ++ (th ∷ after)
      → th.phase ≡ arrived
      → HasTallies s
      → HasTallies (moved_to before th after (receive t th s.server) s)
  unfolding receive identify
  receive-HasTallies before after th s t is at h =
      elim (Bool-cases (equal th.incoming.request.path metrics_path)) [
        | inl metrics ↦
            rw (metrics, receive)
              (stepped before after th s arrived (measured _) s.server no_tier no_tier 0 0 is at
                (Counts-nothing s.server.metrics) (λ u. omega arith) (λ u. omega arith)
                (omega arith) (omega arith) h)
        | inr other ↦
            let id = (identify th.web th.gate t th.incoming s.server).1 in
            rw (other, receive)
              (stepped before after th s arrived (identified id)
                (identify th.web th.gate t th.incoming s.server).0 (λ u. same u id.tier) no_tier 0 0
                is at (record_request-Counts id.tier s.server.metrics) (λ u. omega arith)
                (λ u. omega arith) (omega arith) (omega arith) h)
      ]

  charge-HasTallies :
      (before after : List (Thread M Q)) (th : Thread M Q) (s : System M Q) (id : Identity)
      → s.threads ≡ before ++ (th ∷ after)
      → th.phase ≡ refused id
      → HasTallies s
      → HasTallies (moved_to before th after (charge th id s.server) s)
  unfolding charge
  charge-HasTallies before after th s id is at h =
      let server' = (handle_rate_limited th.gate th.incoming.request id.tier s.server).0 in
      let m = s.server.metrics in
      elim (handle_rate_limited-Ends th.gate th.incoming.request id.tier s.server) [
        | inl (counts, flat_reply) ↦
            rw (flat_reply, charge)
              (stepped before after th s (refused id) (turned_away id (rate_limited id.tier))
                server' no_tier (λ t. same t id.tier) 0 0 is at
                (rw counts (record_denied-Counts id.tier m)) (λ t. omega arith)
                (λ t. unfold rate_limited in omega arith) (unfold rate_limited in omega arith)
                (omega arith) h)
        | inr (inl (counts, ch, challenge)) ↦
            rw (challenge, charge)
              (stepped before after th s (refused id) (turned_away id _) server' no_tier no_tier 1 0
                is at (rw counts (record_payment_challenged-Counts m)) (λ t. omega arith)
                (λ t. omega arith) (omega arith) (omega arith) h)
        | inr (inr (counts, goes_on)) ↦
            rw (goes_on, charge)
              (stepped before after th s (refused id) (paid id) server' no_tier no_tier 0 1 is at
                (rw counts (record_payment_settled-Counts m)) (λ t. omega arith) (λ t. omega arith)
                (omega arith) (omega arith) h)
      ]

  ask-HasTallies :
      (before after : List (Thread M Q)) (th : Thread M Q) (s : System M Q) (id : Identity)
      (now : ℕ)
      → s.threads ≡ before ++ (th ∷ after)
      → th.phase ≡ identified id
      → HasTallies s
      → HasTallies (moved_to before th after (ask now th id s.server) s)
  unfolding ask
  ask-HasTallies before after th s id now is at h =
      elim (Bool-cases
        (Ratelimit.allow now (tier_name id.tier) (key_for th id) s.server.limiter).1) [
          | inl free ↦
              rw (free, ask)
                (stepped before after th s (identified id) (admitted id) (ask now th id s.server).0
                  no_tier no_tier 0 0 is at (Counts-nothing s.server.metrics) (λ t. omega arith)
                  (λ t. omega arith) (omega arith) (omega arith) h)
          | inr over ↦
              rw (over, ask)
                (stepped before after th s (identified id) (refused id) (ask now th id s.server).0
                  no_tier no_tier 0 0 is at (Counts-nothing s.server.metrics) (λ t. omega arith)
                  (λ t. omega arith) (omega arith) (omega arith) h)
        ]

  Step-HasTallies : (s t : System M Q) → Step s t → HasTallies s → HasTallies t
  Step-HasTallies s t (received before th after c is at) h =
      receive-HasTallies before after th s c is at h
  Step-HasTallies s t (asked before th after id now is at _) h =
      ask-HasTallies before after th s id now is at h
  Step-HasTallies s t (charged before th after id is at) h =
      charge-HasTallies before after th s id is at h
  Step-HasTallies s t (replied before th after id is at) h =
      stepped before after th s (admitted id) (served id (reply_to th id s.server)) s.server no_tier
        no_tier 0 0 is at (Counts-nothing s.server.metrics) (λ t. omega arith) (λ t. omega arith)
        (omega arith) (omega arith) h
  Step-HasTallies s t (replied_paid before th after id is at) h =
      stepped before after th s (paid id) (sold id (reply_to th id s.server)) s.server no_tier
        no_tier 0 0 is at (Counts-nothing s.server.metrics) (λ t. omega arith) (λ t. omega arith)
        (omega arith) (omega arith) h

  none_yet :
      (w : Phase → ℕ) (arrivals : List (Arrival M Q))
      → w arrived ≡ 0
      → how_many w (map thread arrivals) ≡ 0
  none_yet w [] h = refl
  none_yet w (a ∷ arrivals) h = let rest = none_yet w arrivals h in omega arith

  start-HasTallies :
      (server : Server M) (arrivals : List (Arrival M Q)) (t₀ : ℕ)
      → server.metrics ≡ new_server_metrics
      → HasTallies (start server arrivals t₀)
  unfolding new_server_metrics counter
  start-HasTallies server arrivals t₀ new_metrics = rw new_metrics (record {
    requests = λ t. nothing_counted t _ (none_yet (granted t) arrivals refl);
    denials = λ t. nothing_counted t _ (none_yet (denied t) arrivals refl);
    challenges = omega (arith, none_yet challenged arrivals refl);
    settlements = omega (arith, none_yet settled arrivals refl);
  })

  -- In every state that requests on goroutines of their own can reach in any order, from a new
  -- server, each counter agrees with what became of the requests, modulo 2^64: for every tier the
  -- requests that were granted it and those that were answered with its flat 429, and the requests
  -- that were answered with a payment challenge and those whose payment was settled.
  pub concurrent-Tallies :
      (parses_url : Bytes → Bool) (cfg : Config) (verifier : Verifier) (merchant : Option M)
      (t₀ : ℕ) (arrivals : List (Arrival M Q)) {server : Server M} {s : System M Q}
      → new parses_url cfg verifier merchant ≡ some server
      → Star Step (start server arrivals t₀) s
      → Tallies s.server.metrics s.threads
  unfolding new
  concurrent-Tallies parses_url cfg verifier merchant t₀ arrivals {server} made steps =
      Star-keeps HasTallies Step-HasTallies steps
        (start-HasTallies server arrivals t₀ (ground arith))
