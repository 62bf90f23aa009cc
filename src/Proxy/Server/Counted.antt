-- ===== src/Proxy/Server/Counted.antt =====
-- What the counters of the server say about the requests it handled.
use robotsyes.Base.{
  ℕ, false, Option, none, some, [], ◌∷◌, ◌≡◌, ◌⊎◌, inl, inr, refl, arith, equal, Bool-cases,
  Option-cases,
}
use robotsyes.Identity.{Tier, Identity, Request}
use robotsyes.Identity.Signed.{Clock}
use robotsyes.Chitgate.Rail.{Challenge}
use robotsyes.Proxy.Reply.{
  Answer, Gate, Incoming, Reply, respond, payment_challenge, payment_granted, rate_limited,
  json_type,
}
use robotsyes.Proxy.Metrics.{
  ServerMetrics, record_request, record_denied, record_payment_challenged, record_payment_settled,
}
use robotsyes.Proxy.Server.{
  Server, Web, answered, handle_rate_limited, serve_content, serve_identified, identify, serve_http,
  metrics_path,
}
use robotsyes.Proxy.Server.Paid.{
  payment_for, IsOverCeiling, IsDenied, limited, serve_http_identified,
}

-- The ways in which a request past its ceiling ends: what is counted, and what is answered, where
-- `none` lets the request go on.
abbrev pub Ends : Tier → ServerMetrics → ServerMetrics → Option Reply → Type 0
Ends tier before counts reply =
    ((counts ≡ record_denied tier before) × (reply ≡ some (rate_limited tier)))
    ⊎ (((counts ≡ record_payment_challenged before)
          × (ch : Challenge) × (reply
              ≡ some (respond ch.status_code (json_type ∷ []) (payment_challenge ch))))
        ⊎ ((counts ≡ record_payment_settled before) × (reply ≡ none)))

module _ {M : Type 0} where
  answered-Ends :
      (tier : Tier) (a : Answer) (s : Server M)
      → Ends tier s.metrics (answered tier a s).0.metrics (answered tier a s).1
  unfolding answered
  answered-Ends tier a s = elim (Bool-cases (payment_granted a)) [
    | inr ambiguous ↦ inl (ground arith, ground arith)
    | inl granted ↦ elim (Option-cases a.challenge) [
      | inl unchallenged ↦ inr (inr (ground arith, ground arith))
      | inr (ch, challenged) ↦ inr (inl (ground arith, ch, ground arith))
    ]
  ]

  pub handle_rate_limited-Ends :
      (gate : Gate M) (r : Request) (tier : Tier) (s : Server M)
      → Ends tier s.metrics
          (handle_rate_limited gate r tier s).0.metrics
          (handle_rate_limited gate r tier s).1
  unfolding handle_rate_limited
  handle_rate_limited-Ends gate r tier s = elim (Option-cases s.payments) [
    | inl off ↦ inl (ground arith, ground arith)
    | inr (merchant, on) ↦
        let asked = gate.require_payment (payment_for r) merchant in
        rw (on, handle_rate_limited)
          (answered-Ends tier asked.1 (record s { payments = some asked.0 }))
  ]

  module _ {Q : Type 0} (web : Web Q) (gate : Gate M) where
    -- How a request past its ceiling ends: denied, challenged or settled, as the counters and the
    -- reply show it; a settled request is served.
    abbrev pub Outcome : Incoming → Tier → ServerMetrics → Server M × Reply → Type 0
    Outcome r tier before (s, reply) =
        ((s.metrics ≡ record_denied tier before) × (reply ≡ rate_limited tier))
        ⊎ (((s.metrics ≡ record_payment_challenged before)
              × (ch : Challenge) × (reply
                  ≡ respond ch.status_code (json_type ∷ []) (payment_challenge ch)))
            ⊎ ((s.metrics ≡ record_payment_settled before)
                × (reply ≡ serve_content web gate r tier s)))

    serve_identified_over :
        (now : ℕ) (r : Incoming) (id : Identity) (s : Server M)
        → IsDenied web gate now r id s
        → Outcome r id.tier s.metrics (serve_identified web gate now r id s)
    unfolding serve_identified
    serve_identified_over now r id s over =
        rw (over, serve_identified)
          (elim (handle_rate_limited-Ends gate r.request id.tier (limited web gate now r id s)) [
            | inl (counts, denied) ↦ inl (counts, rw denied refl)
            | inr (inl (counts, ch, challenged)) ↦ inr (inl (counts, ch, rw challenged refl))
            | inr (inr (counts, goes_on)) ↦ inr (inr (counts, rw goes_on refl))
          ])

    -- A request past its ceiling, for any path but that of the metrics, is counted once under the
    -- tier it was granted, and once as what became of it: denied with the flat 429, answered with a
    -- payment challenge, or settled and served.
    pub over_ceiling_counted :
        (t : Clock) (now : ℕ) (r : Incoming) (s : Server M)
        → equal r.request.path metrics_path ≡ false
        → IsOverCeiling web gate t now r s
        → Outcome r
            (identify web gate t r s).1.tier
            (record_request (identify web gate t r s).1.tier s.metrics)
            (serve_http web gate t now r s)
    unfolding identify
    over_ceiling_counted t now r s path over =
        rw (serve_http_identified web gate t now r s path)
          (serve_identified_over now r (identify web gate t r s).1 (identify web gate t r s).0 over)
