-- ===== src/Proxy/Server/Paid.antt =====
-- A request past its ceiling is served on a settled payment alone.
use robotsyes.Base.{
  ℕ, false, none, some, [], ◌∷◌, ◌≡◌, ◌⊎◌, inl, inr, refl, ap, ◌∙◌, arith, equal, Bool-cases,
  Option-cases,
}
use robotsyes.Identity.{Tier, Identity, tier_name, Request}
use robotsyes.Identity.Signed.{Clock}
use robotsyes.Ratelimit
use robotsyes.Chitgate.Rail.{PaymentRequest, Challenge, Settlement}
use robotsyes.Proxy.Reply.{
  Answer, Gate, Incoming, Reply, respond, payment_challenge, payment_granted, payment_credential,
  rate_limited, json_type, client_key,
}
use robotsyes.Proxy.Server.{
  Server, Web, answered, handle_rate_limited, serve_identified, identify, serve_http, metrics_path,
}

-- The request that the merchant is asked about.
abbrev pub payment_for : Request → PaymentRequest
payment_for r = record { resource = r.path; credential = payment_credential r }

-- The reply denies the request: the flat 429, or a challenge that the merchant made.
abbrev pub Denies : Tier → Reply → Type 0
Denies tier reply =
    (reply ≡ rate_limited tier)
    ⊎ ((ch : Challenge) × (reply ≡ respond ch.status_code (json_type ∷ []) (payment_challenge ch)))

module _ {M : Type 0} where
  -- The merchant settled a payment for the request, without an error and without a challenge.
  pub record Settled (gate : Gate M) (r : Request) (s : Server M) : Type 0 where
    pub merchant : M
    pub settlement : Settlement
    pub has_merchant : s.payments ≡ some merchant
    pub settled : (gate.require_payment (payment_for r) merchant).1.settlement ≡ some settlement
    pub unchallenged : (gate.require_payment (payment_for r) merchant).1.challenge ≡ none
    pub no_error : (gate.require_payment (payment_for r) merchant).1.failed ≡ false

  answered-Denies :
      (tier : Tier) (a : Answer) (s : Server M) {reply : Reply}
      → (answered tier a s).1 ≡ some reply
      → Denies tier reply
  unfolding answered
  answered-Denies tier a s h = elim (Bool-cases (payment_granted a)) [
    | inr ambiguous ↦ inl (ground arith)
    | inl granted ↦ elim (Option-cases a.challenge) [
      | inl unchallenged ↦ absurd (ground arith)
      | inr (ch, challenged) ↦ inr (ch, ground arith)
    ]
  ]

  answered_settled :
      (tier : Tier) (a : Answer) (s : Server M)
      → (answered tier a s).1 ≡ none
      → (st : Settlement) × (a.settlement ≡ some st) × (a.challenge ≡ none) × (a.failed ≡ false)
  unfolding answered payment_granted
  answered_settled tier a s h = elim (Option-cases a.settlement) [
    | inl unsettled ↦ absurd (elim (Option-cases a.challenge) [
      | inl unchallenged ↦ ground arith
      | inr (ch, challenged) ↦ ground arith
    ])
    | inr (st, settled) ↦ (st, settled, ground arith, ground arith)
  ]

  pub handle_rate_limited-Settled :
      (gate : Gate M) (r : Request) (tier : Tier) (s : Server M)
      → (handle_rate_limited gate r tier s).1 ≡ none
      → Settled gate r s
  unfolding handle_rate_limited
  handle_rate_limited-Settled gate r tier s h = elim (Option-cases s.payments) [
    | inl off ↦ absurd (ground arith)
    | inr (merchant, on) ↦
        let asked = gate.require_payment (payment_for r) merchant in
        let (st, settled, unchallenged, no_error) =
          answered_settled tier asked.1 (record s { payments = some asked.0 })
            (rw (on, handle_rate_limited) at h) in
        record {
          merchant = merchant;
          settlement = st;
          has_merchant = on;
          settled = settled;
          unchallenged = unchallenged;
          no_error = no_error;
        }
  ]

  pub handle_rate_limited-Denies :
      (gate : Gate M) (r : Request) (tier : Tier) (s : Server M) {reply : Reply}
      → (handle_rate_limited gate r tier s).1 ≡ some reply
      → Denies tier reply
  unfolding handle_rate_limited
  handle_rate_limited-Denies gate r tier s h = elim (Option-cases s.payments) [
    | inl off ↦ inl (ground arith)
    | inr (merchant, on) ↦
        let asked = gate.require_payment (payment_for r) merchant in
        answered-Denies tier asked.1 (record s { payments = some asked.0 })
          (rw (on, handle_rate_limited) at h)
  ]

  module _ {Q : Type 0} (web : Web Q) (gate : Gate M) where
    -- the server behind the limiter's answer
    abbrev pub limited : ℕ → Incoming → Identity → Server M → Server M
    limited now r id s = record s {
      limiter =
          (Ratelimit.allow now (tier_name id.tier)
            (client_key web.platform.split_host_port r.request id) s.limiter).0;
    }

    abbrev pub IsDenied : ℕ → Incoming → Identity → Server M → Type 0
    IsDenied now r id s =
        (Ratelimit.allow now (tier_name id.tier)
          (client_key web.platform.split_host_port r.request id) s.limiter).1
        ≡ false

    denied_reply :
        (now : ℕ) (r : Incoming) (id : Identity) (s : Server M) {reply : Reply}
        → IsDenied now r id s
        → (handle_rate_limited gate r.request id.tier (limited now r id s)).1 ≡ some reply
        → (serve_identified web gate now r id s).1 ≡ reply
    unfolding serve_identified
    denied_reply now r id s over denied = rw (over, serve_identified) (rw denied refl)

    pub serve_http_identified :
        (t : Clock) (now : ℕ) (r : Incoming) (s : Server M)
        → equal r.request.path metrics_path ≡ false
        → serve_http web gate t now r s
          ≡ serve_identified web gate now r (identify web gate t r s).1 (identify web gate t r s).0
    unfolding serve_http
    serve_http_identified t now r s path = rw (path, serve_http) refl

    -- The limiter denies the request, under the identity that the verifier grants.
    abbrev pub IsOverCeiling : Clock → ℕ → Incoming → Server M → Type 0
    IsOverCeiling t now r s = IsDenied now r (identify web gate t r s).1 s

    -- A request past its ceiling, for any path but that of the metrics, is answered with the flat
    -- 429 or a payment challenge, or else the server has a merchant, and the merchant settled a
    -- payment for the request without an error and without a challenge.
    pub over_ceiling_paid :
        (t : Clock) (now : ℕ) (r : Incoming) (s : Server M)
        → equal r.request.path metrics_path ≡ false
        → IsOverCeiling t now r s
        → Denies (identify web gate t r s).1.tier (serve_http web gate t now r s).1
          ⊎ Settled gate r.request s
    unfolding identify
    over_ceiling_paid t now r s path over =
        let id = (identify web gate t r s).1 in
        let s' = (identify web gate t r s).0 in
        elim (Option-cases (handle_rate_limited gate r.request id.tier (limited now r id s')).1) [
          | inr (reply, denied) ↦
              let is : (serve_http web gate t now r s).1 ≡ reply =
                ap (λ p. p.1) (serve_http_identified t now r s path)
                ∙ denied_reply now r id s' over denied in
              inl (
                rw is
                  (handle_rate_limited-Denies gate r.request id.tier (limited now r id s') denied))
          | inl goes_on ↦
              let paid =
                handle_rate_limited-Settled gate r.request id.tier (limited now r id s') goes_on in
              inr (record {
                merchant = paid.merchant;
                settlement = paid.settlement;
                has_merchant = paid.has_merchant;
                settled = paid.settled;
                unchallenged = paid.unchallenged;
                no_error = paid.no_error;
              })
        ]
