-- ===== src/Proxy/Server/ChitGate.antt =====
-- The server with the merchant of internal/paymentgate/chitgate behind it.
use robotsyes.Base.{ℕ, true, false, none, some, List, ◌≡◌, ◌⊎◌, inl, inr, arith, equal}
use robotsyes.Identity.Signed.{Clock}
use robotsyes.Chitgate.ReplayCache.Spent.{Call}
use robotsyes.Chitgate.Rail.{Settlement, Payment, settled, challenged, refused, Chit}
use robotsyes.Chitgate.Merchant.{Merchant, require_payment}
use robotsyes.Chitgate.Merchant.Settled.{Paid, settled-Paid}
use robotsyes.Proxy.Reply.{Answer, Gate, Incoming}
use robotsyes.Proxy.Server.{Server, Web, identify, serve_http, metrics_path}
use robotsyes.Proxy.Server.Paid.{payment_for, Denies, IsOverCeiling, over_ceiling_paid}

-- The three results that a payment is returned as.
unfoldable pub answer : Payment → Answer
answer (settled s) = record { settlement = some s; challenge = none; failed = false }
answer (challenged ch) = record { settlement = none; challenge = some ch; failed = false }
answer refused = record { settlement = none; challenge = none; failed = true }

answer_settled : (p : Payment) {s : Settlement} → (answer p).settlement ≡ some s → p ≡ settled s
unfolding answer
answer_settled (settled s) h = ground arith
answer_settled (challenged ch) h = absurd (ground arith)
answer_settled refused h = absurd (ground arith)

module _ {Amount : Type 0} (chit : Chit Amount) (now later : ℕ) (between : List Call) where
  -- `chitMerchant` as a `payments.Merchant`
  unfoldable pub chit_gate : Gate Merchant
  chit_gate = record {
    require_payment =
        λ req c. (let (c', p) = require_payment chit now later between req c in (c', answer p));
  }

  -- With the merchant of chitgate behind the server, a request past its ceiling, for any path but
  -- that of the metrics, is answered with the flat 429 or a payment challenge, unless it carries a
  -- well-formed credential with a free nonce, and the charge for the requested path at the
  -- advertised requirements was recorded and then settled.
  pub over_ceiling_charged :
      {Q : Type 0} (web : Web Q) (t : Clock) (at : ℕ) (r : Incoming) (s : Server Merchant)
      → equal r.request.path metrics_path ≡ false
      → IsOverCeiling web chit_gate t at r s
      → Denies (identify web chit_gate t r s).1.tier (serve_http web chit_gate t at r s).1
        ⊎ ((c : Merchant) × (st : Settlement) × (s.payments ≡ some c)
            × Paid chit now (payment_for r.request) c st)
  unfolding chit_gate
  over_ceiling_charged web t at r s path over =
      elim (over_ceiling_paid web chit_gate t at r s path over) [
        | inl denied ↦ inl denied
        | inr paid ↦
            let done =
              answer_settled
                (require_payment chit now later between (payment_for r.request) paid.merchant).1
                paid.settled in
            inr (
              paid.merchant,
              paid.settlement,
              paid.has_merchant,
              settled-Paid chit now later between (payment_for r.request) paid.merchant
                  paid.settlement done,
            )
      ]
