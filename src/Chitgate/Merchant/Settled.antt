-- ===== src/Chitgate/Merchant/Settled.antt =====
-- A payment is granted on a settlement alone, and once.
use robotsyes.Base.{
  ℕ, ◌+◌, ◌<◌, Bytes, true, false, some, List, [], ◌≡◌, ◌∙◌, sym, refl, ap, inl, inr, arith, equal,
  length, All, Option-cases, Bool-cases,
}
use robotsyes.Chitgate.ReplayCache
use robotsyes.Chitgate.ReplayCache.{ReplayCache}
use robotsyes.Chitgate.ReplayCache.Laws.{IsValid}
use robotsyes.Chitgate.ReplayCache.Spent.{Call, after, LeavesClaim}
use robotsyes.Chitgate.ReplayCache.Once.{spent_once}
use robotsyes.Chitgate.Rail.{
  PaymentRequest, Requirements, Settlement, settled, refused, charged, Chit,
}
use robotsyes.Chitgate.Credential.{validate_credential}
use robotsyes.Chitgate.Merchant.{
  Merchant, cents_to_amount, mint_requirements, settle, settle_at, conclude, claimed,
  require_payment,
}

module _ {Amount : Type 0} (chit : Chit Amount) where
  -- The evidence behind a settlement `s` of the request: the credential names a payer and a
  -- nonce, the nonce was free, and the charge at the advertised requirements was recorded and
  -- then settled.
  pub record Paid (now : ℕ) (req : PaymentRequest) (c : Merchant) (s : Settlement) : Type 0 where
    pub nonce : Bytes
    pub price : Amount
    pub valid : validate_credential chit req.credential ≡ some (s.payer_address, nonce)
    pub free : (ReplayCache.reserve now nonce c.replays).1 ≡ true
    pub priced : cents_to_amount chit c.price_cents ≡ some price
    pub recorded :
        chit.charge req.credential (mint_requirements chit c req.resource) price req.resource
        ≡ charged
    pub closed :
        chit.close req.credential (mint_requirements chit c req.resource) price req.resource ≡ true

  settle_lem :
      (c : Merchant) (req : PaymentRequest) (reqs : Requirements) (payer : Bytes) {s : Settlement}
      → settle chit c req reqs payer ≡ settled s
      → (price : Amount) × (cents_to_amount chit c.price_cents ≡ some price)
        × (chit.charge req.credential reqs price req.resource ≡ charged)
        × (chit.close req.credential reqs price req.resource ≡ true)
        × (s.payer_address ≡ payer)
  unfolding settle settle_at
  settle_lem c req reqs payer h = elim (Option-cases (cents_to_amount chit c.price_cents)) [
    | inl unpriced ↦ absurd (ground arith)
    | inr (price, priced) ↦ (price, priced, ground arith, ground arith, ground arith)
  ]

  claimed_runs :
      (now later : ℕ) (between : List Call) (req : PaymentRequest) (c : Merchant)
      {payer nonce : Bytes}
      → equal req.credential [] ≡ false
      → validate_credential chit req.credential ≡ some (payer, nonce)
      → (ReplayCache.reserve now nonce c.replays).1 ≡ true
      → require_payment chit now later between req c
        ≡ claimed chit later between req payer nonce
            (record c { replays = (ReplayCache.reserve now nonce c.replays).0 })
  unfolding require_payment
  claimed_runs now later between req c shown valid free =
      rw (shown, require_payment) (rw (valid, require_payment) (rw (free, require_payment) refl))

  Paid-claimed :
      (now later : ℕ) (between : List Call) (req : PaymentRequest) (c c' : Merchant)
      (payer nonce : Bytes) (s : Settlement)
      → validate_credential chit req.credential ≡ some (payer, nonce)
      → (ReplayCache.reserve now nonce c.replays).1 ≡ true
      → mint_requirements chit c' req.resource ≡ mint_requirements chit c req.resource
      → c'.price_cents ≡ c.price_cents
      → (claimed chit later between req payer nonce c').1 ≡ settled s
      → Paid now req c s
  unfolding claimed
  Paid-claimed now later between req c c' payer nonce s valid free same same_price h =
      let (price, priced, recorded, closed, named) =
        settle_lem c' req (mint_requirements chit c' req.resource) payer h in
      record {
        nonce = nonce;
        price = price;
        valid = rw named valid;
        free = free;
        priced = rw (sym same_price) priced;
        recorded = rw (sym same) recorded;
        closed = rw (sym same) closed;
      }

  -- A request is settled only if its credential is well formed and names the payer, its nonce was
  -- free, the price is an amount, and the charge at the advertised requirements was recorded and
  -- then settled.
  pub settled-Paid :
      (now later : ℕ) (between : List Call) (req : PaymentRequest) (c : Merchant) (s : Settlement)
      → (require_payment chit now later between req c).1 ≡ settled s
      → Paid now req c s
  unfolding require_payment mint_requirements
  settled-Paid now later between req c s h = elim (Bool-cases (equal req.credential [])) [
    | inl empty ↦ absurd (ground arith)
    | inr shown ↦ elim (Option-cases (validate_credential chit req.credential)) [
      | inl invalid ↦ absurd (ground arith)
      | inr ((payer, nonce), valid) ↦
          elim (Bool-cases (ReplayCache.reserve now nonce c.replays).1) [
            | inr used ↦ absurd (ground arith)
            | inl free ↦
                Paid-claimed now later between req c _ payer nonce s valid free refl refl
                  (ap (λ p. p.1) (sym (claimed_runs now later between req c shown valid free)) ∙ h)
          ]
    ]
  ]

  -- A request whose credential carries a nonce that cannot be reserved is refused.
  refused_of_used :
      (now later : ℕ) (between : List Call) (req : PaymentRequest) (c : Merchant)
      {payer nonce : Bytes}
      → equal req.credential [] ≡ false
      → validate_credential chit req.credential ≡ some (payer, nonce)
      → (ReplayCache.reserve now nonce c.replays).1 ≡ false
      → (require_payment chit now later between req c).1 ≡ refused
  unfolding require_payment
  refused_of_used now later between req c shown valid used =
      rw (shown, require_payment) (rw (valid, require_payment) (rw (used, require_payment) refl))

  replays_of_settled :
      (now later : ℕ) (between : List Call) (req : PaymentRequest) (c : Merchant) (s : Settlement)
      {payer nonce : Bytes}
      → validate_credential chit req.credential ≡ some (payer, nonce)
      → (require_payment chit now later between req c).1 ≡ settled s
      → ((ReplayCache.reserve now nonce c.replays).1 ≡ true)
        × ((require_payment chit now later between req c).0.replays
            ≡ ReplayCache.commit later nonce
                (after between (ReplayCache.reserve now nonce c.replays).0))
  unfolding require_payment claimed conclude
  replays_of_settled now later between req c s {payer} {nonce} valid h =
      elim (Bool-cases (equal req.credential [])) [
        | inl empty ↦ absurd (ground arith)
        | inr shown ↦ elim (Bool-cases (ReplayCache.reserve now nonce c.replays).1) [
          | inr used ↦ absurd (ground arith)
          | inl free ↦
              let runs = claimed_runs now later between req c shown valid free in
              let outcome = ap (λ p. p.1) (sym runs) ∙ h in
              (
                free,
                ap (λ p. p.0.replays) runs
                    ∙ ap
                        (λ o.
                          conclude later nonce o
                            (after between (ReplayCache.reserve now nonce c.replays).0))
                        outcome,
              )
        ]
      ]

-- After a payment was settled, every request that shows the same nonce again is refused, whatever
-- the rail would answer to it, until the nonce's reservation expires, whatever nonces other
-- requests reserve, commit or release before and after the settlement, if the record of nonces is
-- valid, they make fewer calls than it has entries, every reservation comes before the expiry, and
-- nobody else commits or releases the nonce before it is committed.
pub settled_once :
    {Amount Amount' : Type 0} (chit : Chit Amount) (chit' : Chit Amount') (now later : ℕ)
    (between : List Call) (req : PaymentRequest) (c : Merchant) (s : Settlement)
    (afterwards : List Call) (now' later' : ℕ) (between' : List Call) (req' : PaymentRequest)
    (payer payer' nonce : Bytes)
    → IsValid c.replays
    → validate_credential chit req.credential ≡ some (payer, nonce)
    → (require_payment chit now later between req c).1 ≡ settled s
    → All (LeavesClaim nonce (now + c.replays.ttl) false) between
    → All (LeavesClaim nonce (now + c.replays.ttl) true) afterwards
    → length between + length afterwards < c.replays.max_entries
    → now' < now + c.replays.ttl
    → equal req'.credential [] ≡ false
    → validate_credential chit' req'.credential ≡ some (payer', nonce)
    → (require_payment chit' now' later' between' req' (record c {
      replays = after afterwards (require_payment chit now later between req c).0.replays;
    })).1
      ≡ refused
settled_once chit chit' now later between req c s afterwards now' later' between' req' payer payer'
      nonce ok valid paid leaves kept room soon shown valid' =
    let (free, is) = replays_of_settled chit now later between req c s valid paid in
    refused_of_used chit' now' later' between' req' _ shown valid' (
      rw is (
        spent_once now nonce c.replays ok free between later afterwards now' leaves kept room soon))
