-- ===== src/Chitgate/Merchant.antt =====
-- internal/paymentgate/chitgate/chitgate.go: the gate that asks for a payment and lets a settled
-- one through. The package chit, encoding/base64 and encoding/json are the record `Chit`. A
-- request reserves its nonce at one time and commits it at a later one, and `between` are the
-- calls that other requests make in the meantime.
pub mod Construction
pub mod Settled
use robotsyes.Base.{
  ℕ, ◌+◌, ◌*◌, ◌/◌, ◌%◌, Bytes, not, Option, none, some, List, [], ◌∷◌, ◌++◌, codes, equal,
  if◌then◌else◌,
}
use robotsyes.Base.Int.{ℤ, pos, ◌*ℤ◌, wrap64, leb_ℤ, pos_part}
use robotsyes.Chitgate.Rail.{
  PaymentRequest, Requirements, Challenge, Payment, settled, challenged, refused, charge_failed,
  charge_challenged, charged, Chit,
}
use robotsyes.Chitgate.Credential.{is_hex_address, validate_credential}
use robotsyes.Chitgate.ReplayCache
use robotsyes.Chitgate.ReplayCache.{ReplayCache}
use robotsyes.Chitgate.ReplayCache.Spent
use robotsyes.Chitgate.ReplayCache.Spent.{Call}

pub record Config : Type 0 where
  pub payout_address : Bytes
  pub price_cents_per_request : ℤ
  pub network : Bytes
  pub asset : Bytes

-- `chitMerchant`
pub record Merchant : Type 0 where
  pub merchant_id : Bytes
  pub pay_to : Bytes
  pub network : Bytes
  pub asset : Bytes
  pub price_cents : ℤ
  pub replays : ReplayCache

abbrev pub default_network : Bytes
default_network = codes "eip155:8453"

abbrev pub default_asset : Bytes
default_asset = codes "0x833589fCD6eDb6E08f4c7C32D4f71b54bdA02913"

abbrev pub merchant_account_prefix : Bytes
merchant_account_prefix = codes "base:"

abbrev x402_version : ℕ
x402_version = 2

abbrev x402_scheme : Bytes
x402_scheme = codes "exact"

abbrev x402_max_timeout_seconds : ℕ
x402_max_timeout_seconds = 300

abbrev usdc_eip712_name : Bytes
usdc_eip712_name = codes "USD Coin"

abbrev usdc_eip712_version : Bytes
usdc_eip712_version = codes "2"

abbrev pub usdc_atomic_per_cent : ℤ
usdc_atomic_per_cent = pos 10000

abbrev or_default : Bytes → Bytes → Bytes
or_default s d = if equal s [] then d else s

-- the merchant that `New` returns
unfoldable pub build : Config → Merchant
build cfg = record {
  merchant_id = merchant_account_prefix ++ cfg.payout_address;
  pay_to = cfg.payout_address;
  network = or_default cfg.network default_network;
  asset = or_default cfg.asset default_asset;
  price_cents = cfg.price_cents_per_request;
  replays = ReplayCache.new (pos ReplayCache.default_max_entries) (pos ReplayCache.default_ttl);
}

-- `%d.%02d` of the dollars and the cents
unfoldable pub two_digits : ℕ → Bytes
two_digits n = (b'0' + n / 10) ∷ (b'0' + n % 10) ∷ []

unfoldable pub challenge_from : Requirements → Challenge
challenge_from reqs = record { status_code = 402; x402 = reqs }

-- the commit of a settlement, or the deferred release of the nonce
unfoldable pub conclude : ℕ → Bytes → Payment → ReplayCache → ReplayCache
conclude later nonce (settled s) replays = ReplayCache.commit later nonce replays
conclude later nonce (challenged ch) replays = ReplayCache.release nonce replays
conclude later nonce refused replays = ReplayCache.release nonce replays

module _ {Amount : Type 0} (chit : Chit Amount) where
  unfoldable pub cents_to_amount : ℤ → Option Amount
  cents_to_amount cents =
      if leb_ℤ cents (pos 0)
      then none
      else chit.parse_amount
          (chit.decimal (pos (pos_part cents / 100)) ++ (b'.' ∷ two_digits (pos_part cents % 100)))

  -- `New`
  unfoldable pub new : Config → Option Merchant
  new cfg =
      if equal cfg.payout_address []
      then none
      else (if not (is_hex_address cfg.payout_address)
          then none
          else (if leb_ℤ cfg.price_cents_per_request (pos 0)
              then none
              else (if chit.new_merchant (merchant_account_prefix ++ cfg.payout_address)
                  then some (build cfg)
                  else none)))

  unfoldable pub mint_requirements : Merchant → Bytes → Requirements
  mint_requirements c resource = record {
    version = x402_version;
    scheme = x402_scheme;
    network = c.network;
    amount = chit.decimal (wrap64 (c.price_cents *ℤ usdc_atomic_per_cent));
    resource = resource;
    description = codes "robots.yes rate-limit overflow";
    pay_to = c.pay_to;
    max_timeout_seconds = x402_max_timeout_seconds;
    asset = c.asset;
    eip712_name = usdc_eip712_name;
    eip712_version = usdc_eip712_version;
  }

  -- the part of `settle` behind the price
  unfoldable pub settle_at : PaymentRequest → Requirements → Bytes → Amount → Payment
  settle_at req reqs payer price = elim (chit.charge req.credential reqs price req.resource) [
    | charge_failed ↦ refused
    | charge_challenged ↦ challenged (challenge_from reqs)
    | charged ↦
        if chit.close req.credential reqs price req.resource
        then settled (record { payer_address = payer })
        else refused
  ]

  unfoldable pub settle : Merchant → PaymentRequest → Requirements → Bytes → Payment
  settle c req reqs payer =
      if chit.detect req.credential
      then (elim (cents_to_amount c.price_cents) [
        | none ↦ refused
        | some price ↦ settle_at req reqs payer price
      ])
      else refused

  -- the part of `RequirePayment` behind the reservation
  unfoldable pub claimed :
      ℕ → List Call → PaymentRequest → Bytes → Bytes → Merchant → Merchant × Payment
  claimed later between req payer nonce c =
      let outcome = settle c req (mint_requirements c req.resource) payer in
      (record c { replays = conclude later nonce outcome (Spent.after between c.replays) }, outcome)

  -- `RequirePayment`, with the reservation at `now` and the commit at `later`
  unfoldable pub require_payment :
      ℕ → ℕ → List Call → PaymentRequest → Merchant → Merchant × Payment
  require_payment now later between req c =
      if equal req.credential []
      then (c, challenged (challenge_from (mint_requirements c req.resource)))
      else elim (validate_credential chit req.credential) [
        | none ↦ (c, refused)
        | some (payer, nonce) ↦
            let (replays, reserved) = ReplayCache.reserve now nonce c.replays in
            let c' = record c { replays = replays } in
            if reserved then claimed later between req payer nonce c' else (c', refused)
      ]
