-- ===== src/Chitgate/Rail.antt =====
-- The payment rail: the types of internal/payments/merchant.go, those of the package chit that
-- internal/paymentgate/chitgate/chitgate.go fills in, and what the packages answer.
use robotsyes.Base.{ℕ, Bytes, Bool, Option}
use robotsyes.Base.Int.{ℤ}

-- internal/payments/merchant.go
pub record PaymentRequest : Type 0 where
  pub resource : Bytes
  pub credential : Bytes

-- one option of `chit.X402PaymentRequirements`
pub record Requirements : Type 0 where
  pub version : ℕ
  pub scheme : Bytes
  pub network : Bytes
  pub amount : Bytes
  pub resource : Bytes
  pub description : Bytes
  pub pay_to : Bytes
  pub max_timeout_seconds : ℕ
  pub asset : Bytes
  pub eip712_name : Bytes
  pub eip712_version : Bytes

pub record Challenge : Type 0 where
  pub status_code : ℕ
  pub x402 : Requirements

pub record Settlement : Type 0 where
  pub payer_address : Bytes

-- The first two results of `RequirePayment` and its error.
pub data Payment : Type 0 where
  settled : Settlement → Payment
  challenged : Challenge → Payment
  refused : Payment

-- The merchant's answer to the session's charge: an error, a challenge, or a recorded charge.
pub data Charge : Type 0 where
  charge_failed charge_challenged charged : Charge

-- A JSON value, as far as the nonce is read from it, and the members of an object.
mutual
  pub data Json : Type 0 where
    object : Members → Json
    string : Bytes → Json
    other : Json

  pub data Members : Type 0 where
    no_members : Members
    member : Bytes → Json → Members → Members

-- The packages: `amount` is chit.Amount, `parse_object` json.Unmarshal into a map that is not nil.
pub record Chit (Amount : Type 0) : Type 0 where
  pub new_merchant : Bytes → Bool
  pub extract_payer : Bytes → Option Bytes
  pub detect : Bytes → Bool
  pub parse_amount : Bytes → Option Amount
  pub charge : Bytes → Requirements → Amount → Bytes → Charge
  pub close : Bytes → Requirements → Amount → Bytes → Bool
  pub base64_std : Bytes → Option Bytes
  pub base64_raw_url : Bytes → Option Bytes
  pub parse_object : Bytes → Option (Members)
  pub decimal : ℤ → Bytes
