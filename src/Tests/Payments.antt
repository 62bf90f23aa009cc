-- ===== src/Tests/Payments.antt =====
-- internal/paymentgate/chitgate at concrete inputs.
use robotsyes.Base.{◌+◌, ◌*◌, Bytes, true, none, some, [], ◌∷◌, ◌≡◌, refl, codes, arith, equal}
use robotsyes.Base.Int.{pos}
use robotsyes.Chitgate.ReplayCache
use robotsyes.Chitgate.ReplayCache.Laws.{IsValid}
use robotsyes.Chitgate.ReplayCache.Spent.{after, reserve_at, release_of}
use robotsyes.Chitgate.Merchant
use robotsyes.Chitgate.Rail.{
  PaymentRequest, Settlement, settled, refused, charged, Chit, object, string, member, no_members,
}
use robotsyes.Chitgate.Credential.{validate_credential}
use robotsyes.Chitgate.Merchant.{Merchant, Config, require_payment, mint_requirements, build}
use robotsyes.Chitgate.Merchant.Construction.{new_lem}
use robotsyes.Chitgate.Merchant.Settled.{Paid, settled-Paid, settled_once}

abbrev payer : Bytes
payer = codes "0x0123456789abcdef0123456789abcdef01234567"

-- a rail that settles every charge, where a credential is the text of its nonce
abbrev rail : Chit Bytes
rail = record {
  new_merchant = λ id. true;
  extract_payer = λ credential. some payer;
  detect = λ credential. true;
  parse_amount = λ text. some text;
  charge = λ credential reqs price resource. charged;
  close = λ credential reqs price resource. true;
  base64_std = λ s. some s;
  base64_raw_url = λ s. none;
  parse_object = λ s. some (
      member (codes "payload")
        (object (
          member (codes "authorization") (object (member (codes "nonce") (string s) no_members))
            no_members))
        no_members);
  decimal = λ n. codes "1";
}

abbrev config : Config
config = record {
  payout_address = payer;
  price_cents_per_request = pos 4;
  network = [];
  asset = [];
}

abbrev merchant : Merchant
merchant = build config

is_built : Merchant.new rail config ≡ some merchant
unfolding robotsyes.Base.equal robotsyes.Base.cut_prefix robotsyes.Base.has_prefix
    robotsyes.Base.trim_prefix robotsyes.Base.has_suffix robotsyes.Base.trim_suffix
    robotsyes.Base.cut robotsyes.Base.split robotsyes.Base.join robotsyes.Base.trim_left
    robotsyes.Base.trim_right robotsyes.Base.trim robotsyes.Base.trim_space robotsyes.Base.to_lower
    robotsyes.Base.equal_fold robotsyes.Base.Int.word64 robotsyes.Base.Int.signed64
    robotsyes.Base.Int.wrap64 robotsyes.Base.Int.positive_or robotsyes.Chitgate.ReplayCache.new
    robotsyes.Chitgate.ReplayCache.remove_element
    robotsyes.Chitgate.ReplayCache.evict_if_over_capacity robotsyes.Chitgate.ReplayCache.reserve
    robotsyes.Chitgate.ReplayCache.commit robotsyes.Chitgate.ReplayCache.release
    robotsyes.Chitgate.ReplayCache.len robotsyes.Chitgate.Credential.is_hex_digit
    robotsyes.Chitgate.Credential.is_hex_address robotsyes.Chitgate.Merchant.build
    robotsyes.Chitgate.Merchant.two_digits robotsyes.Chitgate.Merchant.challenge_from
    robotsyes.Chitgate.Merchant.conclude robotsyes.Chitgate.Credential.field
    robotsyes.Chitgate.Credential.as_object robotsyes.Chitgate.Credential.as_string
    robotsyes.Chitgate.Credential.first_object robotsyes.Chitgate.Credential.credential_decoders
    robotsyes.Chitgate.Credential.decode_credential_json
    robotsyes.Chitgate.Credential.decode_x402_nonce
    robotsyes.Chitgate.Credential.validate_credential robotsyes.Chitgate.Merchant.cents_to_amount
    robotsyes.Chitgate.Merchant.new robotsyes.Chitgate.Merchant.mint_requirements
    robotsyes.Chitgate.Merchant.settle_at robotsyes.Chitgate.Merchant.settle
    robotsyes.Chitgate.Merchant.claimed robotsyes.Chitgate.Merchant.require_payment
    robotsyes.Recency.find robotsyes.Recency.remove robotsyes.Recency.move_to_front
    robotsyes.Recency.set_value robotsyes.Recency.back robotsyes.Recency.element
    robotsyes.Recency.push robotsyes.Recency.remove_element robotsyes.Recency.evict_over
    robotsyes.Base.Assoc.get robotsyes.Base.Assoc.delete robotsyes.Base.Assoc.put
    robotsyes.Chitgate.ReplayCache.Spent.step robotsyes.Chitgate.ReplayCache.Spent.after
    robotsyes.Base.Int.◌-ℤ◌ robotsyes.Base.Int.◌*ℤ◌ robotsyes.Base.Int.◌+ℤ◌
is_built = refl

merchant-IsValid : IsValid merchant.replays
unfolding robotsyes.Base.equal robotsyes.Base.cut_prefix robotsyes.Base.has_prefix
    robotsyes.Base.trim_prefix robotsyes.Base.has_suffix robotsyes.Base.trim_suffix
    robotsyes.Base.cut robotsyes.Base.split robotsyes.Base.join robotsyes.Base.trim_left
    robotsyes.Base.trim_right robotsyes.Base.trim robotsyes.Base.trim_space robotsyes.Base.to_lower
    robotsyes.Base.equal_fold robotsyes.Base.Int.word64 robotsyes.Base.Int.signed64
    robotsyes.Base.Int.wrap64 robotsyes.Base.Int.positive_or robotsyes.Chitgate.ReplayCache.new
    robotsyes.Chitgate.ReplayCache.remove_element
    robotsyes.Chitgate.ReplayCache.evict_if_over_capacity robotsyes.Chitgate.ReplayCache.reserve
    robotsyes.Chitgate.ReplayCache.commit robotsyes.Chitgate.ReplayCache.release
    robotsyes.Chitgate.ReplayCache.len robotsyes.Chitgate.Credential.is_hex_digit
    robotsyes.Chitgate.Credential.is_hex_address robotsyes.Chitgate.Merchant.build
    robotsyes.Chitgate.Merchant.two_digits robotsyes.Chitgate.Merchant.challenge_from
    robotsyes.Chitgate.Merchant.conclude robotsyes.Chitgate.Credential.field
    robotsyes.Chitgate.Credential.as_object robotsyes.Chitgate.Credential.as_string
    robotsyes.Chitgate.Credential.first_object robotsyes.Chitgate.Credential.credential_decoders
    robotsyes.Chitgate.Credential.decode_credential_json
    robotsyes.Chitgate.Credential.decode_x402_nonce
    robotsyes.Chitgate.Credential.validate_credential robotsyes.Chitgate.Merchant.cents_to_amount
    robotsyes.Chitgate.Merchant.new robotsyes.Chitgate.Merchant.mint_requirements
    robotsyes.Chitgate.Merchant.settle_at robotsyes.Chitgate.Merchant.settle
    robotsyes.Chitgate.Merchant.claimed robotsyes.Chitgate.Merchant.require_payment
    robotsyes.Recency.find robotsyes.Recency.remove robotsyes.Recency.move_to_front
    robotsyes.Recency.set_value robotsyes.Recency.back robotsyes.Recency.element
    robotsyes.Recency.push robotsyes.Recency.remove_element robotsyes.Recency.evict_over
    robotsyes.Base.Assoc.get robotsyes.Base.Assoc.delete robotsyes.Base.Assoc.put
    robotsyes.Chitgate.ReplayCache.Spent.step robotsyes.Chitgate.ReplayCache.Spent.after
    robotsyes.Base.Int.◌-ℤ◌ robotsyes.Base.Int.◌*ℤ◌ robotsyes.Base.Int.◌+ℤ◌
merchant-IsValid = (new_lem rail config merchant is_built).0.valid

abbrev paid_request : PaymentRequest
paid_request = record { resource = codes "/page"; credential = codes "n1" }

abbrev settlement : Settlement
settlement = record { payer_address = payer }

valid : validate_credential rail paid_request.credential ≡ some (payer, codes "n1")
unfolding robotsyes.Base.equal robotsyes.Base.cut_prefix robotsyes.Base.has_prefix
    robotsyes.Base.trim_prefix robotsyes.Base.has_suffix robotsyes.Base.trim_suffix
    robotsyes.Base.cut robotsyes.Base.split robotsyes.Base.join robotsyes.Base.trim_left
    robotsyes.Base.trim_right robotsyes.Base.trim robotsyes.Base.trim_space robotsyes.Base.to_lower
    robotsyes.Base.equal_fold robotsyes.Base.Int.word64 robotsyes.Base.Int.signed64
    robotsyes.Base.Int.wrap64 robotsyes.Base.Int.positive_or robotsyes.Chitgate.ReplayCache.new
    robotsyes.Chitgate.ReplayCache.remove_element
    robotsyes.Chitgate.ReplayCache.evict_if_over_capacity robotsyes.Chitgate.ReplayCache.reserve
    robotsyes.Chitgate.ReplayCache.commit robotsyes.Chitgate.ReplayCache.release
    robotsyes.Chitgate.ReplayCache.len robotsyes.Chitgate.Credential.is_hex_digit
    robotsyes.Chitgate.Credential.is_hex_address robotsyes.Chitgate.Merchant.build
    robotsyes.Chitgate.Merchant.two_digits robotsyes.Chitgate.Merchant.challenge_from
    robotsyes.Chitgate.Merchant.conclude robotsyes.Chitgate.Credential.field
    robotsyes.Chitgate.Credential.as_object robotsyes.Chitgate.Credential.as_string
    robotsyes.Chitgate.Credential.first_object robotsyes.Chitgate.Credential.credential_decoders
    robotsyes.Chitgate.Credential.decode_credential_json
    robotsyes.Chitgate.Credential.decode_x402_nonce
    robotsyes.Chitgate.Credential.validate_credential robotsyes.Chitgate.Merchant.cents_to_amount
    robotsyes.Chitgate.Merchant.new robotsyes.Chitgate.Merchant.mint_requirements
    robotsyes.Chitgate.Merchant.settle_at robotsyes.Chitgate.Merchant.settle
    robotsyes.Chitgate.Merchant.claimed robotsyes.Chitgate.Merchant.require_payment
    robotsyes.Recency.find robotsyes.Recency.remove robotsyes.Recency.move_to_front
    robotsyes.Recency.set_value robotsyes.Recency.back robotsyes.Recency.element
    robotsyes.Recency.push robotsyes.Recency.remove_element robotsyes.Recency.evict_over
    robotsyes.Base.Assoc.get robotsyes.Base.Assoc.delete robotsyes.Base.Assoc.put
    robotsyes.Chitgate.ReplayCache.Spent.step robotsyes.Chitgate.ReplayCache.Spent.after
    robotsyes.Base.Int.◌-ℤ◌ robotsyes.Base.Int.◌*ℤ◌ robotsyes.Base.Int.◌+ℤ◌
valid = refl

is_settled :
    (require_payment rail 3 9 (reserve_at 5 (codes "n2") ∷ []) paid_request merchant).1
    ≡ settled settlement
unfolding robotsyes.Base.equal robotsyes.Base.cut_prefix robotsyes.Base.has_prefix
    robotsyes.Base.trim_prefix robotsyes.Base.has_suffix robotsyes.Base.trim_suffix
    robotsyes.Base.cut robotsyes.Base.split robotsyes.Base.join robotsyes.Base.trim_left
    robotsyes.Base.trim_right robotsyes.Base.trim robotsyes.Base.trim_space robotsyes.Base.to_lower
    robotsyes.Base.equal_fold robotsyes.Base.Int.word64 robotsyes.Base.Int.signed64
    robotsyes.Base.Int.wrap64 robotsyes.Base.Int.positive_or robotsyes.Chitgate.ReplayCache.new
    robotsyes.Chitgate.ReplayCache.remove_element
    robotsyes.Chitgate.ReplayCache.evict_if_over_capacity robotsyes.Chitgate.ReplayCache.reserve
    robotsyes.Chitgate.ReplayCache.commit robotsyes.Chitgate.ReplayCache.release
    robotsyes.Chitgate.ReplayCache.len robotsyes.Chitgate.Credential.is_hex_digit
    robotsyes.Chitgate.Credential.is_hex_address robotsyes.Chitgate.Merchant.build
    robotsyes.Chitgate.Merchant.two_digits robotsyes.Chitgate.Merchant.challenge_from
    robotsyes.Chitgate.Merchant.conclude robotsyes.Chitgate.Credential.field
    robotsyes.Chitgate.Credential.as_object robotsyes.Chitgate.Credential.as_string
    robotsyes.Chitgate.Credential.first_object robotsyes.Chitgate.Credential.credential_decoders
    robotsyes.Chitgate.Credential.decode_credential_json
    robotsyes.Chitgate.Credential.decode_x402_nonce
    robotsyes.Chitgate.Credential.validate_credential robotsyes.Chitgate.Merchant.cents_to_amount
    robotsyes.Chitgate.Merchant.new robotsyes.Chitgate.Merchant.mint_requirements
    robotsyes.Chitgate.Merchant.settle_at robotsyes.Chitgate.Merchant.settle
    robotsyes.Chitgate.Merchant.claimed robotsyes.Chitgate.Merchant.require_payment
    robotsyes.Recency.find robotsyes.Recency.remove robotsyes.Recency.move_to_front
    robotsyes.Recency.set_value robotsyes.Recency.back robotsyes.Recency.element
    robotsyes.Recency.push robotsyes.Recency.remove_element robotsyes.Recency.evict_over
    robotsyes.Base.Assoc.get robotsyes.Base.Assoc.delete robotsyes.Base.Assoc.put
    robotsyes.Chitgate.ReplayCache.Spent.step robotsyes.Chitgate.ReplayCache.Spent.after
    robotsyes.Base.Int.◌-ℤ◌ robotsyes.Base.Int.◌*ℤ◌ robotsyes.Base.Int.◌+ℤ◌
is_settled = refl

settled-Paid_example : Paid rail 3 paid_request merchant settlement
settled-Paid_example =
    settled-Paid rail 3 9 (reserve_at 5 (codes "n2") ∷ []) paid_request merchant settlement
      is_settled

settled_once_example :
    (require_payment rail 70 80 [] paid_request (record merchant {
      replays =
          after
            (release_of (codes "n1") ∷ [])
            (require_payment rail 3 9
              (reserve_at 5 (codes "n2") ∷ [])
              paid_request
              merchant).0.replays;
    })).1
    ≡ refused
unfolding robotsyes.Base.equal robotsyes.Base.cut_prefix robotsyes.Base.has_prefix
    robotsyes.Base.trim_prefix robotsyes.Base.has_suffix robotsyes.Base.trim_suffix
    robotsyes.Base.cut robotsyes.Base.split robotsyes.Base.join robotsyes.Base.trim_left
    robotsyes.Base.trim_right robotsyes.Base.trim robotsyes.Base.trim_space robotsyes.Base.to_lower
    robotsyes.Base.equal_fold robotsyes.Base.Int.word64 robotsyes.Base.Int.signed64
    robotsyes.Base.Int.wrap64 robotsyes.Base.Int.positive_or robotsyes.Chitgate.ReplayCache.new
    robotsyes.Chitgate.ReplayCache.remove_element
    robotsyes.Chitgate.ReplayCache.evict_if_over_capacity robotsyes.Chitgate.ReplayCache.reserve
    robotsyes.Chitgate.ReplayCache.commit robotsyes.Chitgate.ReplayCache.release
    robotsyes.Chitgate.ReplayCache.len robotsyes.Chitgate.Credential.is_hex_digit
    robotsyes.Chitgate.Credential.is_hex_address robotsyes.Chitgate.Merchant.build
    robotsyes.Chitgate.Merchant.two_digits robotsyes.Chitgate.Merchant.challenge_from
    robotsyes.Chitgate.Merchant.conclude robotsyes.Chitgate.Credential.field
    robotsyes.Chitgate.Credential.as_object robotsyes.Chitgate.Credential.as_string
    robotsyes.Chitgate.Credential.first_object robotsyes.Chitgate.Credential.credential_decoders
    robotsyes.Chitgate.Credential.decode_credential_json
    robotsyes.Chitgate.Credential.decode_x402_nonce
    robotsyes.Chitgate.Credential.validate_credential robotsyes.Chitgate.Merchant.cents_to_amount
    robotsyes.Chitgate.Merchant.new robotsyes.Chitgate.Merchant.mint_requirements
    robotsyes.Chitgate.Merchant.settle_at robotsyes.Chitgate.Merchant.settle
    robotsyes.Chitgate.Merchant.claimed robotsyes.Chitgate.Merchant.require_payment
    robotsyes.Recency.find robotsyes.Recency.remove robotsyes.Recency.move_to_front
    robotsyes.Recency.set_value robotsyes.Recency.back robotsyes.Recency.element
    robotsyes.Recency.push robotsyes.Recency.remove_element robotsyes.Recency.evict_over
    robotsyes.Base.Assoc.get robotsyes.Base.Assoc.delete robotsyes.Base.Assoc.put
    robotsyes.Chitgate.ReplayCache.Spent.step robotsyes.Chitgate.ReplayCache.Spent.after
    robotsyes.Base.Int.◌-ℤ◌ robotsyes.Base.Int.◌*ℤ◌ robotsyes.Base.Int.◌+ℤ◌
settled_once_example =
    settled_once rail rail 3 9 (reserve_at 5 (codes "n2") ∷ []) paid_request merchant settlement
      (release_of (codes "n1") ∷ []) 70 80 [] paid_request payer payer (codes "n1") merchant-IsValid
      valid is_settled (omega arith, tt) (refl, tt) (omega arith) (omega arith) refl valid
