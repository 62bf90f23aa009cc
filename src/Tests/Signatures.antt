-- ===== src/Tests/Signatures.antt =====
-- internal/identity/signed.go at concrete inputs.
use robotsyes.Base.{
  ℕ, ◌+◌, ◌*◌, ◌/◌, ◌≤◌, Bytes, true, false, some, [], ◌∷◌, ◌≡◌, ◌≢◌, ◌↔◌, refl, codes, arith,
  equal, if◌then◌else◌,
}
use robotsyes.Base.Int.{pos}
use robotsyes.Identity.{
  verified, Identity, Request, unquote_signature_agent, signature_agent_header,
}
use robotsyes.Identity.Card.{Card, Jwk}
use robotsyes.Identity.CardCache
use robotsyes.Identity.NonceCache
use robotsyes.Identity.NonceCache.Laws as NonceLaws
use robotsyes.Identity.SignatureInput.{SigParams, parse_signature_input}
use robotsyes.Identity.Freshness.{
  second, within_skew, within_validity, within_skew_exact, within_skew_far_future,
  within_validity_exact, within_validity_wraps,
}
use robotsyes.Identity.Signed.{Platform, Clock, SignedVerifier, new_signed_verifier, verify}
use robotsyes.Identity.Signed.Sound.{Signed, verified-Signed}
use robotsyes.Identity.Signed.Replay.{after_visits, verified_once}

abbrev agent : Bytes
agent = codes "https://a.example/card"

abbrev key : Bytes
key = codes "0123456789abcdef0123456789abcdef"

abbrev jwk : Jwk
jwk = record { kty = codes "OKP"; crv = codes "Ed25519"; kid = codes "k1"; x = key; use_for = [] }

abbrev card : Card
card = record { client_name = codes "bot"; keys = jwk ∷ [] }

-- a network on which the agent's card is found, and a signature that is the text "sig"
abbrev platform : Platform
platform = record {
  split_host_port = λ a. some (a, []);
  parse_url = λ u. some (record { scheme = codes "https"; url_host = codes "a.example" });
  get = λ u. some (record { status = 200; body = codes "card"; broken = false });
  decode_card = λ b. some card;
  base64_std = λ s. some s;
  base64_raw_url = λ s. some s;
  quote = λ s. s;
  ed25519_verify = λ k message sig. equal sig (codes "sig");
}

abbrev pub list_and_params : Bytes
list_and_params =
    codes
      "(\"@authority\" \"signature-agent\");created=1000;expires=1100;keyid=\"k1\";alg=\"ed25519\";nonce=\"n1\";tag=\"web-bot-auth\""

abbrev pub sig_input : Bytes
sig_input =
    codes
      "sig=(\"@authority\" \"signature-agent\");created=1000;expires=1100;keyid=\"k1\";alg=\"ed25519\";nonce=\"n1\";tag=\"web-bot-auth\""

abbrev pub header : Bytes → Bytes
header name =
    if equal name (codes "Signature-Agent")
    then codes "\"https://a.example/card\""
    else (if equal name (codes "Signature-Input") then sig_input else codes "sig")

abbrev pub request : Request
request = record {
  host = codes "h";
  path = codes "/";
  remote_addr = codes "1.2.3.4";
  header = header;
}

abbrev clock : Clock
clock = record { mono = 7; wall = 1000 * second }

abbrev later : Clock
later = record { mono = 100 * second; wall = 1100 * second }

abbrev verifier : SignedVerifier
verifier = new_signed_verifier (CardCache.new (pos 10) (300 * second))

abbrev pub params : SigParams
params = record {
  covers_signature_agent = true;
  agent_label = [];
  created = pos 1000;
  expires = pos 1100;
  key_id = codes "k1";
  nonce = codes "n1";
  raw = list_and_params;
}

pub parsed : parse_signature_input (request.header (codes "Signature-Input")) ≡ some params
unfolding robotsyes.Base.equal robotsyes.Base.cut_prefix robotsyes.Base.has_prefix
    robotsyes.Base.trim_prefix robotsyes.Base.has_suffix robotsyes.Base.trim_suffix
    robotsyes.Base.cut robotsyes.Base.split robotsyes.Base.join robotsyes.Base.trim_left
    robotsyes.Base.trim_right robotsyes.Base.trim robotsyes.Base.trim_space robotsyes.Base.to_lower
    robotsyes.Base.equal_fold robotsyes.Base.Assoc.get robotsyes.Base.Assoc.delete
    robotsyes.Base.Assoc.put robotsyes.Identity.SignatureInput.digits_value
    robotsyes.Identity.SignatureInput.parse_digits robotsyes.Identity.SignatureInput.parse_int
    robotsyes.Identity.SignatureInput.authority_only
    robotsyes.Identity.SignatureInput.authority_and_agent
    robotsyes.Identity.SignatureInput.labelled_prefix robotsyes.Identity.SignatureInput.quote_mark
    robotsyes.Identity.SignatureInput.parse_component_list
    robotsyes.Identity.SignatureInput.collect_params robotsyes.Identity.SignatureInput.param
    robotsyes.Identity.SignatureInput.wba_algorithm robotsyes.Identity.SignatureInput.wba_tag
    robotsyes.Identity.SignatureInput.has_required
    robotsyes.Identity.SignatureInput.parse_signature_params
    robotsyes.Identity.SignatureInput.split_list
    robotsyes.Identity.SignatureInput.parse_signature_input
    robotsyes.Identity.SignatureInput.agent_line robotsyes.Identity.SignatureInput.signature_base
parsed = refl

is_verified : (verify platform clock request verifier).1.tier ≡ verified
unfolding robotsyes.Base.equal robotsyes.Base.cut_prefix robotsyes.Base.has_prefix
    robotsyes.Base.trim_prefix robotsyes.Base.has_suffix robotsyes.Base.trim_suffix
    robotsyes.Base.cut robotsyes.Base.split robotsyes.Base.join robotsyes.Base.trim_left
    robotsyes.Base.trim_right robotsyes.Base.trim robotsyes.Base.trim_space robotsyes.Base.to_lower
    robotsyes.Base.equal_fold robotsyes.Base.Assoc.get robotsyes.Base.Assoc.delete
    robotsyes.Base.Assoc.put robotsyes.Base.Int.word64 robotsyes.Base.Int.signed64
    robotsyes.Base.Int.wrap64 robotsyes.Base.Int.positive_or robotsyes.Identity.tier_name
    robotsyes.Identity.noop_verify robotsyes.Identity.signature_agent_header
    robotsyes.Identity.drop_label robotsyes.Identity.unquote
    robotsyes.Identity.unquote_signature_agent robotsyes.Identity.declared_verify
    robotsyes.Identity.SignatureInput.digits_value robotsyes.Identity.SignatureInput.parse_digits
    robotsyes.Identity.SignatureInput.parse_int robotsyes.Identity.SignatureInput.authority_only
    robotsyes.Identity.SignatureInput.authority_and_agent
    robotsyes.Identity.SignatureInput.labelled_prefix robotsyes.Identity.SignatureInput.quote_mark
    robotsyes.Identity.SignatureInput.parse_component_list
    robotsyes.Identity.SignatureInput.collect_params robotsyes.Identity.SignatureInput.param
    robotsyes.Identity.SignatureInput.wba_algorithm robotsyes.Identity.SignatureInput.wba_tag
    robotsyes.Identity.SignatureInput.has_required
    robotsyes.Identity.SignatureInput.parse_signature_params
    robotsyes.Identity.SignatureInput.split_list
    robotsyes.Identity.SignatureInput.parse_signature_input
    robotsyes.Identity.SignatureInput.agent_line robotsyes.Identity.SignatureInput.signature_base
    robotsyes.Identity.Freshness.time_unix robotsyes.Identity.Freshness.saturate64
    robotsyes.Identity.Freshness.time_since robotsyes.Identity.Freshness.negate64
    robotsyes.Identity.Freshness.within_skew robotsyes.Identity.Freshness.validity_window
    robotsyes.Identity.Freshness.within_validity robotsyes.Identity.Signed.is_usable
    robotsyes.Identity.Signed.sized_key robotsyes.Identity.Signed.first_key
    robotsyes.Identity.Signed.public_key robotsyes.Identity.Signed.card_agent_id
    robotsyes.Identity.Signed.new_signed_verifier robotsyes.Identity.Signed.validate_card_url
    robotsyes.Identity.Signed.fetch_fresh robotsyes.Identity.Signed.fetch
    robotsyes.Identity.Signed.check_card robotsyes.Identity.Signed.verify_against_card
    robotsyes.Identity.Signed.read_signature robotsyes.Identity.Signed.spend_nonce
    robotsyes.Identity.Signed.verify_signature robotsyes.Identity.Signed.pre_allow
    robotsyes.Identity.Signed.graded robotsyes.Identity.Signed.verify_agent
    robotsyes.Identity.Signed.verify robotsyes.Identity.CardCache.new
    robotsyes.Identity.CardCache.remove_element robotsyes.Identity.CardCache.get
    robotsyes.Identity.CardCache.put robotsyes.Identity.CardCache.len
    robotsyes.Identity.NonceCache.new robotsyes.Identity.NonceCache.remove_element
    robotsyes.Identity.NonceCache.insert robotsyes.Identity.NonceCache.seen
    robotsyes.Identity.NonceCache.len robotsyes.Ratelimit.new robotsyes.Ratelimit.published
    robotsyes.Ratelimit.full_key robotsyes.Ratelimit.first_bucket robotsyes.Ratelimit.refill
    robotsyes.Ratelimit.take_token robotsyes.Ratelimit.allow_key robotsyes.Ratelimit.allow_limit
    robotsyes.Ratelimit.allow robotsyes.Ratelimit.remove_element robotsyes.Ratelimit.len
    robotsyes.Recency.find robotsyes.Recency.remove robotsyes.Recency.move_to_front
    robotsyes.Recency.set_value robotsyes.Recency.back robotsyes.Recency.element
    robotsyes.Recency.push robotsyes.Recency.remove_element robotsyes.Recency.evict_over
    robotsyes.Httpx.read_limited robotsyes.Httpx.get_bounded robotsyes.Httpx.remote_ip
    robotsyes.Base.Int.◌-ℤ◌ robotsyes.Base.Int.◌*ℤ◌ robotsyes.Base.Int.◌+ℤ◌
is_verified = refl

verified-Signed_example :
    (agent_url : Bytes) × (unquote_signature_agent (request.header signature_agent_header)
      ≡ some agent_url)
    × Signed platform clock request verifier agent_url
        (verify platform clock request verifier).1.agent_id
verified-Signed_example = verified-Signed platform clock request verifier is_verified

verifier-IsValid : NonceLaws.IsValid verifier.nonces
unfolding new_signed_verifier
verifier-IsValid = (NonceLaws.new-IsValid (pos NonceCache.default_max_entries) (300 * second)).0

verified_once_example :
    (verify platform later request (
      after_visits
        ((platform, clock, request) ∷ [])
        (verify platform clock request verifier).0)).1.tier
    ≢ verified
unfolding new_signed_verifier NonceCache.new robotsyes.Base.Int.positive_or
verified_once_example =
    verified_once platform platform clock later request request verifier
      ((platform, clock, request) ∷ []) params params verifier-IsValid is_verified parsed parsed
      refl (omega arith, tt) (omega arith) (omega arith)

-- A signature of which the creation is 250 seconds ahead.
abbrev ahead_input : Bytes
ahead_input =
    codes
      "sig=(\"@authority\" \"signature-agent\");created=1250;expires=1500;keyid=\"k1\";alg=\"ed25519\";nonce=\"n1\";tag=\"web-bot-auth\""

abbrev ahead_header : Bytes → Bytes
ahead_header name = if equal name (codes "Signature-Input") then ahead_input else header name

abbrev ahead_request : Request
ahead_request = record request { header = ahead_header }

-- after the nonce's time to live
abbrev after_ttl : Clock
after_ttl = record { mono = 310 * second; wall = 1310 * second }

-- The cache forgets the nonce of the request while its signature is still fresh: shown again, it
-- is verified again.
replayed_after_ttl :
    ((verify platform clock ahead_request verifier).1.tier ≡ verified)
    × ((verify platform after_ttl ahead_request
          (verify platform clock ahead_request verifier).0).1.tier
        ≡ verified)
unfolding robotsyes.Base.equal robotsyes.Base.cut_prefix robotsyes.Base.has_prefix
    robotsyes.Base.trim_prefix robotsyes.Base.has_suffix robotsyes.Base.trim_suffix
    robotsyes.Base.cut robotsyes.Base.split robotsyes.Base.join robotsyes.Base.trim_left
    robotsyes.Base.trim_right robotsyes.Base.trim robotsyes.Base.trim_space robotsyes.Base.to_lower
    robotsyes.Base.equal_fold robotsyes.Base.Assoc.get robotsyes.Base.Assoc.delete
    robotsyes.Base.Assoc.put robotsyes.Base.Int.word64 robotsyes.Base.Int.signed64
    robotsyes.Base.Int.wrap64 robotsyes.Base.Int.positive_or robotsyes.Identity.tier_name
    robotsyes.Identity.noop_verify robotsyes.Identity.signature_agent_header
    robotsyes.Identity.drop_label robotsyes.Identity.unquote
    robotsyes.Identity.unquote_signature_agent robotsyes.Identity.declared_verify
    robotsyes.Identity.SignatureInput.digits_value robotsyes.Identity.SignatureInput.parse_digits
    robotsyes.Identity.SignatureInput.parse_int robotsyes.Identity.SignatureInput.authority_only
    robotsyes.Identity.SignatureInput.authority_and_agent
    robotsyes.Identity.SignatureInput.labelled_prefix robotsyes.Identity.SignatureInput.quote_mark
    robotsyes.Identity.SignatureInput.parse_component_list
    robotsyes.Identity.SignatureInput.collect_params robotsyes.Identity.SignatureInput.param
    robotsyes.Identity.SignatureInput.wba_algorithm robotsyes.Identity.SignatureInput.wba_tag
    robotsyes.Identity.SignatureInput.has_required
    robotsyes.Identity.SignatureInput.parse_signature_params
    robotsyes.Identity.SignatureInput.split_list
    robotsyes.Identity.SignatureInput.parse_signature_input
    robotsyes.Identity.SignatureInput.agent_line robotsyes.Identity.SignatureInput.signature_base
    robotsyes.Identity.Freshness.time_unix robotsyes.Identity.Freshness.saturate64
    robotsyes.Identity.Freshness.time_since robotsyes.Identity.Freshness.negate64
    robotsyes.Identity.Freshness.within_skew robotsyes.Identity.Freshness.validity_window
    robotsyes.Identity.Freshness.within_validity robotsyes.Identity.Signed.is_usable
    robotsyes.Identity.Signed.sized_key robotsyes.Identity.Signed.first_key
    robotsyes.Identity.Signed.public_key robotsyes.Identity.Signed.card_agent_id
    robotsyes.Identity.Signed.new_signed_verifier robotsyes.Identity.Signed.validate_card_url
    robotsyes.Identity.Signed.fetch_fresh robotsyes.Identity.Signed.fetch
    robotsyes.Identity.Signed.check_card robotsyes.Identity.Signed.verify_against_card
    robotsyes.Identity.Signed.read_signature robotsyes.Identity.Signed.spend_nonce
    robotsyes.Identity.Signed.verify_signature robotsyes.Identity.Signed.pre_allow
    robotsyes.Identity.Signed.graded robotsyes.Identity.Signed.verify_agent
    robotsyes.Identity.Signed.verify robotsyes.Identity.CardCache.new
    robotsyes.Identity.CardCache.remove_element robotsyes.Identity.CardCache.get
    robotsyes.Identity.CardCache.put robotsyes.Identity.CardCache.len
    robotsyes.Identity.NonceCache.new robotsyes.Identity.NonceCache.remove_element
    robotsyes.Identity.NonceCache.insert robotsyes.Identity.NonceCache.seen
    robotsyes.Identity.NonceCache.len robotsyes.Ratelimit.new robotsyes.Ratelimit.published
    robotsyes.Ratelimit.full_key robotsyes.Ratelimit.first_bucket robotsyes.Ratelimit.refill
    robotsyes.Ratelimit.take_token robotsyes.Ratelimit.allow_key robotsyes.Ratelimit.allow_limit
    robotsyes.Ratelimit.allow robotsyes.Ratelimit.remove_element robotsyes.Ratelimit.len
    robotsyes.Recency.find robotsyes.Recency.remove robotsyes.Recency.move_to_front
    robotsyes.Recency.set_value robotsyes.Recency.back robotsyes.Recency.element
    robotsyes.Recency.push robotsyes.Recency.remove_element robotsyes.Recency.evict_over
    robotsyes.Httpx.read_limited robotsyes.Httpx.get_bounded robotsyes.Httpx.remote_ip
    robotsyes.Base.Int.◌-ℤ◌ robotsyes.Base.Int.◌*ℤ◌ robotsyes.Base.Int.◌+ℤ◌
replayed_after_ttl = (refl, refl)
