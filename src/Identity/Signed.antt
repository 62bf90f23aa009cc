-- ===== src/Identity/Signed.antt =====
-- internal/identity/signed.go: the fetcher of cards, and the verifier that checks signatures.
-- What the network and the packages net, net/url, encoding/json, encoding/base64, fmt and
-- crypto/ed25519 answer is the record `Platform`. The clocks are read once for a request.
pub mod Sound
pub mod Spending
pub mod Replay
use robotsyes.Base.{
  ℕ, ◌*◌, Bytes, Bool, true, false, not, ◌&&◌, ◌||◌, Option, none, some, List, [], ◌∷◌, codes,
  equal, length, ◌==◌, if◌then◌else◌,
}
use robotsyes.Base.Int.{ℤ, pos}
use robotsyes.Httpx.{Response, ok, err, get_bounded, remote_ip}
use robotsyes.Ratelimit
use robotsyes.Ratelimit.{Limiter}
use robotsyes.Identity.{
  declared, verified, Identity, Request, anonymous, signature_agent_header, unquote_signature_agent,
}
use robotsyes.Identity.Card.{Jwk, Card}
use robotsyes.Identity.CardCache
use robotsyes.Identity.CardCache.{CardCache}
use robotsyes.Identity.NonceCache
use robotsyes.Identity.NonceCache.{NonceCache}
use robotsyes.Identity.SignatureInput.{
  signature_input_header, signature_header, SigParams, parse_signature_input, signature_base,
}
use robotsyes.Identity.Freshness.{second, within_skew, within_validity}

pub record Url : Type 0 where
  pub scheme : Bytes
  pub url_host : Bytes

pub record Platform : Type 0 where
  pub split_host_port : Bytes → Option (Bytes × Bytes)
  pub parse_url : Bytes → Option Url
  pub get : Bytes → Option Response
  pub decode_card : Bytes → Option Card
  pub base64_std : Bytes → Option Bytes
  pub base64_raw_url : Bytes → Option Bytes
  pub quote : Bytes → Bytes
  pub ed25519_verify : Bytes → Bytes → Bytes → Bool

-- the monotonic and the wall clock, in nanoseconds
pub record Clock : Type 0 where
  pub mono : ℕ
  pub wall : ℕ

pub record SignedVerifier : Type 0 where
  pub cards : CardCache
  pub nonces : NonceCache
  pub max_skew : ℤ
  pub max_validity : ℤ
  pub pre_verify : Option Limiter

-- Which keys a card may verify with.
unfoldable pub is_usable : Bytes → Jwk → Bool
is_usable key_id k =
    equal k.kid key_id && (equal k.kty (codes "OKP") && equal k.crv (codes "Ed25519"))

abbrev pub public_key_size : ℕ
public_key_size = 32

unfoldable pub sized_key : Option Bytes → Option Bytes
sized_key none = none
sized_key (some raw) = if length raw == public_key_size then some raw else none

-- the loop of `Card.publicKey`: the first usable key decides
unfoldable pub first_key : (Bytes → Option Bytes) → Bytes → List Jwk → Option Bytes
first_key decode key_id [] = none
first_key decode key_id (k ∷ ks) =
    let rest = first_key decode key_id ks in
    if is_usable key_id k then sized_key (decode k.x) else rest

unfoldable pub public_key : (Bytes → Option Bytes) → Bytes → Card → Option Bytes
public_key decode key_id c = first_key decode key_id c.keys

-- `Card.agentID`
unfoldable pub card_agent_id : Bytes → Card → Bytes
card_agent_id card_url c = if equal c.client_name [] then card_url else c.client_name

abbrev pub max_card_response_bytes : ℕ
max_card_response_bytes = 64 * 1024

abbrev pub pre_verify_tier : Bytes
pre_verify_tier = codes "presign"

abbrev pub max_pre_verify_attempts_per_minute : ℕ
max_pre_verify_attempts_per_minute = 120

-- `NewSignedVerifier`, over the cache of `NewCardFetcher`
unfoldable pub new_signed_verifier : CardCache → SignedVerifier
new_signed_verifier cards = record {
  cards = cards;
  nonces = NonceCache.new (pos NonceCache.default_max_entries) (300 * second);
  max_skew = pos (300 * second);
  max_validity = pos (300 * second);
  pre_verify = some (
      Ratelimit.new
        ((pre_verify_tier, record { requests_per_minute = pos max_pre_verify_attempts_per_minute })
          ∷ [])
        (pos 0));
}

module _ (pf : Platform) where
  unfoldable pub validate_card_url : Bytes → Bool
  validate_card_url raw_url = elim (pf.parse_url raw_url) [
    | none ↦ false
    | some u ↦ equal u.scheme (codes "https") && not (equal u.url_host [])
  ]

  -- the part of `Fetch` behind a miss of the cache
  unfoldable pub fetch_fresh : ℕ → Bytes → CardCache → CardCache × Option Card
  fetch_fresh now url cache = elim (get_bounded pf.get url max_card_response_bytes) [
    | err e ↦ (cache, none)
    | ok body ↦ elim (pf.decode_card body) [
      | none ↦ (cache, none)
      | some card ↦ (CardCache.put now url card cache, some card)
    ]
  ]

  unfoldable pub fetch : ℕ → Bytes → CardCache → CardCache × Option Card
  fetch now url cache =
      if validate_card_url url
      then (let (cache', hit) = CardCache.get now url cache in
          elim hit [ some card ↦ (cache', some card) | none ↦ fetch_fresh now url cache' ])
      else (cache, none)

  -- the part of `verifyAgainstCard` behind the fetch
  unfoldable pub check_card : Request → Bytes → SigParams → Bytes → Card → Option Bytes
  check_card r agent_url p sig card = elim (public_key pf.base64_raw_url p.key_id card) [
    | none ↦ none
    | some key ↦
        if pf.ed25519_verify key (signature_base pf.quote r agent_url p) sig
        then some (card_agent_id agent_url card)
        else none
  ]

  unfoldable pub verify_against_card :
      ℕ → Request → Bytes → SigParams → Bytes → CardCache → CardCache × Option Bytes
  verify_against_card now r agent_url p sig cache =
      let (cache', fetched) = fetch now agent_url cache in
      (cache', elim fetched [ none ↦ none | some card ↦ check_card r agent_url p sig card ])

  -- what `verifySignature` reads of the headers: the parameters and the signature
  unfoldable pub read_signature : Clock → Request → SignedVerifier → Option (SigParams × Bytes)
  read_signature t r v =
      let sig_input = r.header signature_input_header in
      let sig = r.header signature_header in
      if equal sig_input [] || equal sig [] then none else elim (parse_signature_input sig_input) [
        | none ↦ none
        | some p ↦
            if within_skew v.max_skew t.wall p.created && within_validity v.max_validity t.wall p
            then (elim (pf.base64_std sig) [ none ↦ none | some bytes ↦ some (p, bytes) ])
            else none
      ]

  -- the part of `verifySignature` behind the check of the card
  unfoldable pub spend_nonce : ℕ → Bytes → Bytes → SignedVerifier → SignedVerifier × Option Bytes
  spend_nonce now nonce agent_id v =
      let (nonces, seen) = NonceCache.seen now nonce v.nonces in
      (record v { nonces = nonces }, if seen then none else some agent_id)

  unfoldable pub verify_signature :
      Clock → Request → Bytes → SignedVerifier → SignedVerifier × Option Bytes
  verify_signature t r agent_url v = elim (read_signature t r v) [
    | none ↦ (v, none)
    | some (p, sig) ↦
        let (cards, checked) = verify_against_card t.mono r agent_url p sig v.cards in
        let v' = record v { cards = cards } in
        elim checked [ none ↦ (v', none) | some agent_id ↦ spend_nonce t.mono p.nonce agent_id v' ]
  ]

  -- `v.preVerify != nil && !v.preVerify.Allow(...)`, negated
  unfoldable pub pre_allow : ℕ → Request → SignedVerifier → SignedVerifier × Bool
  pre_allow now r v = elim v.pre_verify [
    | none ↦ (v, true)
    | some l ↦
        let (l', allowed) =
          Ratelimit.allow now pre_verify_tier (remote_ip pf.split_host_port r.remote_addr) l in
        (record v { pre_verify = some l' }, allowed)
  ]

  abbrev pub claim : Bytes → Identity
  claim agent_url = record { tier = declared; agent_id = agent_url }

  unfoldable pub graded : Bytes → SignedVerifier × Option Bytes → SignedVerifier × Identity
  graded agent_url (v, none) = (v, claim agent_url)
  graded agent_url (v, some agent_id) = (v, record { tier = verified; agent_id = agent_id })

  unfoldable pub verify_agent : Clock → Request → Bytes → SignedVerifier → SignedVerifier × Identity
  verify_agent t r agent_url v =
      let (v', allowed) = pre_allow t.mono r v in
      if allowed
      then graded agent_url (verify_signature t r agent_url v')
      else (v', claim agent_url)

  unfoldable pub verify : Clock → Request → SignedVerifier → SignedVerifier × Identity
  verify t r v = elim (unquote_signature_agent (r.header signature_agent_header)) [
    | none ↦ (v, anonymous)
    | some agent_url ↦ if equal agent_url [] then (v, anonymous) else verify_agent t r agent_url v
  ]
