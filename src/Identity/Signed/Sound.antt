-- ===== src/Identity/Signed/Sound.antt =====
-- What the verified tier means, and what a failed check leaves alone.
use robotsyes.Base.{
  Bytes, true, false, Option, none, some, [], ◌≡◌, refl, arith, equal, Option-cases, Bool-cases,
  inl, inr,
}
use robotsyes.Identity.{verified, Request, signature_agent_header, unquote_signature_agent}
use robotsyes.Identity.Card.{Card}
use robotsyes.Identity.NonceCache
use robotsyes.Identity.NonceCache.{NonceCache}
use robotsyes.Identity.SignatureInput.{
  signature_input_header, signature_header, SigParams, parse_signature_input, signature_base,
}
use robotsyes.Identity.Freshness.{within_skew, within_validity}
use robotsyes.Identity.Signed.{
  Platform, Clock, SignedVerifier, public_key, card_agent_id, fetch, check_card,
  verify_against_card, read_signature, spend_nonce, verify_signature, pre_allow, graded,
  verify_agent, verify,
}

module _ (pf : Platform) (t : Clock) (r : Request) where
  -- The evidence behind a verified identity `id`: the request carries a signature that is fresh
  -- and valid, over its host and the claimed agent, by a key that the agent's card lists under
  -- the key id of the signature.
  pub record Signed (v : SignedVerifier) (agent_url id : Bytes) : Type 0 where
    pub params : SigParams
    pub signature : Bytes
    pub card : Card
    pub key : Bytes
    pub parsed : parse_signature_input (r.header signature_input_header) ≡ some params
    pub decoded : pf.base64_std (r.header signature_header) ≡ some signature
    pub fresh : within_skew v.max_skew t.wall params.created ≡ true
    pub valid : within_validity v.max_validity t.wall params ≡ true
    pub fetched : (fetch pf t.mono agent_url v.cards).1 ≡ some card
    pub listed : public_key pf.base64_raw_url params.key_id card ≡ some key
    pub checks : pf.ed25519_verify key (signature_base pf.quote r agent_url params) signature ≡ true
    pub named : id ≡ card_agent_id agent_url card
    pub unspent : (NonceCache.seen t.mono params.nonce v.nonces).1 ≡ false

  pub read_signature_lem :
      (v : SignedVerifier) {p : SigParams} {sig : Bytes}
      → read_signature pf t r v ≡ some (p, sig)
      → (parse_signature_input (r.header signature_input_header) ≡ some p)
        × (pf.base64_std (r.header signature_header) ≡ some sig)
        × (within_skew v.max_skew t.wall p.created ≡ true)
        × (within_validity v.max_validity t.wall p ≡ true)
  unfolding read_signature
  read_signature_lem v h = ground arith

  pub check_card_lem :
      (agent_url : Bytes) (p : SigParams) (sig : Bytes) (card : Card) {id : Bytes}
      → check_card pf r agent_url p sig card ≡ some id
      → (key : Bytes) × (public_key pf.base64_raw_url p.key_id card ≡ some key)
        × (pf.ed25519_verify key (signature_base pf.quote r agent_url p) sig ≡ true)
        × (id ≡ card_agent_id agent_url card)
  unfolding check_card
  check_card_lem agent_url p sig card h =
      elim (Option-cases (public_key pf.base64_raw_url p.key_id card)) [
        | inl missing ↦ absurd (ground arith)
        | inr (key, listed) ↦ (key, listed, ground arith, ground arith)
      ]

  verify_signature_lem :
      (v : SignedVerifier) (agent_url : Bytes) {id : Bytes}
      → (verify_signature pf t r agent_url v).1 ≡ some id
      → Signed v agent_url id
  unfolding verify_signature verify_against_card spend_nonce
  verify_signature_lem v agent_url {id} h = elim (Option-cases (read_signature pf t r v)) [
    | inl missing ↦ absurd (ground arith)
    | inr ((p, sig), read) ↦ elim (Option-cases (fetch pf t.mono agent_url v.cards).1) [
      | inl missing ↦ absurd (ground arith)
      | inr (card, fetched) ↦ elim (Option-cases (check_card pf r agent_url p sig card)) [
        | inl missing ↦ absurd (ground arith)
        | inr (agent, checked) ↦
            let (parsed, decoded, fresh, valid) = read_signature_lem v read in
            let (key, listed, checks, named) = check_card_lem agent_url p sig card checked in
            record {
              params = p;
              signature = sig;
              card = card;
              key = key;
              parsed = parsed;
              decoded = decoded;
              fresh = fresh;
              valid = valid;
              fetched = fetched;
              listed = listed;
              checks = checks;
              named = ground arith;
              unspent = ground arith;
            }
      ]
    ]
  ]

  pub pre_allow_keeps :
      (v : SignedVerifier)
      → ((pre_allow pf t.mono r v).0.cards ≡ v.cards)
        × ((pre_allow pf t.mono r v).0.nonces ≡ v.nonces)
        × ((pre_allow pf t.mono r v).0.max_skew ≡ v.max_skew)
        × ((pre_allow pf t.mono r v).0.max_validity ≡ v.max_validity)
  unfolding pre_allow
  pre_allow_keeps v = elim (Option-cases v.pre_verify) [
    | inl off ↦ (ground arith, ground arith, ground arith, ground arith)
    | inr (l, on) ↦ (ground arith, ground arith, ground arith, ground arith)
  ]

  -- the throttle changes nothing that the signature check reads
  Signed-pre_allow :
      (v : SignedVerifier) {agent_url id : Bytes}
      → Signed (pre_allow pf t.mono r v).0 agent_url id
      → Signed v agent_url id
  Signed-pre_allow v s =
      let (cards, nonces, skew, validity) = pre_allow_keeps v in
      record {
        params = s.params;
        signature = s.signature;
        card = s.card;
        key = s.key;
        parsed = s.parsed;
        decoded = s.decoded;
        fresh = cc (s.fresh, skew);
        valid = cc (s.valid, validity);
        fetched = cc (s.fetched, cards);
        listed = s.listed;
        checks = s.checks;
        named = s.named;
        unspent = cc (s.unspent, nonces);
      }

  pub verified_graded :
      (agent_url : Bytes) (g : SignedVerifier × Option Bytes)
      → (graded pf agent_url g).1.tier ≡ verified
      → g.1 ≡ some (graded pf agent_url g).1.agent_id
  unfolding graded
  verified_graded agent_url (v, none) h = absurd (ground arith)
  verified_graded agent_url (v, some id) h = refl

  pub verify_runs :
      (v : SignedVerifier) {agent_url : Bytes}
      → unquote_signature_agent (r.header signature_agent_header) ≡ some agent_url
      → equal agent_url [] ≡ false
      → (pre_allow pf t.mono r v).1 ≡ true
      → verify pf t r v
        ≡ graded pf agent_url (verify_signature pf t r agent_url (pre_allow pf t.mono r v).0)
  unfolding verify verify_agent
  verify_runs v named nonempty allowed =
      rw (named, verify) (rw (nonempty, verify) (rw (allowed, verify_agent)))

  -- A request is granted the tier verified only on this evidence: its Signature-Agent header names
  -- an agent, its Signature-Input header parses, the signature is fresh and within its validity,
  -- the agent's card is fetched and lists under the signature's key id a key by which the signature
  -- of the signature base checks, and the nonce was not seen before. The granted identity is the
  -- one the card gives itself.
  pub verified-Signed :
      (v : SignedVerifier)
      → (verify pf t r v).1.tier ≡ verified
      → (agent_url : Bytes) × (unquote_signature_agent (r.header signature_agent_header)
          ≡ some agent_url)
        × Signed v agent_url (verify pf t r v).1.agent_id
  unfolding verify verify_agent
  verified-Signed v h =
      elim (Option-cases (unquote_signature_agent (r.header signature_agent_header))) [
        | inl missing ↦ absurd (ground arith)
        | inr (agent_url, named) ↦ elim (Bool-cases (equal agent_url [])) [
          | inl empty ↦ absurd (ground arith)
          | inr nonempty ↦ elim (Bool-cases (pre_allow pf t.mono r v).1) [
            | inr throttled ↦ absurd (ground arith)
            | inl allowed ↦
                let is = verify_runs v named nonempty allowed in
                let v' = (pre_allow pf t.mono r v).0 in
                let checked =
                  verified_graded agent_url (verify_signature pf t r agent_url v') (rw is at h) in
                (
                  agent_url,
                  named,
                  rw is (Signed-pre_allow v (verify_signature_lem v' agent_url checked)),
                )
          ]
        ]
      ]
