-- ===== src/Identity/Signed/Spending.antt =====
-- The nonce that a request spends.
use robotsyes.Base.{
  Bytes, false, Option, none, some, [], ◌≡◌, ◌⊎◌, refl, ap, ◌∙◌, arith, equal, Option-cases,
  Bool-cases, inl, inr,
}
use robotsyes.Identity.{verified, Request, signature_agent_header, unquote_signature_agent}
use robotsyes.Identity.NonceCache
use robotsyes.Identity.NonceCache.{NonceCache}
use robotsyes.Identity.SignatureInput.{signature_input_header, SigParams, parse_signature_input}
use robotsyes.Identity.Signed.{
  Platform, Clock, SignedVerifier, verify_against_card, read_signature, spend_nonce,
  verify_signature, pre_allow, graded, verify_agent, verify,
}
use robotsyes.Identity.Signed.Sound.{
  pre_allow_keeps, verified_graded, verify_runs, read_signature_lem,
}

module _ (pf : Platform) where
  -- A check of a card that succeeded for the request, with the nonce that it spends.
  pub record Spends (t : Clock) (r : Request) (v : SignedVerifier) (nonces : NonceCache)
      : Type 0 where
    pub agent_url : Bytes
    pub params : SigParams
    pub signature : Bytes
    pub agent_id : Bytes
    pub read : read_signature pf t r v ≡ some (params, signature)
    pub checked :
        (verify_against_card pf t.mono r agent_url params signature v.cards).1 ≡ some agent_id
    pub spent : nonces ≡ (NonceCache.seen t.mono params.nonce v.nonces).0

  module _ (t : Clock) (r : Request) where
    verify_signature-Spends :
        (v : SignedVerifier) (agent_url : Bytes)
        → ((verify_signature pf t r agent_url v).0.nonces ≡ v.nonces)
          ⊎ Spends t r v (verify_signature pf t r agent_url v).0.nonces
    unfolding verify_signature spend_nonce
    verify_signature-Spends v agent_url = elim (Option-cases (read_signature pf t r v)) [
      | inl missing ↦ inl (ground arith)
      | inr ((p, sig), read) ↦
          elim (Option-cases (verify_against_card pf t.mono r agent_url p sig v.cards).1) [
            | inl refused ↦ inl (ground arith)
            | inr (id, checked) ↦ inr (record {
              agent_url = agent_url;
              params = p;
              signature = sig;
              agent_id = id;
              read = read;
              checked = checked;
              spent = ground arith;
            })
          ]
    ]

    nonces-graded :
        (agent_url : Bytes) (g : SignedVerifier × Option Bytes)
        → (graded pf agent_url g).0.nonces ≡ g.0.nonces
    unfolding graded
    nonces-graded agent_url (v, none) = refl
    nonces-graded agent_url (v, some id) = refl

    -- A request spends no nonce, unless its signature checks against the agent's card, and then
    -- it spends the nonce of that signature.
    pub verify-Spends :
        (v : SignedVerifier)
        → ((verify pf t r v).0.nonces ≡ v.nonces)
          ⊎ Spends t r (pre_allow pf t.mono r v).0 (verify pf t r v).0.nonces
    unfolding verify verify_agent
    verify-Spends v =
        let kept = (pre_allow_keeps pf t r v).1 in
        elim (Option-cases (unquote_signature_agent (r.header signature_agent_header))) [
          | inl missing ↦ inl (ground arith)
          | inr (agent_url, named) ↦ elim (Bool-cases (equal agent_url [])) [
            | inl empty ↦ inl (ground arith)
            | inr nonempty ↦ elim (Bool-cases (pre_allow pf t.mono r v).1) [
              | inr throttled ↦ inl (ground arith)
              | inl allowed ↦
                  let v' = (pre_allow pf t.mono r v).0 in
                  let is =
                    ap (λ p. p.0.nonces) (verify_runs pf t r v named nonempty allowed)
                    ∙ nonces-graded agent_url (verify_signature pf t r agent_url v') in
                  elim (verify_signature-Spends v' agent_url) [
                    | inl same ↦ inl (is ∙ same ∙ kept)
                    | inr spends ↦ inr (rw is spends)
                  ]
            ]
          ]
        ]

    -- What a verified request leaves behind: its nonce, which was free, is spent.
    pub record Spent (v : SignedVerifier) (nonces : NonceCache) : Type 0 where
      pub params : SigParams
      pub parsed : parse_signature_input (r.header signature_input_header) ≡ some params
      pub unspent : (NonceCache.seen t.mono params.nonce v.nonces).1 ≡ false
      pub spent : nonces ≡ (NonceCache.seen t.mono params.nonce v.nonces).0

    verify_signature-Spent :
        (v : SignedVerifier) (agent_url : Bytes) {id : Bytes}
        → (verify_signature pf t r agent_url v).1 ≡ some id
        → Spent v (verify_signature pf t r agent_url v).0.nonces
    unfolding verify_signature spend_nonce
    verify_signature-Spent v agent_url h = elim (Option-cases (read_signature pf t r v)) [
      | inl missing ↦ absurd (ground arith)
      | inr ((p, sig), read) ↦
          elim (Option-cases (verify_against_card pf t.mono r agent_url p sig v.cards).1) [
            | inl refused ↦ absurd (ground arith)
            | inr (id', checked) ↦ record {
              params = p;
              parsed = (read_signature_lem pf t r v read).0;
              unspent = ground arith;
              spent = ground arith;
            }
          ]
    ]

    pub verified-Spent :
        (v : SignedVerifier)
        → (verify pf t r v).1.tier ≡ verified
        → Spent v (verify pf t r v).0.nonces
    unfolding verify verify_agent
    verified-Spent v h =
        let kept = (pre_allow_keeps pf t r v).1 in
        elim (Option-cases (unquote_signature_agent (r.header signature_agent_header))) [
          | inl missing ↦ absurd (ground arith)
          | inr (agent_url, named) ↦ elim (Bool-cases (equal agent_url [])) [
            | inl empty ↦ absurd (ground arith)
            | inr nonempty ↦ elim (Bool-cases (pre_allow pf t.mono r v).1) [
              | inr throttled ↦ absurd (ground arith)
              | inl allowed ↦
                  let v' = (pre_allow pf t.mono r v).0 in
                  let runs = verify_runs pf t r v named nonempty allowed in
                  let done = verify_signature-Spent v' agent_url (
                    verified_graded pf t r agent_url (verify_signature pf t r agent_url v')
                      (rw runs at h)) in
                  record {
                    params = done.params;
                    parsed = done.parsed;
                    unspent = cc (done.unspent, kept);
                    spent =
                        ap (λ p. p.0.nonces) runs
                        ∙ nonces-graded agent_url (verify_signature pf t r agent_url v')
                        ∙ done.spent
                        ∙ ap (λ n. (NonceCache.seen t.mono done.params.nonce n).0) kept;
                  }
            ]
          ]
        ]
