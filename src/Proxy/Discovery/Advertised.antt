-- ===== src/Proxy/Discovery/Advertised.antt =====
-- What the discovery document says of the identities that the server grants.
use robotsyes.Base.{
  inl, inr, Bytes, Bool, true, false, List, [], ◌∷◌, ◌≡◌, refl, equal, Option-cases, ◌||◌,
}
use robotsyes.Identity.{
  Tier, unverified, declared, verified, tier_name, Request, noop_verify, declared_verify,
  unquote_signature_agent, signature_agent_header,
}
use robotsyes.Identity.Signed.{Platform, Clock}
use robotsyes.Proxy.Discovery.{
  Verifier, noop, declared_only, signed_by, verify, tier_names, identity_capabilities,
}

-- whether a list of methods names a tier
abbrev pub lists : Bytes → List Bytes → Bool
lists m [] = false
lists m (n ∷ ns) = equal n m || lists m ns

all_tiers_listed :
    (tier : Tier)
    → lists (tier_name tier) (tier_names (unverified ∷ declared ∷ verified ∷ [])) ≡ true
unfolding tier_names tier_name equal
all_tiers_listed unverified = refl
all_tiers_listed declared = refl
all_tiers_listed verified = refl

declared_listed :
    (r : Request)
    → lists (tier_name (declared_verify r).tier) (tier_names (unverified ∷ declared ∷ [])) ≡ true
unfolding declared_verify tier_names tier_name equal
declared_listed r =
    elim (Option-cases (unquote_signature_agent (r.header signature_agent_header))) [
      | inl missing ↦ rw (missing, declared_verify) refl
      | inr (id, named) ↦ rw (named, declared_verify) refl
    ]

noop_listed :
    (r : Request) → lists (tier_name (noop_verify r).tier) (tier_names (unverified ∷ [])) ≡ true
unfolding noop_verify tier_names tier_name equal
noop_listed r = refl

-- Every tier that the server's verifier grants to a request is one of the methods that the
-- discovery document names, and the request does not change what the document says of the
-- identities.
pub granted_advertised :
    (pf : Platform) (t : Clock) (r : Request) (v : Verifier)
    → (lists (tier_name (verify pf t r v).1.tier) (identity_capabilities v).methods ≡ true)
      × (identity_capabilities (verify pf t r v).0 ≡ identity_capabilities v)
unfolding verify identity_capabilities
granted_advertised pf t r noop = (noop_listed r, refl)
granted_advertised pf t r declared_only = (declared_listed r, refl)
granted_advertised pf t r (signed_by v) = (all_tiers_listed _, refl)
