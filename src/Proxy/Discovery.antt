-- ===== src/Proxy/Discovery.antt =====
-- internal/proxy/proxy.go: the discovery document, and the verifiers that it describes.
pub mod Advertised
use robotsyes.Base.{
  Bytes, Bool, true, false, Option, none, some, List, [], ◌∷◌, codes, map, if◌then◌else◌,
}
use robotsyes.Base.Assoc.{Assoc}
use robotsyes.Base.Int.{ℤ, pos}
use robotsyes.Identity.{
  Tier, unverified, declared, verified, tier_name, Identity, Request, noop_verify, declared_verify,
  signature_agent_header,
}
use robotsyes.Identity.Signed
use robotsyes.Identity.Signed.{Platform, Clock, SignedVerifier}
use robotsyes.Config.{Config}
use robotsyes.Negotiate.Accept.{markdown_type}
use robotsyes.Ratelimit.{Limit, Limiter, published}

-- the concrete `identity.Verifier` that a server was built with
pub data Verifier : Type 0 where
  noop declared_only : Verifier
  signed_by : SignedVerifier → Verifier

unfoldable pub verify : Platform → Clock → Request → Verifier → Verifier × Identity
verify pf t r noop = (noop, noop_verify r)
verify pf t r declared_only = (declared_only, declared_verify r)
verify pf t r (signed_by v) = let (v', id) = Signed.verify pf t r v in (signed_by v', id)

abbrev pub discovery_path : Bytes
discovery_path = codes "/.well-known/robots-yes.json"

abbrev pub export_path : Bytes
export_path = codes "/.well-known/robots-yes/export.ndjson"

abbrev pub manifest_path : Bytes
manifest_path = codes "/.well-known/robots-yes/export-manifest.json"

abbrev pub torrent_path : Bytes
torrent_path = codes "/.well-known/robots-yes/export.torrent"

abbrev pub llms_txt_path : Bytes
llms_txt_path = codes "/llms.txt"

pub record DiscoveryNegotiation : Type 0 where
  pub supported : Bool
  pub accept : List Bytes
  pub vary : Bytes

pub record DiscoveryExport : Type 0 where
  pub url : Bytes
  pub format : Bytes
  pub manifest_url : Bytes
  pub torrent_url : Bytes

pub record DiscoveryIdentity : Type 0 where
  pub methods : List Bytes
  pub declare_via : Bytes
  pub signature_input_header : Bytes
  pub signature_header : Bytes
  pub algorithm : Bytes
  pub card_discovery : Bytes
  pub required_signature_params : List Bytes
  pub tag : Bytes
  pub spec : Bytes

pub record DiscoveryPayments : Type 0 where
  pub supported : Bool
  pub network : Bytes
  pub asset : Bytes
  pub price_cents_per_request : ℤ
  pub header : Bytes

pub record Discovery : Type 0 where
  pub version : Bytes
  pub content_negotiation : DiscoveryNegotiation
  pub export : DiscoveryExport
  pub identity : DiscoveryIdentity
  pub rate_limits : Assoc Limit
  pub payments : DiscoveryPayments

unfoldable pub torrent_url : Config → Bytes
torrent_url cfg = if cfg.export.torrent.enabled then torrent_path else []

unfoldable pub payments_capabilities {ℓ} : {M : Type ℓ} → Config → Option M → DiscoveryPayments
payments_capabilities cfg none = record {
  supported = false;
  network = [];
  asset = [];
  price_cents_per_request = pos 0;
  header = [];
}
payments_capabilities cfg (some merchant) = record {
  supported = true;
  network = cfg.payments.network;
  asset = cfg.payments.asset;
  price_cents_per_request = cfg.payments.price_cents_per_request;
  header = codes "Payment-Signature";
}

unfoldable pub tier_names : List Tier → List Bytes
tier_names tiers = map tier_name tiers

abbrev unsigned_identity : List Bytes → Bytes → DiscoveryIdentity
unsigned_identity methods declare_via = record {
  methods = methods;
  declare_via = declare_via;
  signature_input_header = [];
  signature_header = [];
  algorithm = [];
  card_discovery = [];
  required_signature_params = [];
  tag = [];
  spec = [];
}

unfoldable pub identity_capabilities : Verifier → DiscoveryIdentity
identity_capabilities noop = unsigned_identity (tier_names (unverified ∷ [])) []
identity_capabilities declared_only =
    unsigned_identity (tier_names (unverified ∷ declared ∷ [])) signature_agent_header
identity_capabilities (signed_by v) = record {
  methods = tier_names (unverified ∷ declared ∷ verified ∷ []);
  declare_via = signature_agent_header;
  signature_input_header = codes "Signature-Input";
  signature_header = codes "Signature";
  algorithm = codes "ed25519";
  card_discovery = codes "/.well-known/signature-agent-card";
  required_signature_params =
      codes "created"
      ∷ codes "expires"
      ∷ codes "keyid"
      ∷ codes "alg"
      ∷ codes "nonce"
      ∷ codes "tag"
      ∷ [];
  tag = codes "web-bot-auth";
  spec =
      codes
        "draft-meunier-web-bot-auth-architecture (IETF), wire-compatible incl. Cloudflare/Anthropic/OpenAI implementations";
}

-- the document of `serveDiscovery`
unfoldable pub discovery_document {ℓ} :
    {M : Type ℓ} → Config → Verifier → Limiter → Option M → Discovery
discovery_document cfg verifier limiter payments = record {
  version = codes "1";
  content_negotiation = record {
    supported = true;
    accept = markdown_type ∷ [];
    vary = codes "Accept";
  };
  export = record {
    url = export_path;
    format = codes "ndjson";
    manifest_url = manifest_path;
    torrent_url = torrent_url cfg;
  };
  identity = identity_capabilities verifier;
  rate_limits = published limiter;
  payments = payments_capabilities cfg payments;
}
