-- ===== src/Proxy/Reply.antt =====
-- internal/proxy/proxy.go: what the handler of a request reads, and what it answers.
use robotsyes.Base.{
  ℕ, ◌*◌, Bytes, Bool, not, ◌&&◌, ◌||◌, Option, [], ◌∷◌, codes, equal, is_some, ◌++◌, if◌then◌else◌,
}
use robotsyes.Base.Assoc.{Assoc}
use robotsyes.Httpx.{remote_ip}
use robotsyes.Identity.{Tier, unverified, declared, verified, Identity, Request}
use robotsyes.Chitgate.Rail.{PaymentRequest, Challenge, Settlement}
use robotsyes.Proxy.Metrics.{ServerMetrics}
use robotsyes.Config.{Config}
use robotsyes.Negotiate.Accept.{markdown_type}
use robotsyes.Proxy.Discovery.{Discovery, discovery_path, export_path, manifest_path}

-- The three results of `Merchant.RequirePayment`; `failed` is an error that is not nil.
pub record Answer : Type 0 where
  pub settlement : Option Settlement
  pub challenge : Option Challenge
  pub failed : Bool

-- the bound on a call of RequirePayment, in nanoseconds
abbrev pub payment_request_timeout : ℕ
payment_request_timeout = 15 * 1000000000

-- The interface `payments.Merchant`.
pub record Gate (M : Type 0) : Type 0 where
  pub require_payment : PaymentRequest → M → M × Answer

pub record Incoming : Type 0 where
  pub request : Request
  pub method : Bytes
  pub request_uri : Bytes

pub data BundlerCall : Type 0 where
  serve_export serve_manifest serve_torrent : BundlerCall
  serve_torrent_seed : Bytes → BundlerCall

pub data Body : Type 0 where
  text : Bytes → Body
  rate_limit_error : Tier → Body
  payment_challenge : Challenge → Body
  discovery_body : Discovery → Body
  metrics_body : ServerMetrics → Body

pub data Reply : Type 0 where
  respond : ℕ → Assoc Bytes → Body → Reply
  from_bundler : BundlerCall → Reply
  from_upstream : Assoc Bytes → Reply

unfoldable pub client_key : (Bytes → Option (Bytes × Bytes)) → Request → Identity → Bytes
client_key split_host_port r id = elim id.tier [
  | unverified ↦ remote_ip split_host_port r.remote_addr
  | declared ↦ remote_ip split_host_port r.remote_addr
  | verified ↦ id.agent_id
]

unfoldable pub payment_granted : Answer → Bool
payment_granted a = not a.failed && (is_some a.settlement || is_some a.challenge)

unfoldable pub payment_credential : Request → Bytes
payment_credential r =
    let v = r.header (codes "Payment-Signature") in
    if equal v [] then r.header (codes "X-Payment") else v

abbrev pub json_type : Bytes × Bytes
json_type = (codes "Content-Type", codes "application/json")

unfoldable pub rate_limited : Tier → Reply
rate_limited tier =
    respond 429 ((codes "Retry-After", codes "60") ∷ json_type ∷ []) (rate_limit_error tier)

unfoldable pub llms_txt : Config → Bytes
llms_txt cfg =
    let line : Bytes → Bytes = (λ s. s ++ (10 ∷ [])) in
    line (codes "# " ++ cfg.origin)
    ++ (line []
        ++ (line (codes "This site publishes a robots.yes capabilities document: content")
            ++ (line
                  (codes "negotiation, bulk export, and published rate limits keyed to identity.")
                ++ (line []
                    ++ (line (codes "- Discovery: " ++ discovery_path)
                        ++ (line (codes "- Bulk export: " ++ export_path)
                            ++ (line (codes "- Export manifest: " ++ manifest_path)
                                ++ line (
                                    codes "- Content negotiation: send `Accept: "
                                    ++ (markdown_type
                                        ++ codes "` on any page for a stripped view")))))))))
