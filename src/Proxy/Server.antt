-- ===== src/Proxy/Server.antt =====
-- internal/proxy/proxy.go: the handler of a request. What net/http answers is the
-- record `Web`. A request reads the clocks once for its identity and once for its limit. Of the
-- bundler, the handler is modelled up to the call.
pub mod Paid
pub mod Counted
pub mod ChitGate
pub mod Ceiling
pub mod Content
use robotsyes.Base.{
  ℕ, Bytes, Bool, true, false, not, Option, none, some, [], ◌∷◌, ◌++◌, codes, equal, has_prefix,
  trim_prefix, trim_suffix, if◌then◌else◌,
}
use robotsyes.Base.Assoc.{Assoc}
use robotsyes.Base.Int.{ℤ, pos}
use robotsyes.Httpx.{Response}
use robotsyes.Identity.{Tier, unverified, declared, verified, tier_name, Identity, Request}
use robotsyes.Identity.Signed.{Platform, Clock}
use robotsyes.Config.{Config}
use robotsyes.Negotiate.Accept.{Quality, wants_markdown, expresses_no_preference, markdown_type}
use robotsyes.Negotiate.Strip.{Node, strip}
use robotsyes.Ratelimit
use robotsyes.Ratelimit.{Limit, Limiter}
use robotsyes.Chitgate.Rail.{PaymentRequest}
use robotsyes.Proxy.Reply.{
  Answer, Gate, Incoming, serve_export, serve_manifest, serve_torrent, serve_torrent_seed, text,
  discovery_body, metrics_body, payment_challenge, Reply, respond, from_bundler, from_upstream,
  llms_txt, client_key, payment_granted, payment_credential, json_type, rate_limited,
}
use robotsyes.Proxy.Metrics.{
  ServerMetrics, new_server_metrics, record_request, record_denied, record_payment_challenged,
  record_payment_settled,
}
use robotsyes.Proxy.Discovery.{
  Verifier, verify, discovery_document, discovery_path, export_path, manifest_path, torrent_path,
  llms_txt_path,
}

abbrev pub torrent_seed_prefix : Bytes
torrent_seed_prefix = codes "/.well-known/robots-yes/torrent-seed/"

abbrev pub metrics_path : Bytes
metrics_path = codes "/.well-known/robots-yes/metrics"

pub record Web (Q : Type 0) : Type 0 where
  pub platform : Platform
  pub quality : Quality Q
  pub parse_html : Bytes → Option Node
  -- `http.NewRequestWithContext` and `client.Do`, of a method and a URL
  pub fetch : Bytes → Bytes → Option Response

pub record Server (M : Type 0) : Type 0 where
  pub cfg : Config
  pub verifier : Verifier
  pub limiter : Limiter
  pub metrics : ServerMetrics
  pub payments : Option M

unfoldable pub limits_of : Assoc ℤ → Assoc Limit
limits_of [] = []
limits_of ((tier, rpm) ∷ limits) = (tier, record { requests_per_minute = rpm }) ∷ limits_of limits

-- `New`, up to the bundler and the upstream
unfoldable pub new :
    {M : Type 0} → (Bytes → Bool) → Config → Verifier → Option M → Option (Server M)
new parses_url cfg verifier merchant =
    if parses_url cfg.origin
    then some (record {
      cfg = cfg;
      verifier = verifier;
      limiter = Ratelimit.new (limits_of cfg.rate_limits) (pos Ratelimit.default_max_entries);
      metrics = new_server_metrics;
      payments = merchant;
    })
    else none

-- the web-seed address that `New` gives the bundler
unfoldable pub seed_base_url : Config → Bytes
seed_base_url cfg =
    if cfg.export.torrent.enabled
    then trim_suffix (codes "/") cfg.export.torrent.public_url ++ torrent_seed_prefix
    else []

abbrev pub metrics_headers : Assoc Bytes
metrics_headers = (codes "Content-Type", codes "text/plain; version=0.0.4; charset=utf-8") ∷ []

module _ {M : Type 0} where
  abbrev counted : (ServerMetrics → ServerMetrics) → Server M → Server M
  counted f s = record s { metrics = f s.metrics }

  -- what `handleRateLimited` does with the merchant's answer: the request goes on on `none`
  unfoldable pub answered : Tier → Answer → Server M → Server M × Option Reply
  answered tier a s =
      if not (payment_granted a)
      then (counted (record_denied tier) s, some (rate_limited tier))
      else elim a.challenge [
        | some ch ↦ (
          counted record_payment_challenged s,
          some (respond ch.status_code (json_type ∷ []) (payment_challenge ch)),
        )
        | none ↦ (counted record_payment_settled s, none)
      ]

  unfoldable pub handle_rate_limited : Gate M → Request → Tier → Server M → Server M × Option Reply
  handle_rate_limited gate r tier s = elim s.payments [
    | none ↦ (counted (record_denied tier) s, some (rate_limited tier))
    | some merchant ↦
        let req : PaymentRequest = record {
          resource = r.path;
          credential = payment_credential r;
        } in
        let (merchant', a) = gate.require_payment req merchant in
        answered tier a (record s { payments = some merchant' })
  ]

  -- `serveWellKnown`: `none` on a path that it does not handle
  unfoldable pub serve_well_known : Bytes → Server M → Option Reply
  serve_well_known path s =
      if has_prefix torrent_seed_prefix path
      then some (from_bundler (serve_torrent_seed (trim_prefix torrent_seed_prefix path)))
      else (if equal path discovery_path
          then some (
              respond 200 (json_type ∷ [])
                (discovery_body (discovery_document s.cfg s.verifier s.limiter s.payments)))
          else (if equal path export_path
              then some (from_bundler serve_export)
              else (if equal path manifest_path
                  then some (from_bundler serve_manifest)
                  else (if equal path torrent_path
                      then some (from_bundler serve_torrent)
                      else (if equal path llms_txt_path
                          then some (
                              respond 200
                                ((codes "Content-Type", codes "text/plain; charset=utf-8") ∷ [])
                                (text (llms_txt s.cfg)))
                          else none)))))

  module _ {Q : Type 0} (web : Web Q) (gate : Gate M) where
    unfoldable pub server_wants_markdown : Bytes → Tier → Bool
    server_wants_markdown accept tier =
        if wants_markdown web.quality accept
        then true
        else (if expresses_no_preference web.quality accept
            then (elim tier [ unverified ↦ false | declared ↦ true | verified ↦ true ])
            else false)

    abbrev vary : Bytes × Bytes
    vary = (codes "Vary", codes "Accept")

    abbrev bad_gateway : Reply
    bad_gateway = respond 502 (vary ∷ []) (text [])

    -- `serveMarkdown`; what http.Error adds to an error's headers and body is left out
    unfoldable pub serve_markdown : Incoming → Server M → Reply
    serve_markdown r s = elim (web.fetch r.method (s.cfg.origin ++ r.request_uri)) [
      | none ↦ bad_gateway
      | some resp ↦ if resp.broken then bad_gateway else elim (strip web.parse_html resp.body) [
        | none ↦ bad_gateway
        | some md ↦
            respond resp.status
              (vary ∷ (codes "Content-Type", markdown_type ++ codes "; charset=utf-8") ∷ [])
              (text md)
      ]
    ]

    -- the part of `ServeHTTP` behind the limiter
    unfoldable pub serve_content : Incoming → Tier → Server M → Reply
    serve_content r tier s = elim (serve_well_known r.request.path s) [
      | some reply ↦ reply
      | none ↦
          if server_wants_markdown (r.request.header (codes "Accept")) tier
          then serve_markdown r s
          else from_upstream (vary ∷ [])
    ]

    -- the part of `ServeHTTP` behind the verifier
    unfoldable pub serve_identified : ℕ → Incoming → Identity → Server M → Server M × Reply
    serve_identified now r id s =
        let key = client_key web.platform.split_host_port r.request id in
        let (limiter, allowed) = Ratelimit.allow now (tier_name id.tier) key s.limiter in
        let s' = record s { limiter = limiter } in
        if allowed
        then (s', serve_content r id.tier s')
        else (let (s'', denied) = handle_rate_limited gate r.request id.tier s' in
            (s'', elim denied [ some reply ↦ reply | none ↦ serve_content r id.tier s'' ]))

    -- the verifier's part of `ServeHTTP`
    unfoldable pub identify : Clock → Incoming → Server M → Server M × Identity
    identify t r s =
        let (verifier, id) = verify web.platform t r.request s.verifier in
        (record s { verifier = verifier; metrics = record_request id.tier s.metrics }, id)

    -- `ServeHTTP`
    unfoldable pub serve_http : Clock → ℕ → Incoming → Server M → Server M × Reply
    serve_http t now r s =
        if equal r.request.path metrics_path
        then (s, respond 200 metrics_headers (metrics_body s.metrics))
        else (let (s', id) = identify t r s in serve_identified now r id s')
