-- ===== src/Lib.antt =====
-- robots.yes: a proxy that gives automated clients a stripped view of a site, published rate
-- limits that depend on who the client proves to be, and a paid way past the limit.
--
-- A request is handled by `ServeHTTP` of internal/proxy (Proxy.Server). The verifier of
-- internal/identity grants it a tier (Identity, Identity.Signed), the limiter of
-- internal/ratelimit (Ratelimit) lets it through or denies it, and a denied request may be let
-- through by the merchant of internal/paymentgate/chitgate (Chitgate.Merchant). What is served is
-- the discovery document (Proxy.Discovery), a page of the origin, or the stripped view of it
-- (Negotiate), or a part of the bulk export: internal/export (Export) bundles the stripped pages of
-- the configured paths and of a sitemap, and serves them with a manifest and a torrent while it
-- rebuilds them in the background. internal/metrics (Metrics) and internal/proxy/metrics.go
-- (Proxy.Metrics) count what happens. cmd/robotsyes (Command) puts the parts together.
--
-- The files, and the code they are about:
--   Base          the shared names: tests on numbers, lists, byte strings, association lists for
--                 Go's maps, and int64
--   Recency       the pair of a container/list and a map that the four caches keep; its children
--                 show that the pair stays consistent and stands for a list in recency order
--   Identity      internal/identity: identity.go, and in the children Card, SignatureInput,
--                 Freshness and Signed signed.go, in CardCache cardcache.go, in NonceCache
--                 noncecache.go, in Dial the dialer of signed.go
--   Ratelimit     internal/ratelimit/ratelimit.go
--   Chitgate      internal/paymentgate/chitgate: ReplayCache for replaycache.go, Rail,
--                 Credential and Merchant for chitgate.go and the types of
--                 internal/payments/merchant.go
--   Config        internal/config/config.go
--   Httpx         internal/httpx
--   Negotiate     internal/negotiate/negotiate.go: Accept for the header, Strip for the view
--   Export        internal/export: in export.go Sitemap for the pages that a sitemap adds, Bundler
--                 for the cache and its rebuilds and Handlers for the answers; Manifest for
--                 manifest.go, Torrent for torrent.go and torrent_stub.go
--   Metrics       internal/metrics/metrics.go
--   Proxy         internal/proxy: Server, Concurrent, Reply, Discovery and Bundling for proxy.go,
--                 Metrics for metrics.go
--   Command       cmd/robotsyes: main.go, payments_full.go and payments_stub.go
--   Tests         the theorems at concrete inputs
--
-- State is passed explicitly: an operation takes the state and returns it with its result. A
-- method of the source keeps its name in antt's spelling, so `replayCache.evictIfOverCapacity` is
-- `ReplayCache.evict_if_over_capacity`. A mutex makes an operation one step. For the caches and
-- the payment gate, what other requests do in between is an explicit sequence of calls. The clock is
-- an argument, in nanoseconds. Three parts are relations of steps that are made in any order.
-- Requests that are handled at the same time (Proxy.Concurrent) make a step for the verifier, the
-- limiter, the merchant and the reply; `serve_http` (Proxy.Server) is the whole of one request.
-- The bundler makes a step for a call of `Bundle` up to its wait, the end of a build, and the return
-- of a caller whose channel is closed, where a channel is a number, closed when no build that runs
-- has it. The fetches of a sitemap's pages (Export.Sitemap.Concurrent) make a step for each `go`
-- statement, assignment, receive from the semaphore and `wg.Done`. The tags of a build are optional
-- libraries, and what ends the process is a value.
--
-- A string is a list of bytes; white space and the change of case are those of ASCII. Loops are
-- structural recursion, so that no fuel is needed. int64 arithmetic wraps where the source's can
-- overflow. The limiter counts in exact parts of a token, of which one nanosecond refills
-- `requests_per_minute`: the rounding of float64 is not modelled. Qualities of an Accept header
-- are abstract, with the order that float64 has.
--
-- Parameters stand for what is not in the repository: DNS, net/http, net/url, encoding/json,
-- encoding/base64, encoding/xml, crypto/ed25519, crypto/sha256, sort.Slice, html.Parse,
-- yaml.Unmarshal, debug.ReadBuildInfo, the package flag, the packages metainfo and bencode, and the
-- package chit. Not modelled are the reverse proxy, the JSON and gzip of the answers, what the
-- timeouts of the HTTP server do, and the texts of errors and logs.
pub mod Base
pub mod Recency
pub mod Identity
pub mod Chitgate
pub mod Ratelimit
pub mod Httpx
pub mod Config
pub mod Negotiate
pub mod Export
pub mod Metrics
pub mod Proxy
pub mod Command
mod Tests
