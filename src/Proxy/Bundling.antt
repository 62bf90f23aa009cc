-- ===== src/Proxy/Bundling.antt =====
-- internal/proxy/proxy.go: the bundler that the server is built with, and its calls.
pub mod Seeds
use robotsyes.Base.{Bytes}
use robotsyes.Base.Int.{ℤ, pos, ◌*ℤ◌, wrap64}
use robotsyes.Config
use robotsyes.Negotiate.Accept.{Quality}
use robotsyes.Export.Bundler.{BundlerConfig, System, start, result}
use robotsyes.Export.Handlers
use robotsyes.Export.Handlers.{Answer}
use robotsyes.Proxy.Reply.{
  BundlerCall, serve_export, serve_manifest, serve_torrent, serve_torrent_seed,
}
use robotsyes.Proxy.Server.{seed_base_url}

abbrev nanoseconds : ℤ
nanoseconds = pos 1000000000

-- what `New` gives the bundler; the product of two int64 wraps
unfoldable pub bundler_config : Config.Config → BundlerConfig
bundler_config cfg = record {
  origin = cfg.origin;
  paths = cfg.export.paths;
  ttl = wrap64 (cfg.export.ttl_seconds *ℤ nanoseconds);
  sitemap_url = cfg.export.sitemap_url;
  max_sitemap_pages = cfg.export.max_sitemap_pages;
  torrent_enabled = cfg.export.torrent.enabled;
  torrent_seed_base_url = seed_base_url cfg;
  torrent_trackers = cfg.export.torrent.trackers;
}

unfoldable pub bundler_start : Config.Config → System
bundler_start cfg = start (bundler_config cfg)

-- the answer to a call that `serveWellKnown` makes, once `Bundle` can return
unfoldable pub bundler_answer : {Q : Type 0} → Quality Q → Bytes → BundlerCall → System → Answer
bundler_answer qs accept_encoding serve_export s =
    Handlers.serve_bundle qs accept_encoding (result s).0 (result s).1
bundler_answer qs accept_encoding serve_manifest s = Handlers.serve_manifest (result s).1 s.bundler
bundler_answer qs accept_encoding serve_torrent s = Handlers.serve_torrent (result s).1 s.bundler
bundler_answer qs accept_encoding (serve_torrent_seed path) s =
    Handlers.serve_torrent_seed path s.bundler
