-- ===== src/Tests/Pages.antt =====
-- The page of the metrics at concrete counts.
use robotsyes.Base.{[], ◌∷◌, ◌≡◌, ◌<◌, ◌^◌, false, some, arith, codes}
use robotsyes.Base.Int.{pos}
use robotsyes.Identity.{unverified, declared, verified}
use robotsyes.Metrics.{value}
use robotsyes.Export.Bundler.{Bundler, builds_done, failures, page_count, new_bundler}
use robotsyes.Proxy.Metrics.{ServerMetrics, counter, new_server_metrics, record_request}
use robotsyes.Proxy.Metrics.Page.{metrics_page, of_tier}
use robotsyes.Proxy.Metrics.Reader.{scrape}
use robotsyes.Proxy.Metrics.Scrape.{requests, denied, scrape-metrics_page}

-- after one verified request
abbrev counts : ServerMetrics
counts = record_request verified new_server_metrics

-- a bundler with one page
abbrev bundler : Bundler
bundler =
    record (new_bundler (record {
      origin = codes "https://a";
      paths = codes "/" ∷ [];
      ttl = pos 100;
      sitemap_url = [];
      max_sitemap_pages = pos 0;
      torrent_enabled = false;
      torrent_seed_base_url = [];
      torrent_trackers = [];
    })) { cached = some (record { path = codes "/"; markdown = codes "page" } ∷ []) }

one_page : page_count bundler < 2 ^ 63
unfolding page_count
one_page = omega arith

scrape-metrics_page_example :
    scrape (metrics_page counts bundler)
    ≡ (of_tier requests unverified, value (counter unverified counts.requests_by_tier))
      ∷ (of_tier requests declared, value (counter declared counts.requests_by_tier))
      ∷ (of_tier requests verified, value (counter verified counts.requests_by_tier))
      ∷ (of_tier denied unverified, value (counter unverified counts.denied_by_tier))
      ∷ (of_tier denied declared, value (counter declared counts.denied_by_tier))
      ∷ (of_tier denied verified, value (counter verified counts.denied_by_tier))
      ∷ (codes "robotsyes_x402_challenged_total", value counts.x402_challenged)
      ∷ (codes "robotsyes_x402_settled_total", value counts.x402_settled)
      ∷ (codes "robotsyes_export_bundle_builds_total", builds_done bundler)
      ∷ (codes "robotsyes_export_bundle_pages", pos (page_count bundler))
      ∷ (codes "robotsyes_export_bundle_build_failures_total", failures bundler)
      ∷ []
scrape-metrics_page_example = scrape-metrics_page counts bundler one_page
