-- ===== src/Proxy/Metrics/Scrape.antt =====
-- internal/proxy/metrics.go: the page of the metrics, as it is read.
use robotsyes.Base.{
  ◌<◌, ◌^◌, Bytes, true, [], ◌∷◌, ◌≡◌, refl, arith, codes, All, has_prefix, cut_prefix,
}
use robotsyes.Base.Int.{pos, IsInt64}
use robotsyes.Metrics.{Counter, value}
use robotsyes.Identity.{tier_name, unverified, declared, verified}
use robotsyes.Export.Bundler.{Bundler, builds_done, failures, page_count}
use robotsyes.Proxy.Metrics.{ServerMetrics, ByTier, counter}
use robotsyes.Proxy.Metrics.Page.{of_tier, tier_lines, page_lines, metrics_page}
use robotsyes.Proxy.Metrics.Reader.{scrape, samples, IsReadable, read_lines-print, value-IsInt64}

abbrev pub requests : Bytes
requests = codes "robotsyes_requests_total"

abbrev pub denied : Bytes
denied = codes "robotsyes_rate_limit_denied_total"

abbrev Truth : Type 0
Truth = true ≡ true

-- The name of a counter, and its number.
counted : (c : Counter) → Truth × IsInt64 (value c)
counted c = (refl, value-IsInt64 c)

-- Two comments, before the samples that they are about.
commented : {A : Type 0} → A → Truth × (Truth × A)
commented a = (refl, (refl, a))

by_tier :
    {A : Type 0} (m : ByTier)
    → A
    → Truth
      × (Truth
          × ((Truth × IsInt64 (value (counter unverified m)))
              × ((Truth × IsInt64 (value (counter declared m)))
                  × ((Truth × IsInt64 (value (counter verified m))) × A))))
by_tier m a = commented (counted _, (counted _, (counted _, a)))

page_lines-IsReadable :
    (m : ServerMetrics) (b : Bundler) → page_count b < 2 ^ 63 → All IsReadable (page_lines m b)
unfolding page_lines tier_lines of_tier tier_name builds_done failures has_prefix cut_prefix
page_lines-IsReadable m b few =
    let pages : IsInt64 (pos (page_count b)) = (omega arith, omega arith) in
    let failed = commented (counted b.build_failures, tt) in
    let bundled = commented (counted b.builds, commented ((refl, pages), failed)) in
    let settled = commented (counted m.x402_settled, bundled) in
    by_tier m.requests_by_tier
      (by_tier m.denied_by_tier (commented (counted m.x402_challenged, settled)))

-- Reading the page of the metrics, line by line, without the comments, gives back the name and the
-- number of each counter, in the order of the source, if the bundle has fewer than 2^63 pages.
pub scrape-metrics_page :
    (m : ServerMetrics) (b : Bundler)
    → page_count b < 2 ^ 63
    → scrape (metrics_page m b)
      ≡ (of_tier requests unverified, value (counter unverified m.requests_by_tier))
        ∷ (of_tier requests declared, value (counter declared m.requests_by_tier))
        ∷ (of_tier requests verified, value (counter verified m.requests_by_tier))
        ∷ (of_tier denied unverified, value (counter unverified m.denied_by_tier))
        ∷ (of_tier denied declared, value (counter declared m.denied_by_tier))
        ∷ (of_tier denied verified, value (counter verified m.denied_by_tier))
        ∷ (codes "robotsyes_x402_challenged_total", value m.x402_challenged)
        ∷ (codes "robotsyes_x402_settled_total", value m.x402_settled)
        ∷ (codes "robotsyes_export_bundle_builds_total", builds_done b)
        ∷ (codes "robotsyes_export_bundle_pages", pos (page_count b))
        ∷ (codes "robotsyes_export_bundle_build_failures_total", failures b)
        ∷ []
unfolding scrape metrics_page page_lines tier_lines samples
scrape-metrics_page m b few = read_lines-print (page_lines m b) (page_lines-IsReadable m b few)
