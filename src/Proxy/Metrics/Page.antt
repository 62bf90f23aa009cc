-- ===== src/Proxy/Metrics/Page.antt =====
-- internal/proxy/metrics.go: the page of the metrics.
use robotsyes.Base.{map, ℕ, Bytes, List, [], ◌∷◌, ◌++◌, codes}
use robotsyes.Base.Int.{ℤ, pos}
use robotsyes.Base.Decimal.{decimal_ℤ}
use robotsyes.Metrics.{value}
use robotsyes.Identity.{Tier, unverified, declared, verified, tier_name}
use robotsyes.Export.Bundler.{Bundler, builds_done, failures, page_count}
use robotsyes.Proxy.Metrics.{ServerMetrics, ByTier, counter}

abbrev pub newline : ℕ
newline = 10

-- What is printed: a text by `fmt.Fprintln`, or a name and a number by `fmt.Fprintf`.
pub data Line : Type 0 where
  text : Bytes → Line
  sample : Bytes → ℤ → Line

unfoldable pub print : Line → Bytes
print (text s) = s
print (sample name n) = name ++ (b' ' ∷ decimal_ℤ n)

unfoldable pub print_lines : List Line → Bytes
print_lines [] = []
print_lines (l ∷ ls) = print l ++ (newline ∷ print_lines ls)

-- `name{tier=%q}`
unfoldable pub of_tier : Bytes → Tier → Bytes
of_tier name tier = name ++ codes "{tier=\"" ++ tier_name tier ++ codes "\"}"

abbrev known_tiers : List Tier
known_tiers = unverified ∷ declared ∷ verified ∷ []

-- the loop over `knownTiers`
unfoldable pub tier_lines : Bytes → ByTier → List Line
tier_lines name m = map (λ t. sample (of_tier name t) (value (counter t m))) known_tiers

unfoldable pub page_lines : ServerMetrics → Bundler → List Line
page_lines m b =
    text (codes "# HELP robotsyes_requests_total Requests handled, by identity tier.")
    ∷ text (codes "# TYPE robotsyes_requests_total counter")
    ∷ (tier_lines (codes "robotsyes_requests_total") m.requests_by_tier
        ++ (text (
              codes
                "# HELP robotsyes_rate_limit_denied_total Requests denied by the rate limiter, by identity tier.")
            ∷ text (codes "# TYPE robotsyes_rate_limit_denied_total counter")
            ∷ (tier_lines (codes "robotsyes_rate_limit_denied_total") m.denied_by_tier
                ++ (text (
                      codes
                        "# HELP robotsyes_x402_challenged_total Rate-limit-denied requests offered a payment challenge instead of a flat 429.")
                    ∷ text (codes "# TYPE robotsyes_x402_challenged_total counter")
                    ∷ sample (codes "robotsyes_x402_challenged_total") (value m.x402_challenged)
                    ∷ text (
                        codes
                          "# HELP robotsyes_x402_settled_total Payment challenges that settled and let the request through.")
                    ∷ text (codes "# TYPE robotsyes_x402_settled_total counter")
                    ∷ sample (codes "robotsyes_x402_settled_total") (value m.x402_settled)
                    ∷ text (
                        codes
                          "# HELP robotsyes_export_bundle_builds_total Times the bulk export bundle was actually rebuilt, not served from cache.")
                    ∷ text (codes "# TYPE robotsyes_export_bundle_builds_total counter")
                    ∷ sample (codes "robotsyes_export_bundle_builds_total") (builds_done b)
                    ∷ text (
                        codes
                          "# HELP robotsyes_export_bundle_pages Pages in the currently cached export bundle.")
                    ∷ text (codes "# TYPE robotsyes_export_bundle_pages gauge")
                    ∷ sample (codes "robotsyes_export_bundle_pages") (pos (page_count b))
                    ∷ text (
                        codes
                          "# HELP robotsyes_export_bundle_build_failures_total Bundle rebuild attempts that failed. A stale bundle keeps being served while this climbs, so builds_total alone can look merely stalled rather than actively failing.")
                    ∷ text (codes "# TYPE robotsyes_export_bundle_build_failures_total counter")
                    ∷ sample (codes "robotsyes_export_bundle_build_failures_total") (failures b)
                    ∷ []))))

-- the body of `serveMetrics`
unfoldable pub metrics_page : ServerMetrics → Bundler → Bytes
metrics_page m b = print_lines (page_lines m b)
