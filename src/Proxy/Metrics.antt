-- ===== src/Proxy/Metrics.antt =====
-- internal/proxy/metrics.go: the counters of the server, and their page.
pub mod Page
pub mod Numbers
pub mod Reader
pub mod Scrape
use robotsyes.Metrics.{Counter, inc, zero_counter}
use robotsyes.Identity.{Tier, unverified, declared, verified}

-- a map from the known tiers to their counters
pub record ByTier : Type 0 where
  pub of_unverified : Counter
  pub of_declared : Counter
  pub of_verified : Counter

unfoldable pub counter : Tier → ByTier → Counter
counter unverified m = m.of_unverified
counter declared m = m.of_declared
counter verified m = m.of_verified

unfoldable pub inc_tier : Tier → ByTier → ByTier
inc_tier unverified m = record m { of_unverified = inc m.of_unverified }
inc_tier declared m = record m { of_declared = inc m.of_declared }
inc_tier verified m = record m { of_verified = inc m.of_verified }

abbrev no_counts : ByTier
no_counts = record {
  of_unverified = zero_counter;
  of_declared = zero_counter;
  of_verified = zero_counter;
}

pub record ServerMetrics : Type 0 where
  pub requests_by_tier : ByTier
  pub denied_by_tier : ByTier
  pub x402_challenged : Counter
  pub x402_settled : Counter

unfoldable pub new_server_metrics : ServerMetrics
new_server_metrics = record {
  requests_by_tier = no_counts;
  denied_by_tier = no_counts;
  x402_challenged = zero_counter;
  x402_settled = zero_counter;
}

unfoldable pub record_request : Tier → ServerMetrics → ServerMetrics
record_request tier m = record m { requests_by_tier = inc_tier tier m.requests_by_tier }

unfoldable pub record_denied : Tier → ServerMetrics → ServerMetrics
record_denied tier m = record m { denied_by_tier = inc_tier tier m.denied_by_tier }

unfoldable pub record_payment_challenged : ServerMetrics → ServerMetrics
record_payment_challenged m = record m { x402_challenged = inc m.x402_challenged }

unfoldable pub record_payment_settled : ServerMetrics → ServerMetrics
record_payment_settled m = record m { x402_settled = inc m.x402_settled }
