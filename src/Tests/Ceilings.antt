-- ===== src/Tests/Ceilings.antt =====
-- The published ceiling at a server of the default configuration.
use robotsyes.Base.{
  ℕ, ◌+◌, ◌-◌, ◌*◌, ◌≤◌, Bytes, Bool, true, some, List, [], ◌∷◌, ◌≡◌, refl, arith, codes, equal,
}
use robotsyes.Base.Int.{pos}
use robotsyes.Config.{default}
use robotsyes.Identity.{tier_name, declared}
use robotsyes.Ratelimit.{full_key, unit}
use robotsyes.Chitgate.Merchant.{Merchant}
use robotsyes.Proxy.Discovery.{declared_only}
use robotsyes.Ratelimit
use robotsyes.Base.Assoc
use robotsyes.Proxy.Metrics.{new_server_metrics}
use robotsyes.Proxy.Server.{Server, new, limits_of}
use robotsyes.Proxy.Server.Ceiling.{Call, served, paid, end_of}
use robotsyes.Proxy.Server.Ceiling.Bound.{served_bound}
use robotsyes.Tests.Serving.{web, gate, clock, incoming, merchant}

abbrev call : ℕ → Call Merchant Bool
call now = record { web = web; gate = gate; clock = clock; now = now; incoming = incoming }

abbrev calls : List (Call Merchant Bool)
calls = call 3 ∷ call 4 ∷ call 9 ∷ []

abbrev pub client : Bytes
client = codes "1.2.3.4"

abbrev pub server : Server Merchant
server = record {
  cfg = default;
  verifier = declared_only;
  limiter = Ratelimit.new (limits_of default.rate_limits) (pos 100000);
  metrics = new_server_metrics;
  payments = some merchant;
}

pub made : new (λ s. true) default declared_only (some merchant) ≡ some server
unfolding new
made = refl

pub known : Assoc.get (tier_name declared) default.rate_limits ≡ some (pos 60)
unfolding Assoc.get default tier_name equal
known = refl

served_bound_example :
    served (full_key (tier_name declared) client) calls server * unit
    ≤ (60 + paid (full_key (tier_name declared) client) calls server) * unit
      + (end_of 0 calls - 0) * 60
served_bound_example =
    served_bound (λ s. true) default declared_only (some merchant) declared client 59 0 calls made
      known (omega arith, (omega arith, (omega arith, tt))) (omega arith)
