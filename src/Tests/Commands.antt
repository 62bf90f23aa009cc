-- ===== src/Tests/Commands.antt =====
-- The command line and the dialer at concrete inputs.
use robotsyes.Base.{
  ℕ, ◌≤◌, Bytes, Bool, true, false, Option, none, some, List, [], ◌∷◌, ◌++◌, ◌≡◌, ◌↔◌, refl, arith,
  codes,
}
use robotsyes.Base.Int.{pos}
use robotsyes.Config
use robotsyes.Chitgate.Rail.{Chit, charged}
use robotsyes.Chitgate.Merchant
use robotsyes.Chitgate.Merchant.{Merchant}
use robotsyes.Proxy.Server.{Server, limits_of}
use robotsyes.Proxy.Metrics.{new_server_metrics}
use robotsyes.Proxy.Discovery.{signed_by}
use robotsyes.Identity.Signed.{new_signed_verifier}
use robotsyes.Ratelimit
use robotsyes.Command.{World, with_defaults, merchant_config, new_cards}
use robotsyes.Command.Process.{Host, parsed, http_server, main, run, serve_flags, started, serve}
use robotsyes.Command.Outcome.{IsServing, main-IsServing}
use robotsyes.Identity.Dial.{Network, is_disallowed_target, safe_dial_context}
use robotsyes.Identity.Dial.Guarded.{Guards, safe_dial_context-Guards}
use robotsyes.Identity.Dial.Ranges.{InRange, address_number, is_disallowed_target_v4}

abbrev chit : Chit ℕ
chit = record {
  new_merchant = λ account. true;
  extract_payer = λ credential. none;
  detect = λ credential. false;
  parse_amount = λ s. some 1;
  charge = λ credential reqs price resource. charged;
  close = λ credential reqs price resource. true;
  base64_std = λ s. none;
  base64_raw_url = λ s. none;
  parse_object = λ s. none;
  decimal = λ n. codes "1";
}

abbrev paid_config : Config.Config
paid_config = record {
  origin = codes "http://a";
  addr = codes ":8080";
  export = record {
    paths = [];
    ttl_seconds = pos 300;
    sitemap_url = [];
    max_sitemap_pages = pos 0;
    torrent = Config.no_torrent;
  };
  rate_limits =
      (codes "unverified", pos 1) ∷ (codes "declared", pos 2) ∷ (codes "verified", pos 3) ∷ [];
  payments = record {
    enabled = true;
    payout_address = codes "0x833589fCD6eDb6E08f4c7C32D4f71b54bdA02913";
    price_cents_per_request = pos 2;
    network = [];
    asset = [];
  };
}

abbrev world : World ℕ
world = record {
  torrent = none;
  payments = some chit;
  read_file = λ path. some (codes "payments:");
  unmarshal = λ found cfg. some paid_config;
  parses_url = λ url. true;
}

abbrev server : Server Merchant
server = record {
  cfg = with_defaults paid_config;
  verifier = signed_by (new_signed_verifier new_cards);
  limiter = Ratelimit.new (limits_of paid_config.rate_limits) (pos Ratelimit.default_max_entries);
  metrics = new_server_metrics;
  payments = some (Merchant.build (merchant_config (with_defaults paid_config)));
}

abbrev host : Host
host = record {
  version = codes "v1";
  build_info = none;
  parse = λ args. parsed (codes "robotsyes.yaml");
  listen_and_serve = λ hs. some (codes "address in use");
}

abbrev os_args : List Bytes
os_args = codes "robotsyes" ∷ codes "serve" ∷ codes "-config=robotsyes.yaml" ∷ []

running : (main world host os_args).server ≡ some (http_server (codes ":8080") server)
unfolding main run serve_flags started serve robotsyes.Command.command robotsyes.Base.equal
    robotsyes.Command.cmd_serve robotsyes.Command.serve_loaded robotsyes.Command.load_config
    Config.load Config.check Config.missing_tier Config.required_rate_limit_tiers
    robotsyes.Base.Assoc.get robotsyes.Identity.tier_name robotsyes.Command.fails_torrent
    robotsyes.Command.serve_with robotsyes.Command.build_merchant Merchant.new merchant_config
    with_defaults robotsyes.Chitgate.Credential.is_hex_address
    robotsyes.Chitgate.Credential.is_hex_digit Merchant.build
    robotsyes.Command.torrent_ttl_too_short robotsyes.Base.cut_prefix robotsyes.Base.has_prefix
    robotsyes.Base.trim_prefix robotsyes.Proxy.Server.new
running = refl

main-IsServing_example : IsServing world host (http_server (codes ":8080") server)
main-IsServing_example = main-IsServing world host os_args running

-- a name with a private and a public address
abbrev net : Network ℕ
net = record {
  split_host_port = λ addr. some (addr, codes "443");
  lookup_ip = λ host. some ((10 ∷ 0 ∷ 0 ∷ 1 ∷ []) ∷ (93 ∷ 184 ∷ 216 ∷ 34 ∷ []) ∷ []);
  connect = λ ip port. some 1;
}

safe_dial_context-Guards_example :
    Guards net (codes "a.example") (safe_dial_context net (codes "a.example"))
safe_dial_context-Guards_example = safe_dial_context-Guards net (codes "a.example")

is_disallowed_target_v4_example :
    (is_disallowed_target (172 ∷ 31 ∷ 0 ∷ 1 ∷ []) ≡ true) ↔ InRange (address_number 172 31 0 1)
is_disallowed_target_v4_example =
    is_disallowed_target_v4 172 31 0 1 (omega arith) (omega arith) (omega arith) (omega arith)
