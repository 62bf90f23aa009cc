-- ===== src/Tests/Serving.antt =====
-- internal/proxy at concrete inputs.
use robotsyes.Base.{
  Bytes, Bool, true, false, if◌then◌else◌, none, some, [], ◌≡◌, ◌⊎◌, refl, codes, equal,
}
use robotsyes.Base.Int.{pos}
use robotsyes.Config.{default}
use robotsyes.Identity.{Request}
use robotsyes.Identity.Signed.{Platform, Clock}
use robotsyes.Ratelimit
use robotsyes.Negotiate.Accept.{Quality}
use robotsyes.Negotiate.Strip.{text}
use robotsyes.Chitgate.Rail.{Settlement, charged, Chit, no_members, member, object, string}
use robotsyes.Chitgate.Merchant.{Merchant, build}
use robotsyes.Chitgate.Merchant.Settled.{Paid}
use robotsyes.Proxy.Discovery.{declared_only}
use robotsyes.Proxy.Metrics.{new_server_metrics}
use robotsyes.Proxy.Reply.{Gate, Incoming}
use robotsyes.Proxy.Server.{Server, Web, identify, serve_http}
use robotsyes.Proxy.Server.Paid.{Denies, Settled, IsOverCeiling, payment_for, over_ceiling_paid}
use robotsyes.Proxy.Server.ChitGate.{chit_gate, over_ceiling_charged}

abbrev pub platform : Platform
platform = record {
  split_host_port = λ a. some (a, []);
  parse_url = λ u. none;
  get = λ u. none;
  decode_card = λ b. none;
  base64_std = λ s. none;
  base64_raw_url = λ s. none;
  quote = λ s. s;
  ed25519_verify = λ k message sig. false;
}

abbrev pub header : Bytes → Bytes
header name = codes "bot"

abbrev pub request : Request
request = record {
  host = codes "h";
  path = codes "/page";
  remote_addr = codes "1.2.3.4";
  header = header;
}

abbrev pub clock : Clock
clock = record { mono = 7; wall = 9 }

-- qualities in which every number is 1 or 0
abbrev pub quality : Quality Bool
quality = record {
  parse_float = λ s. some true;
  gt = λ a b. (if a then (if b then false else true) else false);
  le = λ a b. (if a then b else true);
  ge = λ a b. (if a then true else (if b then false else true));
  one = true;
  zero = false;
  minus_one = false;
}

abbrev pub web : Web Bool
web = record {
  platform = platform;
  quality = quality;
  parse_html = λ s. some (text s);
  fetch = λ method url. none;
}

abbrev pub incoming : Incoming
incoming = record { request = request; method = codes "GET"; request_uri = codes "/page" }

abbrev pub payer : Bytes
payer = codes "0x0123456789abcdef0123456789abcdef01234567"

-- a rail that settles every charge, where a credential is the text of its nonce
abbrev pub rail : Chit Bytes
rail = record {
  new_merchant = λ id. true;
  extract_payer = λ credential. some payer;
  detect = λ credential. true;
  parse_amount = λ text. some text;
  charge = λ credential reqs price resource. charged;
  close = λ credential reqs price resource. true;
  base64_std = λ s. some s;
  base64_raw_url = λ s. none;
  parse_object = λ s. some (
      member (codes "payload")
        (object (
          member (codes "authorization") (object (member (codes "nonce") (string s) no_members))
            no_members))
        no_members);
  decimal = λ n. codes "1";
}

abbrev pub merchant : Merchant
merchant =
    build
      (record { payout_address = payer; price_cents_per_request = pos 4; network = []; asset = [] })

-- a server that grants no request without a payment
abbrev server : Server Merchant
server = record {
  cfg = default;
  verifier = declared_only;
  limiter = Ratelimit.new [] (pos 5);
  metrics = new_server_metrics;
  payments = some merchant;
}

abbrev pub gate : Gate Merchant
gate = chit_gate rail 3 9 []

over : IsOverCeiling web gate clock 8 incoming server
unfolding Ratelimit.allow robotsyes.Base.Assoc.get Ratelimit.new
over = refl

over_ceiling_paid_example :
    Denies
      (identify web gate clock incoming server).1.tier
      (serve_http web gate clock 8 incoming server).1
    ⊎ Settled gate request server
unfolding equal
over_ceiling_paid_example = over_ceiling_paid web gate clock 8 incoming server refl over

over_ceiling_charged_example :
    Denies
      (identify web gate clock incoming server).1.tier
      (serve_http web gate clock 8 incoming server).1
    ⊎ ((c : Merchant) × (st : Settlement) × (server.payments ≡ some c)
        × Paid rail 3 (payment_for request) c st)
unfolding equal
over_ceiling_charged_example =
    over_ceiling_charged rail 3 9 [] web clock 8 incoming server refl over
