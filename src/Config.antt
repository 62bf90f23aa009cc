-- ===== src/Config.antt =====
-- internal/config/config.go: the configuration document. `os.ReadFile` is the argument `read_file`,
-- and `yaml.Unmarshal` into a document that holds defaults the argument `unmarshal`.
pub mod Loading
use robotsyes.Base.{
  Bytes, Bool, false, ◌&&◌, Option, none, some, List, [], ◌∷◌, codes, equal, is_some, if◌then◌else◌,
}
use robotsyes.Base.Assoc
use robotsyes.Base.Assoc.{Assoc}
use robotsyes.Base.Int.{ℤ, pos}
use robotsyes.Identity.{Tier, unverified, declared, verified, tier_name}

pub record PaymentsConfig : Type 0 where
  pub enabled : Bool
  pub payout_address : Bytes
  pub price_cents_per_request : ℤ
  pub network : Bytes
  pub asset : Bytes

pub record TorrentConfig : Type 0 where
  pub enabled : Bool
  pub public_url : Bytes
  pub trackers : List Bytes

pub record ExportConfig : Type 0 where
  pub paths : List Bytes
  pub ttl_seconds : ℤ
  pub sitemap_url : Bytes
  pub max_sitemap_pages : ℤ
  pub torrent : TorrentConfig

pub record Config : Type 0 where
  pub origin : Bytes
  pub addr : Bytes
  pub export : ExportConfig
  pub rate_limits : Assoc ℤ
  pub payments : PaymentsConfig

unfoldable pub required_rate_limit_tiers : List Tier
required_rate_limit_tiers = unverified ∷ declared ∷ verified ∷ []

abbrev pub no_payments : PaymentsConfig
no_payments = record {
  enabled = false;
  payout_address = [];
  price_cents_per_request = pos 0;
  network = [];
  asset = [];
}

abbrev pub no_torrent : TorrentConfig
no_torrent = record { enabled = false; public_url = []; trackers = [] }

-- `Default`
unfoldable pub default : Config
unfolding tier_name
default = record {
  origin = codes "http://localhost:3000";
  addr = codes ":8080";
  export = record {
    paths = codes "/" ∷ [];
    ttl_seconds = pos 300;
    sitemap_url = [];
    max_sitemap_pages = pos 0;
    torrent = no_torrent;
  };
  rate_limits =
      (tier_name unverified, pos 10)
      ∷ (tier_name declared, pos 60)
      ∷ (tier_name verified, pos 300)
      ∷ [];
  payments = no_payments;
}

pub data LoadError : Type 0 where
  reading parsing origin_required public_url_required : LoadError
  tier_required : Tier → LoadError

pub data Loaded : Type 0 where
  loaded : Config → Loaded
  failed : LoadError → Loaded

-- the loop of `Load`: the first tier without a ceiling
unfoldable pub missing_tier : Assoc ℤ → List Tier → Option Tier
missing_tier limits [] = none
missing_tier limits (tier ∷ tiers) =
    let rest = missing_tier limits tiers in
    if is_some (Assoc.get (tier_name tier) limits) then rest else some tier

-- what `Load` checks of the parsed document
unfoldable pub check : Config → Loaded
check cfg =
    if equal cfg.origin []
    then failed origin_required
    else (if cfg.export.torrent.enabled && equal cfg.export.torrent.public_url []
        then failed public_url_required
        else elim (missing_tier cfg.rate_limits required_rate_limit_tiers) [
          | some tier ↦ failed (tier_required tier)
          | none ↦ loaded cfg
        ])

-- `Load`
unfoldable pub load : (Bytes → Option Bytes) → (Bytes → Config → Option Config) → Bytes → Loaded
load read_file unmarshal path = elim (read_file path) [
  | none ↦ failed reading
  | some data_read ↦ elim (unmarshal data_read default) [
    | none ↦ failed parsing
    | some cfg ↦ check cfg
  ]
]
