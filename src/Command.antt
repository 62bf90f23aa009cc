-- ===== src/Command.antt =====
-- cmd/robotsyes: main.go, payments_full.go and payments_stub.go. The build tags are the optional
-- libraries, debug.ReadBuildInfo is the argument `build_info`, and what ends the process is a value.
pub mod Serving
pub mod Ready
pub mod Process
pub mod Outcome
use robotsyes.Base.{
  ℕ, ◌+◌, ◌*◌, Bytes, Bool, true, false, not, ◌&&◌, Option, none, some, List, [], ◌∷◌, ◌++◌, codes,
  equal, length, take, leb, if◌then◌else◌,
}
use robotsyes.Base.Int.{ℤ, pos, ltb_ℤ}
use robotsyes.Config
use robotsyes.Config.{LoadError, Loaded, loaded, failed}
use robotsyes.Identity.CardCache
use robotsyes.Identity.CardCache.{CardCache}
use robotsyes.Identity.Signed.{new_signed_verifier}
use robotsyes.Chitgate.Rail.{Chit}
use robotsyes.Chitgate.Merchant
use robotsyes.Chitgate.Merchant.{Merchant, default_network, default_asset}
use robotsyes.Export.Torrent.{TorrentLib, torrent_supported}
use robotsyes.Proxy.Discovery.{signed_by}
use robotsyes.Proxy.Server.{Server}
use robotsyes.Proxy.Server

pub record BuildInfo : Type 0 where
  pub main_version : Bytes
  pub settings : List (Bytes × Bytes)

abbrev dev : Bytes
dev = codes "dev"

-- `if len(s.Value) >= 12 { rev = s.Value[:12] } else { rev = s.Value }`
unfoldable pub short_revision : Bytes → Bytes
short_revision v = if leb 12 (length v) then take 12 v else v

-- the loop of `buildVersion`: the revision and its mark
unfoldable pub revision : List (Bytes × Bytes) → Bytes → Bytes → Bytes × Bytes
revision [] rev dirty = (rev, dirty)
revision ((key, v) ∷ settings) rev dirty =
    let as_revision = revision settings (short_revision v) dirty in
    let as_dirty = revision settings rev (codes "-dirty") in
    let other = revision settings rev dirty in
    if equal key (codes "vcs.revision")
    then as_revision
    else (if equal key (codes "vcs.modified") && equal v (codes "true") then as_dirty else other)

unfoldable pub build_version : Bytes → Option BuildInfo → Bytes
build_version version build_info = if not (equal version dev) then version else elim build_info [
  | none ↦ version
  | some bi ↦
      if not (equal bi.main_version []) && not (equal bi.main_version (codes "(devel)"))
      then bi.main_version
      else (let (rev, dirty) = revision bi.settings [] [] in
          if not (equal rev []) then rev ++ dirty else version)
]

-- What ends the process before it listens.
pub data Fatal : Type 0 where
  load_failed : LoadError → Fatal
  torrent_unsupported payments_unsupported merchant_failed origin_invalid : Fatal

-- `loadConfig`
unfoldable pub load_config :
    (Bytes → Option Bytes) → (Bytes → Config.Config → Option Config.Config) → Bytes → Loaded
load_config read_file unmarshal path =
    if equal path [] then loaded Config.default else Config.load read_file unmarshal path

abbrev min_torrent_ttl_seconds : ℤ
min_torrent_ttl_seconds = pos 3600

-- whether `warnIfTorrentTTLTooShort` logs
unfoldable pub torrent_ttl_too_short : Config.Config → Bool
torrent_ttl_too_short cfg =
    cfg.export.torrent.enabled && ltb_ℤ cfg.export.ttl_seconds min_torrent_ttl_seconds

-- whether `failIfTorrentUnsupported` ends the process
unfoldable pub fails_torrent : Option TorrentLib → Config.Config → Bool
fails_torrent lib cfg = cfg.export.torrent.enabled && not (torrent_supported lib)

abbrev or_else : Bytes → Bytes → Bytes
or_else s d = if equal s [] then d else s

-- the defaults that `buildMerchant` writes into the configuration
unfoldable pub with_defaults : Config.Config → Config.Config
with_defaults cfg = record cfg {
  payments = record cfg.payments {
    network = or_else cfg.payments.network default_network;
    asset = or_else cfg.payments.asset default_asset;
  };
}

unfoldable pub merchant_config : Config.Config → Merchant.Config
merchant_config cfg = record {
  payout_address = cfg.payments.payout_address;
  price_cents_per_request = cfg.payments.price_cents_per_request;
  network = cfg.payments.network;
  asset = cfg.payments.asset;
}

pub data Built : Type 0 where
  built : Config.Config → Option Merchant → Built
  ended : Fatal → Built

-- `buildMerchant` of payments_stub.go
abbrev without_payments : Config.Config → Built
without_payments cfg = if cfg.payments.enabled then ended payments_unsupported else built cfg none

-- `buildMerchant` as the build has it; the one of payments_full.go also writes the configuration
unfoldable pub build_merchant : {Amount : Type 0} → Option (Chit Amount) → Config.Config → Built
build_merchant none cfg = without_payments cfg
build_merchant (some chit) cfg =
    if not cfg.payments.enabled
    then built cfg none
    else (let cfg' = with_defaults cfg in
        elim (Merchant.new chit (merchant_config cfg')) [
          | none ↦ ended merchant_failed
          | some m ↦ built cfg' (some m)
        ])

pub data Startup : Type 0 where
  -- both with whether the torrent's warning was logged
  listens : Bool → Server Merchant → Startup
  fatal : Bool → Fatal → Startup

abbrev five_minutes : ℕ
five_minutes = 5 * 60 * 1000000000

-- `NewCardFetcher` with the constants of `cmdServe`
unfoldable pub new_cards : CardCache
new_cards = CardCache.new (pos CardCache.default_max_entries) five_minutes

-- What the process finds around it: the tags of its build, its files, and net/url.
pub record World (Amount : Type 0) : Type 0 where
  pub torrent : Option TorrentLib
  pub payments : Option (Chit Amount)
  pub read_file : Bytes → Option Bytes
  pub unmarshal : Bytes → Config.Config → Option Config.Config
  pub parses_url : Bytes → Bool

module _ {Amount : Type 0} (w : World Amount) where
  -- `cmdServe` with the merchant that was built
  unfoldable pub serve_with : Bool → Built → Startup
  serve_with warned (ended e) = fatal warned e
  serve_with warned (built cfg merchant) =
      elim (Server.new w.parses_url cfg (signed_by (new_signed_verifier new_cards)) merchant) [
        | none ↦ fatal warned origin_invalid
        | some srv ↦ listens warned srv
      ]

  -- `cmdServe` with the configuration that was loaded
  unfoldable pub serve_loaded : Loaded → Startup
  serve_loaded (failed e) = fatal false (load_failed e)
  serve_loaded (loaded cfg) =
      if fails_torrent w.torrent cfg
      then fatal false torrent_unsupported
      else serve_with (torrent_ttl_too_short cfg) (build_merchant w.payments cfg)

  -- `cmdServe` with the value of its flag, up to `serve`
  unfoldable pub cmd_serve : Bytes → Startup
  cmd_serve config_path = serve_loaded (load_config w.read_file w.unmarshal config_path)

pub data Command : Type 0 where
  serve_args : List Bytes → Command
  print_version : Command
  usage_error : Command

-- `main`: the command that the arguments behind the program's name select
unfoldable pub command : List Bytes → Command
command [] = usage_error
command (name ∷ args) =
    if equal name (codes "serve")
    then serve_args args
    else (if equal name (codes "version") then print_version else usage_error)
