-- ===== src/Command/Ready.antt =====
-- cmd/robotsyes: what holds of a process that listens.
use robotsyes.Base.{
  Bytes, Bool, true, false, Option, none, some, is_some, [], ◌∷◌, ◌≡◌, inl, inr, refl, sym, ◌∙◌,
  arith, equal, Bool-cases, if◌then◌else◌,
}
use robotsyes.Base.Assoc
use robotsyes.Base.Assoc.{Assoc}
use robotsyes.Base.Int.{ℤ}
use robotsyes.Config
use robotsyes.Config.{loaded}
use robotsyes.Config.Loading.{IsRunnable, load_iff}
use robotsyes.Identity.{Tier, unverified, declared, verified, tier_name}
use robotsyes.Chitgate.Rail.{Chit}
use robotsyes.Chitgate.Merchant
use robotsyes.Chitgate.Merchant.{Merchant, mint_requirements, default_network, default_asset}
use robotsyes.Chitgate.Merchant.Construction.{new-build}
use robotsyes.Export.Torrent.{torrent_supported}
use robotsyes.Ratelimit.{published}
use robotsyes.Proxy.Discovery.{DiscoveryPayments, payments_capabilities}
use robotsyes.Proxy.Server.{Server, limits_of}
use robotsyes.Command.{
  World, with_defaults, merchant_config, fails_torrent, listens, load_config, cmd_serve,
}
use robotsyes.Command.Serving.{BuildsMerchant, BuildsMerchant-keeps, cmd_serve-IsStarted}

default_ceiling :
    (tier : Tier) → is_some (Assoc.get (tier_name tier) (Config.default).rate_limits) ≡ true
unfolding Config.default Assoc.get equal tier_name
default_ceiling unverified = refl
default_ceiling declared = refl
default_ceiling verified = refl

default-IsRunnable : IsRunnable Config.default
unfolding Config.default
default-IsRunnable = record {
  has_origin = λ e. absurd cc;
  has_public_url = λ on. absurd (ground arith);
  has_ceiling = default_ceiling;
}

-- A ceiling of the configuration is one of the limiter.
is_some-limits_of :
    (tier : Bytes) (limits : Assoc ℤ)
    → is_some (Assoc.get tier (limits_of limits)) ≡ is_some (Assoc.get tier limits)
unfolding limits_of Assoc.get
is_some-limits_of tier [] = refl
is_some-limits_of tier ((t, rpm) ∷ limits) = ground (arith, is_some-limits_of tier limits)

module _ {Amount : Type 0} (w : World Amount) where
  loaded-IsRunnable :
      (path : Bytes) (cfg : Config.Config)
      → load_config w.read_file w.unmarshal path ≡ loaded cfg
      → IsRunnable cfg
  unfolding load_config
  loaded-IsRunnable path cfg h = elim (Bool-cases (equal path [])) [
    | inl no_path ↦ let is : Config.default ≡ cfg = ground arith in rw (sym is) default-IsRunnable
    | inr given ↦ ((load_iff w.read_file w.unmarshal path cfg).0 (ground arith)).3
  ]

  -- What a server that listens can rely on.
  pub record IsReady (srv : Server Merchant) : Type 0 where
    pub runnable : IsRunnable srv.cfg
    pub has_limit :
        (tier : Tier) → is_some (Assoc.get (tier_name tier) (published srv.limiter)) ≡ true
    pub can_seed : srv.cfg.export.torrent.enabled ≡ true → torrent_supported w.torrent ≡ true
    pub can_charge : srv.cfg.payments.enabled ≡ is_some srv.payments

  BuildsMerchant-enabled :
      (cfg cfg' : Config.Config) (merchant : Option Merchant)
      → BuildsMerchant w cfg cfg' merchant
      → cfg'.payments.enabled ≡ is_some merchant
  unfolding with_defaults
  BuildsMerchant-enabled cfg cfg' merchant (inl (off, same, unpaid)) = rw (same, unpaid) off
  BuildsMerchant-enabled cfg cfg' merchant (inr (_, _, on, _, _, same, paid)) = rw (same, paid) on

  -- If the process listens, its configuration names an origin, a public address if torrents are on,
  -- and a ceiling for every tier; the limiter has a ceiling for every tier; torrents are on only if
  -- the build has them; and there is a merchant exactly if payments are on.
  pub listens-IsReady :
      (path : Bytes) {warned : Bool} {srv : Server Merchant}
      → cmd_serve w path ≡ listens warned srv
      → IsReady srv
  unfolding published fails_torrent
  listens-IsReady path {warned} {srv} h =
      let s = cmd_serve-IsStarted w path warned srv h in
      let (origin, export, limits) = BuildsMerchant-keeps w s.cfg srv.cfg srv.payments s.merchant in
      let ok = loaded-IsRunnable path s.cfg s.was_loaded in
      record {
        runnable = record {
          has_origin = λ e. ok.has_origin (sym origin ∙ e);
          has_public_url = rw export ok.has_public_url;
          has_ceiling = rw limits ok.has_ceiling;
        };
        has_limit = λ tier.
            rw s.limits
              (is_some-limits_of (tier_name tier) s.cfg.rate_limits ∙ ok.has_ceiling tier);
        can_seed = rw export (λ on. ground (arith, s.supported));
        can_charge = BuildsMerchant-enabled s.cfg srv.cfg srv.payments s.merchant;
      }

-- The document of a server without a merchant offers no payment; with one, it states the network,
-- the asset and the price of the requirements that the merchant mints for every resource.
abbrev pub Advertises :
    {Amount : Type 0} → Option (Chit Amount) → Option Merchant → DiscoveryPayments → Type 0
Advertises chit none doc = doc.supported ≡ false
Advertises none (some m) doc = ⊥
Advertises (some chit) (some m) doc =
    (doc.supported ≡ true)
    × (doc.price_cents_per_request ≡ m.price_cents)
    × ((resource : Bytes)
        → ((mint_requirements chit m resource).network ≡ doc.network)
          × ((mint_requirements chit m resource).asset ≡ doc.asset))

or_default_twice :
    (s d : Bytes)
    → (if equal (if equal s [] then d else s) [] then d else (if equal s [] then d else s))
      ≡ (if equal s [] then d else s)
or_default_twice s d = elim (Bool-cases (equal s [])) [
  | inl empty ↦ rw empty (ground arith)
  | inr given ↦ rw (given, given) refl
]

module _ {Amount : Type 0} (w : World Amount) where
  BuildsMerchant-Advertises :
      (cfg cfg' : Config.Config) (merchant : Option Merchant)
      → BuildsMerchant w cfg cfg' merchant
      → Advertises w.payments merchant (payments_capabilities cfg' merchant)
  unfolding payments_capabilities mint_requirements with_defaults merchant_config Merchant.build
  BuildsMerchant-Advertises cfg cfg' merchant (inl (_, _, unpaid)) = rw unpaid refl
  BuildsMerchant-Advertises cfg cfg' merchant (inr (chit, m, _, full, made, same, paid)) =
      let (is, _, _) = new-build chit (merchant_config (with_defaults cfg)) made in
      rw (same, paid, full, is)
        (
          refl,
          refl,
          λ resource. (
            or_default_twice cfg.payments.network default_network,
            or_default_twice cfg.payments.asset default_asset,
          ),
        )

  -- If the process listens, its discovery document offers no payment when it has no merchant, and
  -- otherwise states the price of the merchant, and the network and the asset of the requirements
  -- that the merchant mints for every resource.
  pub listens-Advertises :
      (path : Bytes) {warned : Bool} {srv : Server Merchant}
      → cmd_serve w path ≡ listens warned srv
      → Advertises w.payments srv.payments (payments_capabilities srv.cfg srv.payments)
  listens-Advertises path {warned} {srv} h =
      let s = cmd_serve-IsStarted w path warned srv h in
      BuildsMerchant-Advertises s.cfg srv.cfg srv.payments s.merchant
