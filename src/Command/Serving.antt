-- ===== src/Command/Serving.antt =====
-- cmd/robotsyes/main.go: when the process listens, and what it advertises then.
use robotsyes.Base.{
  Bytes, Bool, true, false, Option, none, some, ◌≡◌, ◌↔◌, ◌⊎◌, inl, inr, refl, ◌∙◌, ap, arith,
  Bool-cases, Option-cases,
}
use robotsyes.Config
use robotsyes.Config.{Loaded, loaded, failed, LoadError}
use robotsyes.Chitgate.Rail.{Chit}
use robotsyes.Chitgate.Merchant
use robotsyes.Chitgate.Merchant.{Merchant, mint_requirements}
use robotsyes.Proxy.Discovery.{Verifier, signed_by}
use robotsyes.Identity.Signed.{new_signed_verifier}
use robotsyes.Proxy.Server.{Server, limits_of}
use robotsyes.Proxy.Server
use robotsyes.Ratelimit
use robotsyes.Command.{
  World, new_cards, Built, built, ended, build_merchant, with_defaults, merchant_config,
  fails_torrent, torrent_ttl_too_short, listens, serve_with, serve_loaded, load_config, cmd_serve,
}

module _ {Amount : Type 0} (w : World Amount) where
  -- The merchant that the configuration asks for, and the configuration that it is served with.
  abbrev pub BuildsMerchant : Config.Config → Config.Config → Option Merchant → Type 0
  BuildsMerchant cfg cfg' merchant =
      ((cfg.payments.enabled ≡ false) × (cfg' ≡ cfg) × (merchant ≡ none))
      ⊎ ((chit : Chit Amount) × (m : Merchant) × (cfg.payments.enabled ≡ true)
          × (w.payments ≡ some chit)
          × (Merchant.new chit (merchant_config (with_defaults cfg)) ≡ some m)
          × (cfg' ≡ with_defaults cfg)
          × (merchant ≡ some m))

  build_merchant_iff :
      (cfg cfg' : Config.Config) (merchant : Option Merchant)
      → (build_merchant w.payments cfg ≡ built cfg' merchant) ↔ BuildsMerchant cfg cfg' merchant
  unfolding build_merchant
  build_merchant_iff cfg cfg' merchant = elim (Option-cases w.payments) [
    | inl stub ↦ elim (Bool-cases cfg.payments.enabled) [
      | inl on ↦ (λ h. absurd (ground arith), λ b. absurd (ground arith))
      | inr off ↦ (λ h. inl (off, ground arith, ground arith), λ b. ground arith)
    ]
    | inr (chit, full) ↦ elim (Bool-cases cfg.payments.enabled) [
      | inr off ↦ (λ h. inl (off, ground arith, ground arith), λ b. ground arith)
      | inl on ↦ elim (Option-cases (Merchant.new chit (merchant_config (with_defaults cfg)))) [
        | inl invalid ↦ (λ h. absurd (ground arith), λ b. absurd (ground arith))
        | inr (m, made) ↦
            (λ h. inr (chit, m, on, full, made, ground arith, ground arith), λ b. ground arith)
      ]
    ]
  ]

  pub BuildsMerchant-keeps :
      (cfg cfg' : Config.Config) (merchant : Option Merchant)
      → BuildsMerchant cfg cfg' merchant
      → (cfg'.origin ≡ cfg.origin)
        × (cfg'.export ≡ cfg.export)
        × (cfg'.rate_limits ≡ cfg.rate_limits)
  unfolding with_defaults
  BuildsMerchant-keeps cfg cfg' merchant (inl (_, same, _)) = rw same (refl, refl, refl)
  BuildsMerchant-keeps cfg cfg' merchant (inr (_, _, _, _, _, same, _)) = rw same (refl, refl, refl)

  serve_with-listens :
      (warned warned' : Bool) (b : Built) (srv : Server Merchant)
      → serve_with w warned b ≡ listens warned' srv
      → (cfg : Config.Config) × (merchant : Option Merchant) × (b ≡ built cfg merchant)
        × (Server.new w.parses_url cfg (signed_by (new_signed_verifier new_cards)) merchant
            ≡ some srv)
  unfolding serve_with
  serve_with-listens warned warned' (ended e) srv h = absurd (ground arith)
  serve_with-listens warned warned' (built cfg merchant) srv h =
      let v = signed_by (new_signed_verifier new_cards) in
      elim (Option-cases (Server.new w.parses_url cfg v merchant)) [
        | inl unparsed ↦ absurd (ground arith)
        | inr (srv', new) ↦ (cfg, merchant, refl, new ∙ ground arith)
      ]

  -- The server that `New` returns, as far as the configuration goes.
  new_server :
      (cfg : Config.Config) (v : Verifier) (merchant : Option Merchant) (srv : Server Merchant)
      → Server.new w.parses_url cfg v merchant ≡ some srv
      → (srv.cfg ≡ cfg)
        × (srv.payments ≡ merchant)
        × (srv.limiter.limits ≡ limits_of cfg.rate_limits)
        × (w.parses_url cfg.origin ≡ true)
  unfolding Server.new Ratelimit.new
  new_server cfg v merchant srv h = elim (Bool-cases (w.parses_url cfg.origin)) [
    | inr unparsed ↦ absurd (ground arith)
    | inl parsed ↦ (ground arith, ground arith, ground arith, parsed)
  ]

  -- What a process that listens was started from.
  pub record IsStarted (path : Bytes) (srv : Server Merchant) : Type 0 where
    pub cfg : Config.Config
    pub was_loaded : load_config w.read_file w.unmarshal path ≡ loaded cfg
    pub supported : fails_torrent w.torrent cfg ≡ false
    pub merchant : BuildsMerchant cfg srv.cfg srv.payments
    pub limits : srv.limiter.limits ≡ limits_of cfg.rate_limits

  serve_loaded-IsStarted :
      (path : Bytes) (l : Loaded) (warned : Bool) (srv : Server Merchant)
      → load_config w.read_file w.unmarshal path ≡ l
      → serve_loaded w l ≡ listens warned srv
      → IsStarted path srv
  unfolding serve_loaded
  serve_loaded-IsStarted path (failed e) warned srv was h = absurd (ground arith)
  serve_loaded-IsStarted path (loaded cfg) warned srv was h =
      elim (Bool-cases (fails_torrent w.torrent cfg)) [
        | inl unsupported ↦ absurd (ground arith)
        | inr supported ↦
            let (cfg', merchant, is, new) =
              serve_with-listens (torrent_ttl_too_short cfg) warned (build_merchant w.payments cfg)
                srv (ground arith) in
            let (for, with, limits, _) =
              new_server cfg' (signed_by (new_signed_verifier new_cards)) merchant srv new in
            let builds = (build_merchant_iff cfg cfg' merchant).0 is in
            record {
              cfg = cfg;
              was_loaded = was;
              supported = supported;
              merchant = rw (for, with) builds;
              limits = limits ∙ ap limits_of (BuildsMerchant-keeps cfg cfg' merchant builds).2;
            }
      ]

  pub cmd_serve-IsStarted :
      (path : Bytes) (warned : Bool) (srv : Server Merchant)
      → cmd_serve w path ≡ listens warned srv
      → IsStarted path srv
  unfolding cmd_serve
  cmd_serve-IsStarted path warned srv h =
      serve_loaded-IsStarted path (load_config w.read_file w.unmarshal path) warned srv refl h
