-- ===== src/Config/Loading.antt =====
-- What a configuration that was loaded guarantees.
use robotsyes.Base.{
  Bytes, true, false, ◌&&◌, Option, none, some, List, [], ◌∷◌, ◌≡◌, ◌≢◌, ◌↔◌, inl, inr, arith, refl,
  sym, ap, ◌∙◌, Bool-cases, equal, equal_iff, All, Option-cases, is_some,
}
use robotsyes.Base.Assoc
use robotsyes.Base.Assoc.{Assoc}
use robotsyes.Base.Int.{ℤ}
use robotsyes.Identity.{Tier, unverified, declared, verified, tier_name}
use robotsyes.Config.{Config, loaded, required_rate_limit_tiers, missing_tier, check, load, default}

-- Every request gets the ceiling of a tier of its own, an address to be sent to, and a torrent
-- that is on has an address to be fetched from.
pub record IsRunnable (cfg : Config) : Type 0 where
  pub has_origin : cfg.origin ≢ []
  pub has_public_url : cfg.export.torrent.enabled ≡ true → cfg.export.torrent.public_url ≢ []
  pub has_ceiling : (tier : Tier) → is_some (Assoc.get (tier_name tier) cfg.rate_limits) ≡ true

abbrev HasCeiling : Assoc ℤ → Tier → Type 0
HasCeiling limits tier = is_some (Assoc.get (tier_name tier) limits) ≡ true

missing_tier-none :
    (limits : Assoc ℤ) (tiers : List Tier)
    → (missing_tier limits tiers ≡ none) ↔ All (HasCeiling limits) tiers
unfolding missing_tier
missing_tier-none limits [] = ground arith
missing_tier-none limits (tier ∷ tiers) = ground (arith, missing_tier-none limits tiers)

every_tier :
    (limits : Assoc ℤ)
    → (missing_tier limits required_rate_limit_tiers ≡ none)
      ↔ ((tier : Tier) → HasCeiling limits tier)
unfolding required_rate_limit_tiers missing_tier
every_tier limits =
    let each = missing_tier-none limits required_rate_limit_tiers in
    (
      λ h tier. elim tier [
        | unverified ↦ ground arith
        | declared ↦ ground arith
        | verified ↦ ground arith
      ],
      λ h.
          let a = h unverified in
          let b = h declared in let c = h verified in rw (missing_tier, a, b, c) refl,
    )

check_lem : (cfg : Config) {cfg' : Config} → check cfg ≡ loaded cfg' → (cfg' ≡ cfg) × IsRunnable cfg
unfolding check
check_lem cfg h = elim (Bool-cases (equal cfg.origin [])) [
  | inl empty ↦ absurd (ground arith)
  | inr nonempty ↦
      elim (Bool-cases (cfg.export.torrent.enabled && equal cfg.export.torrent.public_url [])) [
        | inl unreachable ↦ absurd (ground arith)
        | inr reachable ↦
            elim (Option-cases (missing_tier cfg.rate_limits required_rate_limit_tiers)) [
              | inr (tier, missing) ↦ absurd (ground arith)
              | inl complete ↦ (
                ground arith,
                record {
                  has_origin = λ e. ground (arith, equal_iff cfg.origin []);
                  has_public_url =
                      λ on e. ground (arith, equal_iff cfg.export.torrent.public_url []);
                  has_ceiling = (every_tier cfg.rate_limits).0 complete;
                },
              )
            ]
      ]
]

equal_of_ne : (a b : Bytes) → a ≢ b → equal a b ≡ false
equal_of_ne a b h = ground (arith, equal_iff a b)

unreachable_of_runnable :
    (cfg : Config)
    → IsRunnable cfg
    → (cfg.export.torrent.enabled && equal cfg.export.torrent.public_url []) ≡ false
unreachable_of_runnable cfg r = elim (Bool-cases cfg.export.torrent.enabled) [
  | inl on ↦ rw (on, equal_of_ne cfg.export.torrent.public_url [] (r.has_public_url on)) refl
  | inr off ↦ ground arith
]

check_runnable : (cfg : Config) → IsRunnable cfg → check cfg ≡ loaded cfg
unfolding check
check_runnable cfg r =
    let some_origin = equal_of_ne cfg.origin [] r.has_origin in
    let reachable = unreachable_of_runnable cfg r in
    let complete = (every_tier cfg.rate_limits).1 r.has_ceiling in
    ground (arith, some_origin, reachable, complete)

-- A configuration is loaded exactly if the file is read and parsed over the defaults, and the
-- result names an origin, a public address if torrents are on, and a ceiling for every tier; it is
-- then that result.
pub load_iff :
    (read_file : Bytes → Option Bytes) (unmarshal : Bytes → Config → Option Config) (path : Bytes)
    (cfg : Config)
    → (load read_file unmarshal path ≡ loaded cfg) ↔ (
        (text : Bytes) × (read_file path ≡ some text)
        × (unmarshal text default ≡ some cfg)
        × IsRunnable cfg)
unfolding load
load_iff read_file unmarshal path cfg = elim (Option-cases (read_file path)) [
  | inl unread ↦ (λ h. absurd (ground arith), λ (text, read, _, _). absurd (ground arith))
  | inr (text, read) ↦ elim (Option-cases (unmarshal text default)) [
    | inl unparsed ↦
        (λ h. absurd (ground arith), λ (text', read', parsed, _). absurd (ground arith))
    | inr (parsed_cfg, parsed) ↦ (
      λ h.
          let (is, runnable) =
            check_lem parsed_cfg (sym (rw (read, load) (rw (parsed, load) refl)) ∙ h) in
          (text, read, parsed ∙ ap some (sym is), rw is runnable),
      λ (text', read', parsed', runnable). ground (arith, check_runnable cfg runnable),
    )
  ]
]
