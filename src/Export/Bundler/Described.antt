-- ===== src/Export/Bundler/Described.antt =====
-- internal/export/export.go: what a bundler holds, in terms of its configuration.
use robotsyes.Base.{Bytes, Option, none, some, List, [], ◌≡◌, ◌⊎◌, inl, inr, refl, sym, ◌∙◌, ap}
use robotsyes.Base.Assoc.{Assoc}
use robotsyes.Base.Star.{Star, Star-keeps}
use robotsyes.Export.Sitemap.{Origin, Page}
use robotsyes.Export.Manifest.{Hashing, no_manifest, build_manifest}
use robotsyes.Export.Torrent.{TorrentLib, build_torrent_info}
use robotsyes.Export.Bundler.{BundlerConfig, Bundler, System, start, new_bundler, rebuilt, rebuild}
use robotsyes.Export.Bundler.Step.{Step}
use robotsyes.Export.Bundler.Served.{configuration, served, Torrents, Serves, Step-Serves}

module _ (lib : Option TorrentLib) (h : Hashing) where
  -- What the bundler serves: nothing yet, or the pages of a rebuild with the manifest of these.
  abbrev pub Bundled : BundlerConfig → Bundler → Type 0
  Bundled cfg b =
      ((b.cached ≡ none) × (b.cached_manifest ≡ no_manifest))
      ⊎ ((o : Origin) × (pages : List Page) × (rebuild o (new_bundler cfg) ≡ rebuilt pages)
          × (b.cached ≡ some pages)
          × (b.cached_manifest ≡ build_manifest h pages b.built_at cfg.ttl))

  -- No torrent, or a torrent with the index of the build that made it.
  abbrev pub Paired : BundlerConfig → Bundler → Type 0
  Paired cfg b =
      ((b.cached_torrent ≡ none) × (b.cached_seed_index ≡ []))
      ⊎ ((pages : List Page) × (encoded : Bytes) × (index : Assoc Page) × (build_torrent_info lib
              pages cfg.torrent_seed_base_url cfg.torrent_trackers
            ≡ some (encoded, index))
          × (b.cached_torrent ≡ some encoded)
          × (b.cached_seed_index ≡ index))

  pub record IsDescribed (cfg : BundlerConfig) (b : Bundler) : Type 0 where
    pub configured : configuration b ≡ configuration (new_bundler cfg)
    pub bundled : Bundled cfg b
    pub paired : Paired cfg b

  start-IsDescribed : (cfg : BundlerConfig) → IsDescribed cfg (new_bundler cfg)
  unfolding new_bundler
  start-IsDescribed cfg = record {
    configured = refl;
    bundled = inl (refl, refl);
    paired = inl (refl, refl);
  }

  rebuild-configuration :
      (o : Origin) (b b' : Bundler)
      → configuration b ≡ configuration b'
      → rebuild o b ≡ rebuild o b'
  unfolding rebuild
  rebuild-configuration o b b' same = rw (ap (λ c. c.0) same, ap (λ c. c.1) same) refl

  served-IsDescribed :
      (cfg : BundlerConfig) (b b' : Bundler)
      → served b' ≡ served b
      → configuration b' ≡ configuration b
      → IsDescribed cfg b
      → IsDescribed cfg b'
  served-IsDescribed cfg b b' same for d =
      let cached : b'.cached ≡ b.cached = ap (λ x. x.0) same in
      let manifest : b'.cached_manifest ≡ b.cached_manifest = ap (λ x. x.1) same in
      let torrent : b'.cached_torrent ≡ b.cached_torrent = ap (λ x. x.2) same in
      let index : b'.cached_seed_index ≡ b.cached_seed_index = ap (λ x. x.3) same in
      let at : b'.built_at ≡ b.built_at = ap (λ x. x.4) same in
      record {
        configured = for ∙ d.configured;
        bundled = rw (cached, manifest, at) d.bundled;
        paired = rw (torrent, index) d.paired;
      }

  Torrents-Paired :
      (cfg : BundlerConfig) (pages : List Page) (b b' : Bundler)
      → configuration b ≡ configuration (new_bundler cfg)
      → Torrents lib h pages b b'
      → Paired cfg b
      → Paired cfg b'
  unfolding new_bundler
  Torrents-Paired cfg pages b b' for (inl (torrent, index)) before = rw (torrent, index) before
  Torrents-Paired cfg pages b b' for (inr (encoded, index, built, torrent, indexed)) before =
      let base : b.torrent_seed_base_url ≡ cfg.torrent_seed_base_url = ap (λ x. x.4) for in
      let trackers : b.torrent_trackers ≡ cfg.torrent_trackers = ap (λ x. x.5) for in
      inr (pages, encoded, index, rw (base, trackers) at built, torrent, indexed)

  Serves-IsDescribed :
      (cfg : BundlerConfig) (b b' : Bundler)
      → Serves lib h b b'
      → configuration b' ≡ configuration b
      → IsDescribed cfg b
      → IsDescribed cfg b'
  unfolding new_bundler
  Serves-IsDescribed cfg b b' (inl same) for d = served-IsDescribed cfg b b' same for d
  Serves-IsDescribed cfg b b' (inr (o, now, pages, ok, (cached, manifest, at, torrents))) for d =
      let same = rebuild-configuration o b (new_bundler cfg) d.configured in
      let ttl : b.ttl ≡ cfg.ttl = ap (λ x. x.2) d.configured in
      record {
        configured = for ∙ d.configured;
        bundled = inr (o, pages, sym same ∙ ok, cached, manifest ∙ rw (ttl, at) refl);
        paired = Torrents-Paired cfg pages b b' d.configured torrents d.paired;
      }

  pub reachable-IsDescribed :
      (cfg : BundlerConfig) {s : System}
      → Star (Step lib h) (start cfg) s
      → IsDescribed cfg s.bundler
  unfolding start
  reachable-IsDescribed cfg steps =
      Star-keeps (λ s. IsDescribed cfg s.bundler)
        (λ s t step.
          let (serves, for) = Step-Serves lib h s t step in
          Serves-IsDescribed cfg s.bundler t.bundler serves for)
        steps (start-IsDescribed cfg)
