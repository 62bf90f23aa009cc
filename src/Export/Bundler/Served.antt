-- ===== src/Export/Bundler/Served.antt =====
-- internal/export/export.go: what a bundler serves, and how a rebuild replaces it.
use robotsyes.Base.{
  ℕ, Bytes, Bool, true, false, Option, none, some, List, ◌≡◌, ◌⊎◌, inl, inr, refl, if◌then◌else◌,
  Option-cases, Bool-cases,
}
use robotsyes.Base.Assoc.{Assoc}
use robotsyes.Base.Int.{ℤ}
use robotsyes.Export.Sitemap.{Origin, Settings, Page}
use robotsyes.Export.Manifest.{Hashing, Manifest, build_manifest}
use robotsyes.Export.Torrent.{TorrentLib, build_torrent_info}
use robotsyes.Export.Bundler.{
  Bundler, Build, System, enter, entered, start_build, wait_for, finish, rebuilt, rebuild, conclude,
  commit, build_torrent,
}
use robotsyes.Export.Bundler.Step.{finished, returned, Step, called, progress, Rebuilt-cases}

abbrev pub configuration : Bundler → Settings × List Bytes × ℤ × Bool × Bytes × List Bytes
configuration b =
    (b.discovery, b.paths, b.ttl, b.torrent_enabled, b.torrent_seed_base_url, b.torrent_trackers)

abbrev pub served : Bundler → Option (List Page) × Manifest × Option Bytes × Assoc Page × ℕ
served b = (b.cached, b.cached_manifest, b.cached_torrent, b.cached_seed_index, b.built_at)

record Same (b b' : Bundler) : Type 0 where
  serves : served b' ≡ served b
  configured : configuration b' ≡ configuration b

Same-refl : (b : Bundler) → Same b b
Same-refl b = record { serves = refl; configured = refl }

Same-building :
    (b : Bundler) (channel : Option ℕ) → Same b (record b { building = true; build_done = channel })
Same-building b channel = record { serves = refl; configured = refl }

if-Same :
    (b : Bundler) (test : Bool) (s t : System)
    → Same b s.bundler
    → Same b t.bundler
    → Same b (if test then s else t).bundler
if-Same b true s t hs ht = hs
if-Same b false s t hs ht = ht

entered-Same :
    (now : ℕ) (s : System) (c : Option (List Page)) → Same s.bundler (entered now s c).0.bundler
unfolding entered start_build
entered-Same now s (some pages) =
    if-Same s.bundler _ (start_build false s) s (Same-building s.bundler (some s.made))
      (Same-refl s.bundler)
entered-Same now s none =
    if-Same s.bundler s.bundler.building (wait_for s.bundler.build_done s)
      (wait_for (some s.made) (start_build true s)) (Same-refl s.bundler)
      (Same-building s.bundler (some s.made))

enter-Same : (now : ℕ) (s : System) → Same s.bundler (enter now s).0.bundler
unfolding enter
enter-Same now s = entered-Same now s s.bundler.cached

module _ (lib : Option TorrentLib) (h : Hashing) where
  -- A torrent and its index are of one build from the pages, or the previous ones are kept.
  abbrev pub Torrents : List Page → Bundler → Bundler → Type 0
  Torrents pages b b' =
      ((b'.cached_torrent ≡ b.cached_torrent) × (b'.cached_seed_index ≡ b.cached_seed_index))
      ⊎ ((encoded : Bytes) × (index : Assoc Page) × (build_torrent_info lib pages
              b.torrent_seed_base_url b.torrent_trackers
            ≡ some (encoded, index))
          × (b'.cached_torrent ≡ some encoded)
          × (b'.cached_seed_index ≡ index))

  abbrev pub Replaced : ℕ → List Page → Bundler → Bundler → Type 0
  Replaced now pages b b' =
      (b'.cached ≡ some pages)
      × (b'.cached_manifest ≡ build_manifest h pages now b.ttl)
      × (b'.built_at ≡ now)
      × Torrents pages b b'

  commit-Replaced :
      (now : ℕ) (pages : List Page) (b : Bundler)
      → Replaced now pages b (commit lib h now pages b)
        × (configuration (commit lib h now pages b) ≡ configuration b)
  unfolding commit build_torrent
  commit-Replaced now pages b = elim (Bool-cases b.torrent_enabled) [
    | inr off ↦ rw (off, commit) ((refl, refl, refl, inl (refl, refl)), refl)
    | inl on ↦
        elim (Option-cases
          (build_torrent_info lib pages b.torrent_seed_base_url b.torrent_trackers)) [
            | inl failed ↦
                rw (on, commit)
                  (rw (failed, build_torrent) ((refl, refl, refl, inl (refl, refl)), refl))
            | inr ((encoded, index), built) ↦
                rw (on, commit)
                  (rw (built, build_torrent)
                    ((refl, refl, refl, inr (encoded, index, refl, refl, refl)), refl))
          ]
  ]

  -- What is served stays as it was, or a rebuild succeeded and replaces it.
  abbrev pub Serves : Bundler → Bundler → Type 0
  Serves b b' =
      (served b' ≡ served b)
      ⊎ ((o : Origin) × (now : ℕ) × (pages : List Page) × (rebuild o b ≡ rebuilt pages)
          × Replaced now pages b b')

  conclude-Serves :
      (o : Origin) (now : ℕ) (g : Build) (b : Bundler)
      → Serves b (conclude lib h o now g b)
        × (configuration (conclude lib h o now g b) ≡ configuration b)
  unfolding conclude
  conclude-Serves o now g b = elim (Rebuilt-cases (rebuild o b)) [
    | inl (e, failed) ↦ rw (failed, conclude) (inl refl, refl)
    | inr (pages, ok) ↦
        let (replaced, same) = commit-Replaced now pages _ in
        rw (ok, conclude) (inr (o, now, pages, ok, replaced), same)
  ]

  -- A step of a caller or a build leaves the bundle, its manifest, its time, the torrent and the
  -- seed index as they were, or a rebuild succeeded: then the bundle and the manifest are those of
  -- its pages, and the torrent and the seed index are both of its pages or both as before. No step
  -- changes the configuration.
  pub Step-Serves :
      (s t : System)
      → Step lib h s t
      → Serves s.bundler t.bundler × (configuration t.bundler ≡ configuration s.bundler)
  unfolding finish
  Step-Serves s t (called now _) = let same = enter-Same now s in (inl same.serves, same.configured)
  Step-Serves s t (progress (finished o now g before after _ runs)) =
      conclude-Serves o now g s.bundler
  Step-Serves s t (progress (returned c before after _ waits closed)) = (inl refl, refl)
