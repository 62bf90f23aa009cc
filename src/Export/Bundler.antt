-- ===== src/Export/Bundler.antt =====
-- internal/export/export.go: the cache of the bundle and its rebuilds. The fields that the
-- discovery of a sitemap reads are the field `discovery`. `make(chan struct{})` gives a channel the
-- number `made`, and a channel is closed when no running build has it.
pub mod Step
pub mod Consistent
pub mod Callers
pub mod Served
pub mod Described
pub mod Rebuilding
use robotsyes.Base.{
  ℕ, suc, Bytes, Bool, true, false, not, ◌&&◌, ◌||◌, Option, none, some, List, [], ◌∷◌, ◌++◌, equal,
  length, ◌==◌, if◌then◌else◌,
}
use robotsyes.Base.Assoc.{Assoc}
use robotsyes.Base.Int.{ℤ, pos, ◌-ℤ◌, leb_ℤ}
use robotsyes.Metrics.{Counter, inc, value, zero_counter}
use robotsyes.Export.Sitemap.{
  Origin, Settings, Page, settings, fetch_and_strip, bundle_sitemap_pages,
}
use robotsyes.Export.Manifest.{Hashing, Manifest, no_manifest, build_manifest}
use robotsyes.Export.Torrent.{TorrentLib, build_torrent_info}

pub record BundlerConfig : Type 0 where
  pub origin : Bytes
  pub paths : List Bytes
  pub ttl : ℤ
  pub sitemap_url : Bytes
  pub max_sitemap_pages : ℤ
  pub torrent_enabled : Bool
  pub torrent_seed_base_url : Bytes
  pub torrent_trackers : List Bytes

-- The error of a build: the path that could not be bundled.
pub record BuildError : Type 0 where
  pub bundling : Bytes

pub record Bundler : Type 0 where
  pub discovery : Settings
  pub paths : List Bytes
  pub ttl : ℤ
  pub torrent_enabled : Bool
  pub torrent_seed_base_url : Bytes
  pub torrent_trackers : List Bytes
  pub cached : Option (List Page)
  pub cached_manifest : Manifest
  pub cached_torrent : Option Bytes
  pub cached_seed_index : Assoc Page
  pub built_at : ℕ
  pub building : Bool
  pub build_done : Option ℕ
  pub build_err : Option BuildError
  pub builds : Counter
  pub build_failures : Counter

unfoldable pub new_bundler : BundlerConfig → Bundler
new_bundler cfg = record {
  discovery = settings cfg.origin cfg.sitemap_url cfg.max_sitemap_pages;
  paths = cfg.paths;
  ttl = cfg.ttl;
  torrent_enabled = cfg.torrent_enabled;
  torrent_seed_base_url = cfg.torrent_seed_base_url;
  torrent_trackers = cfg.torrent_trackers;
  cached = none;
  cached_manifest = no_manifest;
  cached_torrent = none;
  cached_seed_index = [];
  built_at = 0;
  building = false;
  build_done = none;
  build_err = none;
  builds = zero_counter;
  build_failures = zero_counter;
}

unfoldable pub builds_done : Bundler → ℤ
builds_done b = value b.builds

unfoldable pub failures : Bundler → ℤ
failures b = value b.build_failures

unfoldable pub page_count : Bundler → ℕ
page_count b = elim b.cached [ none ↦ 0 | some pages ↦ length pages ]

-- `time.Since(b.builtAt) >= b.TTL`
unfoldable pub is_stale : ℕ → Bundler → Bool
is_stale now b = leb_ℤ b.ttl (pos now -ℤ pos b.built_at)

pub data Rebuilt : Type 0 where
  rebuilt : List Page → Rebuilt
  rebuild_failed : BuildError → Rebuilt

module _ (o : Origin) where
  -- the loop of `rebuild`: the pages of the configured paths, or the first path that failed
  unfoldable pub explicit_pages : Settings → List Bytes → Rebuilt
  explicit_pages d [] = rebuilt []
  explicit_pages d (p ∷ ps) =
      let rest = explicit_pages d ps in
      elim (fetch_and_strip o d p) [
        | none ↦ rebuild_failed (record { bundling = p })
        | some md ↦ elim rest [
          | rebuild_failed e ↦ rebuild_failed e
          | rebuilt pages ↦ rebuilt (record { path = p; markdown = md } ∷ pages)
        ]
      ]

  -- `rebuild`, but for its counter of failures, which `finish` counts
  unfoldable pub rebuild : Bundler → Rebuilt
  rebuild b = elim (explicit_pages b.discovery b.paths) [
    | rebuild_failed e ↦ rebuild_failed e
    | rebuilt pages ↦
        if equal b.discovery.sitemap_url []
        then rebuilt pages
        else rebuilt (pages ++ bundle_sitemap_pages o b.discovery b.paths)
  ]

-- The goroutine of `startBuildLocked`: the channel it closes, and whether it records its error.
pub record Build : Type 0 where
  pub channel : ℕ
  pub record_err : Bool

-- The bundler with the builds that run and the channels that callers of `Bundle` wait for, where a
-- nil channel is `none` and never closes.
pub record System : Type 0 where
  pub bundler : Bundler
  pub made : ℕ
  pub running : List Build
  pub waiting : List (Option ℕ)

unfoldable pub start : BundlerConfig → System
start cfg = record { bundler = new_bundler cfg; made = 0; running = []; waiting = [] }

-- `startBuildLocked`, up to the goroutine that it starts
unfoldable pub start_build : Bool → System → System
start_build record_err s = record {
  bundler = record s.bundler { building = true; build_done = some s.made };
  made = suc s.made;
  running = record { channel = s.made; record_err = record_err } ∷ s.running;
  waiting = s.waiting;
}

abbrev pub wait_for : Option ℕ → System → System
wait_for done s = record s { waiting = done ∷ s.waiting }

pub data Entered : Type 0 where
  at_once : List Page → Entered
  waits : Entered

-- `Bundle` with what it finds in the cache, up to the channel that it waits for
unfoldable pub entered : ℕ → System → Option (List Page) → System × Entered
entered now s (some pages) = (
  if is_stale now s.bundler && not s.bundler.building then start_build false s else s,
  at_once pages,
)
entered now s none = (
  if s.bundler.building
      then wait_for s.bundler.build_done s
      else wait_for (some s.made) (start_build true s),
  waits,
)

unfoldable pub enter : ℕ → System → System × Entered
enter now s = entered now s s.bundler.cached

-- the results of `Bundle` after the channel was closed
unfoldable pub result : System → Option (List Page) × Option BuildError
result s = (s.bundler.cached, s.bundler.build_err)

-- whether a channel is still open
unfoldable pub in_flight : ℕ → List Build → Bool
in_flight c [] = false
in_flight c (g ∷ running) = let rest = in_flight c running in g.channel == c || rest

module _ (lib : Option TorrentLib) (h : Hashing) where
  unfoldable pub build_torrent : List Page → Bundler → Bundler
  build_torrent pages b =
      elim (build_torrent_info lib pages b.torrent_seed_base_url b.torrent_trackers) [
        | none ↦ b
        | some (encoded, index) ↦ record b {
          cached_torrent = some encoded;
          cached_seed_index = index;
        }
      ]

  -- what the goroutine does under the lock with the pages of a build
  unfoldable pub commit : ℕ → List Page → Bundler → Bundler
  commit now pages b =
      let b' = record b {
        cached = some pages;
        built_at = now;
        cached_manifest = build_manifest h pages now b.ttl;
      } in
      let b'' = if b.torrent_enabled then build_torrent pages b' else b' in
      record b'' { builds = inc b''.builds }

  abbrev recorded : Build → Option BuildError → Bundler → Bundler
  recorded g e b = record b {
    building = false;
    build_err = if g.record_err then e else b.build_err;
  }

  -- the goroutine of a build, from its `rebuild` to the end of its commit
  unfoldable pub conclude : Origin → ℕ → Build → Bundler → Bundler
  conclude o now g b = elim (rebuild o b) [
    | rebuild_failed e ↦ recorded g (some e) (record b { build_failures = inc b.build_failures })
    | rebuilt pages ↦ commit now pages (recorded g none b)
  ]

  -- the end of a build, which closes its channel
  unfoldable pub finish : Origin → ℕ → Build → List Build → System → System
  finish o now g others s = record s { bundler = conclude o now g s.bundler; running = others }
