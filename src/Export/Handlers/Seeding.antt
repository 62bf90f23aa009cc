-- ===== src/Export/Handlers/Seeding.antt =====
-- internal/export/export.go: the files of a torrent are served as the torrent describes them.
use robotsyes.Base.{
  Bytes, true, Option, some, List, [], ◌∷◌, ◌++◌, ◌≡◌, inl, inr, refl, sym, ◌∙◌, ap, arith, length,
  All, join, trim_prefix,
}
use robotsyes.Base.Star.{Star}
use robotsyes.Export.Sitemap.{Page}
use robotsyes.Export.Manifest.{Hashing}
use robotsyes.Export.Torrent.{
  FileInfo, TorrentLib, slash, torrent_info_name, index_pages, contents, build_torrent_info,
}
use robotsyes.Export.Torrent.Seeds.{Indexed, build_torrent_info-Indexed}
use robotsyes.Export.Bundler.{BundlerConfig, Bundler, System, start, new_bundler}
use robotsyes.Export.Bundler.Step.{Step}
use robotsyes.Export.Bundler.Described.{reachable-IsDescribed}
use robotsyes.Export.Handlers.{file, serves, serve_torrent_seed}

-- The address of a file of the torrent, behind the prefix of the route.
abbrev pub seed_path : FileInfo → Bytes
seed_path f = (torrent_info_name ++ (b'/' ∷ [])) ++ join slash f.path

-- What is served for a file is what its pieces were computed over, of the length it states.
abbrev pub ServedAs : Bundler → FileInfo → Type 0
ServedAs b f =
    (serve_torrent_seed (seed_path f) b
      ≡ serves [] (file (join slash f.path) b.built_at (contents b.cached_seed_index f)))
    × (f.length ≡ length (contents b.cached_seed_index f))

Indexed-ServedAs :
    (b : Bundler) (f : FileInfo)
    → b.torrent_enabled ≡ true
    → Indexed b.cached_seed_index f
    → ServedAs b f
unfolding serve_torrent_seed contents join trim_prefix
Indexed-ServedAs b f on (page, shown, is) = (
  rw (serve_torrent_seed, on, contents, shown) refl,
  ap (λ x. x.length) is ∙ rw (contents, shown) refl,
)

All-ServedAs :
    (b : Bundler) (files : List FileInfo)
    → b.torrent_enabled ≡ true
    → All (Indexed b.cached_seed_index) files
    → All (ServedAs b) files
All-ServedAs b [] on h = tt
All-ServedAs b (f ∷ files) on (own, h) = (Indexed-ServedAs b f on own, All-ServedAs b files on h)

-- In every state that callers and builds can reach in any order, if torrents are on and one is
-- served, it was built from some pages, and each of its files is served as it describes.
pub torrent-ServedAs :
    (lib : Option TorrentLib) (h : Hashing) (cfg : BundlerConfig) {s : System} (encoded : Bytes)
    → Star (Step lib h) (start cfg) s
    → cfg.torrent_enabled ≡ true
    → s.bundler.cached_torrent ≡ some encoded
    → (pages : List Page) × (build_torrent_info lib pages cfg.torrent_seed_base_url
          cfg.torrent_trackers
        ≡ some (encoded, s.bundler.cached_seed_index))
      × All (ServedAs s.bundler) (index_pages pages [] []).1
unfolding new_bundler
torrent-ServedAs lib h cfg {s} encoded steps on shown =
    let d = reachable-IsDescribed lib h cfg steps in
    let on' : s.bundler.torrent_enabled ≡ true = ap (λ c. c.3) d.configured ∙ on in
    elim d.paired [
      | inl (no_torrent, _) ↦ absurd (ground arith)
      | inr (pages, encoded', index, built, torrent, indexed) ↦
          let same : encoded' ≡ encoded = ground arith in
          let ok : build_torrent_info lib pages cfg.torrent_seed_base_url cfg.torrent_trackers
              ≡ some (encoded, s.bundler.cached_seed_index) =
            built ∙ rw (same, sym indexed) refl in
          (
            pages,
            ok,
            All-ServedAs s.bundler (index_pages pages [] []).1 on'
                (build_torrent_info-Indexed lib pages cfg.torrent_seed_base_url cfg.torrent_trackers
                  ok).0,
          )
    ]
