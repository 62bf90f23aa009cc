-- ===== src/Proxy/Bundling/Seeds.antt =====
-- internal/proxy/proxy.go: the web seed of a torrent, from its address to the bytes.
use robotsyes.Base.{
  Bytes, true, Option, some, List, [], ◌∷◌, ◌++◌, ◌≡◌, refl, codes, length, All, join, trim_suffix,
  has_prefix, trim_prefix, cut_prefix,
}
use robotsyes.Base.Star.{Star}
use robotsyes.Negotiate.Accept.{Quality}
use robotsyes.Export.Manifest.{Hashing}
use robotsyes.Export.Torrent.{
  FileInfo, TorrentLib, slash, index_pages, contents, build_torrent_info,
}
use robotsyes.Export.Sitemap.{Page}
use robotsyes.Export.Bundler.{System}
use robotsyes.Export.Bundler.Step.{Step}
use robotsyes.Export.Handlers.{serves, file}
use robotsyes.Export.Handlers.Seeding.{seed_path, ServedAs, torrent-ServedAs}
use robotsyes.Proxy.Reply.{from_bundler, serve_torrent_seed}
use robotsyes.Proxy.Server.{Server, torrent_seed_prefix, serve_well_known, seed_base_url}
use robotsyes.Proxy.Bundling.{bundler_config, bundler_start, bundler_answer}

seed_route :
    {M : Type 0} (s : Server M) (path : Bytes)
    → serve_well_known (torrent_seed_prefix ++ path) s
      ≡ some (from_bundler (serve_torrent_seed path))
unfolding serve_well_known has_prefix trim_prefix cut_prefix
seed_route s path = refl

module _ {M Q : Type 0} (qs : Quality Q) (s : Server M) (sys : System) where
  -- A request for the file's address is answered with what the file's pieces were computed over, of
  -- the length that the torrent states.
  abbrev pub IsSeeded : FileInfo → Type 0
  IsSeeded f =
      (serve_well_known (torrent_seed_prefix ++ seed_path f) s
        ≡ some (from_bundler (serve_torrent_seed (seed_path f))))
      × ((accept : Bytes)
          → bundler_answer qs accept (serve_torrent_seed (seed_path f)) sys
            ≡ serves [] (
                file (join slash f.path) sys.bundler.built_at
                  (contents sys.bundler.cached_seed_index f)))
      × (f.length ≡ length (contents sys.bundler.cached_seed_index f))

  All-IsSeeded : (files : List FileInfo) → All (ServedAs sys.bundler) files → All IsSeeded files
  unfolding bundler_answer
  All-IsSeeded [] h = tt
  All-IsSeeded (f ∷ files) ((same, size), h) =
      ((seed_route s (seed_path f), λ accept. same, size), All-IsSeeded files h)

  -- If a server's torrents are on and one is served, in any state that callers and builds can reach
  -- in any order, the torrent was built from some pages with the address of the web seed as its
  -- base; and for each of its files, the request for the file's address below this base is answered
  -- with the bytes that the file's pieces were computed over, as many as the file's length says.
  pub torrent-IsSeeded :
      (lib : Option TorrentLib) (h : Hashing) (encoded : Bytes)
      → Star (Step lib h) (bundler_start s.cfg) sys
      → s.cfg.export.torrent.enabled ≡ true
      → sys.bundler.cached_torrent ≡ some encoded
      → (pages : List Page) × (build_torrent_info lib pages
            (trim_suffix (codes "/") s.cfg.export.torrent.public_url ++ torrent_seed_prefix)
            s.cfg.export.torrent.trackers
          ≡ some (encoded, sys.bundler.cached_seed_index))
        × All IsSeeded (index_pages pages [] []).1
  unfolding bundler_start bundler_config seed_base_url
  torrent-IsSeeded lib h encoded steps on shown =
      let base : seed_base_url s.cfg
          ≡ trim_suffix (codes "/") s.cfg.export.torrent.public_url ++ torrent_seed_prefix =
        rw on refl in
      let (pages, built, each) =
        torrent-ServedAs lib h (bundler_config s.cfg) encoded steps on shown in
      let built' : build_torrent_info lib pages (seed_base_url s.cfg) s.cfg.export.torrent.trackers
          ≡ some (encoded, sys.bundler.cached_seed_index) =
        built in
      (pages, rw base at built', All-IsSeeded (index_pages pages [] []).1 each)
