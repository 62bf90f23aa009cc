-- ===== src/Export/Handlers.antt =====
-- internal/export/export.go: the answers of the bundler's handlers. A handler that calls `Bundle`
-- takes its results, and the bundler as it is when the handler reads it afterwards. The quality of
-- an Accept-Encoding entry is the record `Quality` of the Accept header.
pub mod Seeding
use robotsyes.Base.{
  ℕ, Bytes, Bool, true, false, not, ◌&&◌, Option, none, some, List, [], ◌∷◌, ◌++◌, codes,
  equal_fold, split, cut, cut_prefix, trim_prefix, trim_space, if◌then◌else◌,
}
use robotsyes.Base.Assoc
use robotsyes.Base.Assoc.{Assoc}
use robotsyes.Negotiate.Accept.{Quality}
use robotsyes.Export.Sitemap.{Page}
use robotsyes.Export.Manifest.{Manifest}
use robotsyes.Export.Torrent.{torrent_info_name}
use robotsyes.Export.Bundler.{Bundler, BuildError}

pub data Content : Type 0 where
  -- one JSON object a line, compressed or not
  ndjson : Bool → List Page → Content
  manifest_json : Manifest → Content
  torrent_file : Bytes → Content
  -- http.ServeContent with a name, a time and a body
  file : Bytes → ℕ → Bytes → Content

pub data Answer : Type 0 where
  not_found : Answer
  bad_gateway : BuildError → Answer
  serves : Assoc Bytes → Content → Answer

abbrev content_type : Bytes
content_type = codes "Content-Type"

module _ {Q : Type 0} (qs : Quality Q) where
  -- what an entry with the coding gzip says
  unfoldable pub gzip_allowed : Option Bytes → Bool
  gzip_allowed none = true
  gzip_allowed (some q_raw) = elim (cut_prefix (codes "q=") (trim_space q_raw)) [
    | none ↦ true
    | some q ↦ elim (qs.parse_float q) [ none ↦ true | some v ↦ qs.gt v qs.zero ]
  ]

  -- the coding of an entry, and the text behind its semicolon
  unfoldable pub coding : Bytes → Bytes × Option Bytes
  coding part = elim (cut b';' (trim_space part)) [
    | none ↦ (trim_space (trim_space part), none)
    | some (name, q_raw) ↦ (trim_space name, some q_raw)
  ]

  -- the loop of `acceptsGzip`
  unfoldable pub gzip_among : List Bytes → Bool
  gzip_among [] = false
  gzip_among (part ∷ parts) =
      let rest = gzip_among parts in
      if equal_fold (coding part).0 (codes "gzip") then gzip_allowed (coding part).1 else rest

  unfoldable pub accepts_gzip : Bytes → Bool
  accepts_gzip accept_encoding = gzip_among (split b',' accept_encoding)

  -- `ServeHTTP`
  unfoldable pub serve_bundle : Bytes → Option (List Page) → Option BuildError → Answer
  serve_bundle accept_encoding pages (some e) = bad_gateway e
  serve_bundle accept_encoding pages none =
      let gzip = accepts_gzip accept_encoding in
      let headers =
        (content_type, codes "application/x-ndjson")
        ∷ (codes "Vary", codes "Accept-Encoding")
        ∷ [] in
      serves (if gzip then headers ++ ((codes "Content-Encoding", codes "gzip") ∷ []) else headers)
        (ndjson gzip (elim pages [ none ↦ [] | some ps ↦ ps ]))

-- `ServeManifest`
unfoldable pub serve_manifest : Option BuildError → Bundler → Answer
serve_manifest (some e) b = bad_gateway e
serve_manifest none b =
    serves ((content_type, codes "application/json") ∷ []) (manifest_json b.cached_manifest)

-- `ServeTorrent`, where `torrent_enabled` never changes
unfoldable pub serve_torrent : Option BuildError → Bundler → Answer
serve_torrent err b = if not b.torrent_enabled then not_found else elim err [
  | some e ↦ bad_gateway e
  | none ↦ elim b.cached_torrent [
    | none ↦ not_found
    | some encoded ↦
        serves ((content_type, codes "application/x-bittorrent") ∷ []) (torrent_file encoded)
  ]
]

-- `ServeTorrentSeed`
unfoldable pub serve_torrent_seed : Bytes → Bundler → Answer
serve_torrent_seed seed_path b =
    let key = trim_prefix (torrent_info_name ++ (b'/' ∷ [])) seed_path in
    if not b.torrent_enabled then not_found else elim (Assoc.get key b.cached_seed_index) [
      | none ↦ not_found
      | some page ↦ serves [] (file key b.built_at page.markdown)
    ]
