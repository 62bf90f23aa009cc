-- ===== src/Export/Torrent.antt =====
-- internal/export/torrent.go and internal/export/torrent_stub.go: the torrent of a bundle. The
-- packages bencode and metainfo are the record `TorrentLib`; the build without the tag `torrent`
-- has none of it.
pub mod Seeds
use robotsyes.Base.{
  ℕ, Bytes, Bool, Option, none, some, List, [], ◌∷◌, ◌++◌, codes, equal, length, ◌==◌, split, join,
  trim, is_some, ◌>>=◌, if◌then◌else◌,
}
use robotsyes.Base.Assoc
use robotsyes.Base.Assoc.{Assoc}
use robotsyes.Export.Sitemap.{Page}

pub record FileInfo : Type 0 where
  pub path : List Bytes
  pub length : ℕ

pub record Info : Type 0 where
  pub name : Bytes
  pub files : List FileInfo
  pub piece_length : ℕ
  pub pieces : Bytes

pub record MetaInfo : Type 0 where
  pub url_list : List Bytes
  pub announce_list : List (List Bytes)
  pub info_bytes : Bytes

pub record TorrentLib : Type 0 where
  pub total_length : Info → ℕ
  pub choose_piece_length : ℕ → ℕ
  -- `Info.GeneratePieces`, with the contents that its argument opens for a file
  pub generate_pieces : (FileInfo → Bytes) → Info → Option Info
  pub marshal : Info → Option Bytes
  -- `MetaInfo.SetDefaults` and `MetaInfo.Write`
  pub write : MetaInfo → Option Bytes

-- `TorrentSupported`
unfoldable pub torrent_supported : Option TorrentLib → Bool
torrent_supported lib = is_some lib

abbrev pub torrent_info_name : Bytes
torrent_info_name = codes "pages"

abbrev pub slash : ℕ
slash = 47

unfoldable pub path_to_seed_key : Bytes → Bytes
path_to_seed_key path =
    let trimmed = trim (λ c. c == slash) path in if equal trimmed [] then codes "index" else trimmed

abbrev pub file_info : Bytes → Page → FileInfo
file_info key p = record { path = split slash key; length = length p.markdown }

-- the loop of `buildTorrentInfo`: the index and the files, where the first page with a key stays
unfoldable pub index_pages : List Page → Assoc Page → List FileInfo → Assoc Page × List FileInfo
index_pages [] index files = (index, files)
index_pages (p ∷ ps) index files =
    let key = path_to_seed_key p.path in
    let skipped = index_pages ps index files in
    let added = index_pages ps (Assoc.put key p index) (files ++ (file_info key p ∷ [])) in
    if is_some (Assoc.get key index) then skipped else added

-- what the pieces are computed over: the zero page for a file that is not in the index
unfoldable pub contents : Assoc Page → FileInfo → Bytes
contents index fi = elim (Assoc.get (join slash fi.path) index) [
  | none ↦ []
  | some page ↦ page.markdown
]

abbrev pub without_pieces : List FileInfo → Info
without_pieces files = record {
  name = torrent_info_name;
  files = files;
  piece_length = 0;
  pieces = [];
}

unfoldable pub announce_lists : List Bytes → List (List Bytes)
announce_lists [] = []
announce_lists (t ∷ ts) = (t ∷ ts) ∷ []

-- the part of `buildTorrentInfo` behind the loop
unfoldable pub encode : TorrentLib → Assoc Page → List FileInfo → Bytes → List Bytes → Option Bytes
encode lib index files seed_base_url trackers =
    let info = without_pieces files in
    let sized = record info { piece_length = lib.choose_piece_length (lib.total_length info) } in
    lib.generate_pieces (contents index) sized >>= λ complete.
    lib.marshal complete >>= λ info_bytes. lib.write (record {
      url_list = seed_base_url ∷ [];
      announce_list = announce_lists trackers;
      info_bytes = info_bytes;
    })

-- `buildTorrentInfo` of torrent_stub.go
abbrev not_compiled : List Page → Bytes → List Bytes → Option (Bytes × Assoc Page)
not_compiled pages seed_base_url trackers = none

-- `buildTorrentInfo` as the build has it
unfoldable pub build_torrent_info :
    Option TorrentLib → List Page → Bytes → List Bytes → Option (Bytes × Assoc Page)
build_torrent_info none pages seed_base_url trackers = not_compiled pages seed_base_url trackers
build_torrent_info (some lib) pages seed_base_url trackers =
    let (index, files) = index_pages pages [] [] in
    elim (encode lib index files seed_base_url trackers) [
      | none ↦ none
      | some encoded ↦ some (encoded, index)
    ]
