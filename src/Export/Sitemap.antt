-- ===== src/Export/Sitemap.antt =====
-- internal/export/export.go: the pages that a sitemap adds to the bundle. The decoding of the XML
-- and net/url are the record `Origin`, with what the network answers to a fetch.
pub mod Bundled
pub mod Concurrent
use robotsyes.Base.{
  ℕ, zero, suc, ◌+◌, ◌*◌, Bytes, Bool, true, false, ◌||◌, Option, none, some, List, [], ◌∷◌, ◌++◌,
  codes, equal, equal_fold, trim_suffix, length, take, ltb, leb, if◌then◌else◌,
}
use robotsyes.Base.Assoc
use robotsyes.Base.Assoc.{Assoc}
use robotsyes.Base.Int.{ℤ, positive_or}
use robotsyes.Httpx.{Response, ok, err, get_bounded}
use robotsyes.Negotiate.Strip.{Node, strip}

pub record SiteUrl : Type 0 where
  pub scheme : Bytes
  pub hostname : Bytes
  pub port : Bytes
  pub path : Bytes

pub record Origin : Type 0 where
  pub get : Bytes → Option Response
  pub parse_url : Bytes → Option SiteUrl
  pub parse_html : Bytes → Option Node
  -- the name of the first element, and the `loc` texts of the elements of a name, as
  -- xml.Decoder reads them; `none` for one that cannot be decoded
  pub root_element : Bytes → Option Bytes
  pub elements : Bytes → Bytes → List (Option Bytes)

pub record Page : Type 0 where
  pub path : Bytes
  pub markdown : Bytes

-- what the discovery reads of `Bundler`
pub record Settings : Type 0 where
  pub origin : Bytes
  pub sitemap_url : Bytes
  pub max_sitemap_pages : ℕ

unfoldable pub default_port_by_scheme : Assoc Bytes
default_port_by_scheme = (codes "http", codes "80") ∷ (codes "https", codes "443") ∷ []

-- `defaultPortByScheme[scheme] == port`, where a scheme that is not there reads as empty
unfoldable pub is_default_port : Bytes → Bytes → Bool
is_default_port scheme port = elim (Assoc.get scheme default_port_by_scheme) [
  | none ↦ equal [] port
  | some p ↦ equal p port
]

unfoldable pub host_without_default_port : SiteUrl → Bytes
host_without_default_port u =
    if equal u.port [] || is_default_port u.scheme u.port
    then u.hostname
    else u.hostname ++ (b':' ∷ u.port)

unfoldable pub same_host : SiteUrl → SiteUrl → Bool
same_host loc origin = equal_fold (host_without_default_port loc) (host_without_default_port origin)

abbrev pub max_sitemap_response_bytes : ℕ
max_sitemap_response_bytes = 5 * 1024 * 1024

abbrev pub max_page_response_bytes : ℕ
max_page_response_bytes = 10 * 1024 * 1024

abbrev pub max_sitemap_index_children : ℕ
max_sitemap_index_children = 50

-- `if len(xs) > n { xs = xs[:n] }`
unfoldable pub capped {ℓ} : {A : Type ℓ} → ℕ → List A → List A
capped n xs = if ltb n (length xs) then take n xs else xs

unfoldable pub contains : Bytes → List Bytes → Bool
contains p [] = false
contains p (q ∷ qs) = equal q p || contains p qs

-- the loop of `bundleSitemapPages`: the paths that were not there before, each once
unfoldable pub not_already : List Bytes → List Bytes → List Bytes
not_already already [] = []
not_already already (p ∷ ps) =
    let known = not_already already ps in
    let fresh = not_already (p ∷ already) ps in if contains p already then known else p ∷ fresh

abbrev pub max_sitemap_entries_per_file : ℕ
max_sitemap_entries_per_file = 20000

-- the loop of `decodeSitemapLocs`, with room for so many more
unfoldable pub decode_locs : ℕ → List (Option Bytes) → List Bytes
decode_locs room [] = []
decode_locs zero (e ∷ es) = []
decode_locs (suc room) (none ∷ es) = decode_locs (suc room) es
decode_locs (suc room) (some loc ∷ es) =
    let skipped = decode_locs (suc room) es in
    let kept = decode_locs room es in if equal loc [] then skipped else loc ∷ kept

abbrev pub default_max_sitemap_pages : ℕ
default_max_sitemap_pages = 1000

-- what `NewBundler` makes of the configured number of pages
unfoldable pub settings : Bytes → Bytes → ℤ → Settings
settings origin sitemap_url max_pages = record {
  origin = origin;
  sitemap_url = sitemap_url;
  max_sitemap_pages = positive_or max_pages default_max_sitemap_pages;
}

module _ (o : Origin) where
  unfoldable pub decode_sitemap_locs : Bytes → Bytes → List Bytes
  decode_sitemap_locs body element_name =
      decode_locs max_sitemap_entries_per_file (o.elements body element_name)

  unfoldable pub is_sitemap_index : Bytes → Option Bool
  is_sitemap_index body = elim (o.root_element body) [
    | none ↦ none
    | some name ↦ some (equal name (codes "sitemapindex"))
  ]

module _ (o : Origin) (b : Settings) where
  -- the loop of `pathsFromURLSet`
  unfoldable pub paths_on_host : SiteUrl → List Bytes → List Bytes
  paths_on_host origin [] = []
  paths_on_host origin (raw ∷ locs) =
      let rest = paths_on_host origin locs in
      elim (o.parse_url raw) [
        | none ↦ rest
        | some loc ↦
            if same_host loc origin
            then (if equal loc.path [] then codes "/" else loc.path) ∷ rest
            else rest
      ]

  unfoldable pub paths_from_url_set : Bytes → Option (List Bytes)
  paths_from_url_set body = elim (o.parse_url b.origin) [
    | none ↦ none
    | some origin ↦ some (paths_on_host origin (decode_sitemap_locs o body (codes "url")))
  ]

  -- one child sitemap; a child that fails contributes nothing
  unfoldable pub child_paths : Bytes → List Bytes
  child_paths loc = elim (get_bounded o.get loc max_sitemap_response_bytes) [
    | err e ↦ []
    | ok body ↦ elim (paths_from_url_set body) [ none ↦ [] | some paths ↦ paths ]
  ]

  -- the loop of `pathsFromSitemapIndex`, which stops when there are enough paths
  unfoldable pub collect_children : List Bytes → List Bytes → List Bytes
  collect_children paths [] = paths
  collect_children paths (loc ∷ locs) =
      let rest = collect_children (paths ++ child_paths loc) locs in
      if leb b.max_sitemap_pages (length paths) then paths else rest

  unfoldable pub paths_from_sitemap_index : Bytes → List Bytes
  paths_from_sitemap_index body =
      collect_children []
        (capped max_sitemap_index_children (decode_sitemap_locs o body (codes "sitemap")))

  -- what `discoverSitemapPaths` does with the body of the sitemap
  unfoldable pub discovered_in : Bytes → Option (List Bytes)
  discovered_in body = elim (is_sitemap_index o body) [
    | none ↦ none
    | some true ↦ some (paths_from_sitemap_index body)
    | some false ↦ paths_from_url_set body
  ]

  unfoldable pub discover_sitemap_paths : Option (List Bytes)
  discover_sitemap_paths = elim (get_bounded o.get b.sitemap_url max_sitemap_response_bytes) [
    | err e ↦ none
    | ok body ↦ elim (discovered_in body) [
      | none ↦ none
      | some paths ↦ some (capped b.max_sitemap_pages paths)
    ]
  ]

  unfoldable pub fetch_and_strip : Bytes → Option Bytes
  fetch_and_strip path =
      elim (get_bounded o.get (trim_suffix (codes "/") b.origin ++ path) max_page_response_bytes) [
        | err e ↦ none
        | ok body ↦ strip o.parse_html body
      ]

  unfoldable pub fetch_one_page : Bytes → Option Page
  fetch_one_page p = elim (fetch_and_strip p) [
    | none ↦ none
    | some md ↦ some (record { path = p; markdown = md })
  ]

  -- `fetchPagesConcurrently`: the pages in the order of their paths, whatever order they came in
  unfoldable pub fetch_pages : List Bytes → List Page
  fetch_pages [] = []
  fetch_pages (p ∷ ps) =
      let rest = fetch_pages ps in elim (fetch_one_page p) [ none ↦ rest | some page ↦ page ∷ rest ]

  unfoldable pub bundle_sitemap_pages : List Bytes → List Page
  bundle_sitemap_pages seen = elim discover_sitemap_paths [
    | none ↦ []
    | some discovered ↦ fetch_pages (not_already seen discovered)
  ]
