-- ===== src/Export/Torrent/Seeds.antt =====
-- internal/export/torrent.go: the pages that a torrent's files are served from.
use mathlib.Core.Path.{subst}
use robotsyes.Base.{
  Bytes, Option, none, some, List, [], ◌∷◌, ◌++◌, ◌≡◌, inl, inr, refl, sym, ◌∙◌, ap, arith, All,
  All-append, Bool-cases, Option-cases, join, join-split, equal, equal_iff,
}
use robotsyes.Base.Assoc
use robotsyes.Base.Assoc.{Assoc, get-put}
use robotsyes.Export.Sitemap.{Page}
use robotsyes.Export.Torrent.{
  FileInfo, TorrentLib, slash, file_info, path_to_seed_key, index_pages, encode, build_torrent_info,
}

-- The file is that of a page that the index has under the file's own name.
abbrev pub Indexed : Assoc Page → FileInfo → Type 0
Indexed index f =
    (page : Page) × (Assoc.get (join slash f.path) index ≡ some page)
    × (f ≡ file_info (path_to_seed_key page.path) page)

-- The index has a page under the key of this one.
abbrev pub HasSeed : Assoc Page → Page → Type 0
HasSeed index p =
    (page : Page) × (Assoc.get (path_to_seed_key p.path) index ≡ some page)
    × (path_to_seed_key page.path ≡ path_to_seed_key p.path)

-- The index has under each key a page with this key.
abbrev IsIndex : Assoc Page → Type 0
IsIndex index =
    (key : Bytes) (page : Page) → Assoc.get key index ≡ some page → path_to_seed_key page.path ≡ key

-- An entry for a new key leaves the others.
get-put_new :
    (k j : Bytes) (p page : Page) (index : Assoc Page)
    → Assoc.get k index ≡ none
    → Assoc.get j index ≡ some page
    → Assoc.get j (Assoc.put k p index) ≡ some page
get-put_new k j p page index absent shown = elim (Bool-cases (equal k j)) [
  | inl same ↦ let e : k ≡ j = (equal_iff k j).0 same in absurd (ground (arith, rw e at absent))
  | inr other ↦ get-put k j p index ∙ rw other shown
]

put-Indexed :
    (k : Bytes) (p : Page) (index : Assoc Page) (files : List FileInfo)
    → Assoc.get k index ≡ none
    → All (Indexed index) files
    → All (Indexed (Assoc.put k p index)) files
put-Indexed k p index [] absent h = tt
put-Indexed k p index (f ∷ files) absent ((page, shown, is), h) = (
  (page, get-put_new k (join slash f.path) p page index absent shown, is),
  put-Indexed k p index files absent h,
)

get-put_same :
    (k : Bytes) (p : Page) (index : Assoc Page) → Assoc.get k (Assoc.put k p index) ≡ some p
get-put_same k p index = get-put k k p index ∙ ground (arith, equal_iff k k)

put-IsIndex :
    (k : Bytes) (p : Page) (index : Assoc Page)
    → path_to_seed_key p.path ≡ k
    → IsIndex index
    → IsIndex (Assoc.put k p index)
put-IsIndex k p index keyed h key page shown =
    ground (arith, get-put k key p index, equal_iff k key, h key page)

-- The index and the files that are built keep the entries of the index at the start.
abbrev Grows : Assoc Page → Assoc Page → Type 0
Grows index index' =
    (key : Bytes) (page : Page) → Assoc.get key index ≡ some page → Assoc.get key index' ≡ some page

module _ (p : Page) (ps : List Page) (index : Assoc Page) (files : List FileInfo) where
  abbrev key : Bytes
  key = path_to_seed_key p.path

  index_pages-taken :
      (first : Page)
      → Assoc.get key index ≡ some first
      → index_pages (p ∷ ps) index files ≡ index_pages ps index files
  unfolding index_pages
  index_pages-taken first shown = rw shown refl

  index_pages-new :
      Assoc.get key index ≡ none
      → index_pages (p ∷ ps) index files
        ≡ index_pages ps (Assoc.put key p index) (files ++ (file_info key p ∷ []))
  unfolding index_pages
  index_pages-new absent = rw absent refl

none_indexed : (key : Bytes) {page : Page} → Assoc.get key [] ≡ some page → ⊥
unfolding Assoc.get
none_indexed key h = absurd cc

-- What the index and the files that are built have in common.
abbrev Built : List Page → Assoc Page → Assoc Page × List FileInfo → Type 0
Built ps index r = All (Indexed r.0) r.1 × All (HasSeed r.0) ps × Grows index r.0

taken_Built :
    (p first : Page) (ps : List Page) (index : Assoc Page) (r : Assoc Page × List FileInfo)
    → Assoc.get (path_to_seed_key p.path) index ≡ some first
    → path_to_seed_key first.path ≡ path_to_seed_key p.path
    → Built ps index r
    → Built (p ∷ ps) index r
taken_Built p first ps index r shown keyed (each, seeds, grows) =
    (each, ((first, grows (path_to_seed_key p.path) first shown, keyed), seeds), grows)

new_Built :
    (p : Page) (ps : List Page) (index : Assoc Page) (r : Assoc Page × List FileInfo)
    → Assoc.get (path_to_seed_key p.path) index ≡ none
    → Built ps (Assoc.put (path_to_seed_key p.path) p index) r
    → Built (p ∷ ps) index r
new_Built p ps index r absent (each, seeds, grows) =
    let key = path_to_seed_key p.path in
    (
      each,
      ((p, grows key p (get-put_same key p index), refl), seeds),
      λ j page was. grows j page (get-put_new key j p page index absent was),
    )

nil_Built :
    (index : Assoc Page) (files : List FileInfo)
    → All (Indexed index) files
    → Built [] index (index_pages [] index files)
unfolding index_pages
nil_Built index files h = (h, tt, λ key page shown. shown)

index_pages-Built :
    (ps : List Page) (index : Assoc Page) (files : List FileInfo)
    → IsIndex index
    → All (Indexed index) files
    → Built ps index (index_pages ps index files)
index_pages-Built [] index files keyed h = nil_Built index files h
index_pages-Built (p ∷ ps) index files keyed h =
    let k = path_to_seed_key p.path in
    elim (Option-cases (Assoc.get k index)) [
      | inr (first, shown) ↦
          subst (Built (p ∷ ps) index) (sym (index_pages-taken p ps index files first shown)) (
            taken_Built p first ps index (index_pages ps index files) shown (keyed k first shown)
              (index_pages-Built ps index files keyed h))
      | inl absent ↦
          let index' = Assoc.put k p index in
          let files' = files ++ (file_info k p ∷ []) in
          let own : Indexed index' (file_info k p) =
            (p, ap (λ j. Assoc.get j index') (join-split slash k) ∙ get-put_same k p index, refl) in
          let added =
            All-append (Indexed index') files (file_info k p ∷ [])
              (put-Indexed k p index files absent h) (own, tt) in
          subst (Built (p ∷ ps) index) (sym (index_pages-new p ps index files absent)) (
            new_Built p ps index (index_pages ps index' files') absent
              (index_pages-Built ps index' files' (put-IsIndex k p index refl keyed) added))
    ]

build_torrent_info-index :
    (lib : Option TorrentLib) (pages : List Page) (base : Bytes) (trackers : List Bytes)
    {encoded : Bytes} {index : Assoc Page}
    → build_torrent_info lib pages base trackers ≡ some (encoded, index)
    → (index_pages pages [] []).0 ≡ index
unfolding build_torrent_info
build_torrent_info-index none pages base trackers h = absurd cc
build_torrent_info-index (some lib) pages base trackers h =
    let (index, files) = index_pages pages [] [] in
    elim (Option-cases (encode lib index files base trackers)) [
      | inl failed ↦ absurd (ground arith)
      | inr (written, ok) ↦ ground arith
    ]

-- x
pub build_torrent_info-Indexed :
    (lib : Option TorrentLib) (pages : List Page) (base : Bytes) (trackers : List Bytes)
    {encoded : Bytes} {index : Assoc Page}
    → build_torrent_info lib pages base trackers ≡ some (encoded, index)
    → All (Indexed index) (index_pages pages [] []).1 × All (HasSeed index) pages
build_torrent_info-Indexed lib pages base trackers {encoded} {index} h =
    let (each, seeds, _) =
      index_pages-Built pages [] [] (λ key page shown. absurd (none_indexed key shown)) tt in
    subst (λ i. All (Indexed i) (index_pages pages [] []).1 × All (HasSeed i) pages)
      (build_torrent_info-index lib pages base trackers h) (each, seeds)
