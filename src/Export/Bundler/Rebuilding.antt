-- ===== src/Export/Bundler/Rebuilding.antt =====
-- internal/export/export.go: the pages of a rebuild, and of the bundle that is served.
use robotsyes.Base.{
  ◌≤◌, Bytes, none, some, List, [], ◌∷◌, ◌++◌, ◌≡◌, inl, inr, refl, sym, ap, arith, length, equal,
  append-nil, All, All-append, Bool-cases, Option-cases,
}
use robotsyes.Base.Star.{Star}
use robotsyes.Export.Sitemap.{
  Origin, Settings, Page, fetch_and_strip, fetch_one_page, fetch_pages, not_already,
  discover_sitemap_paths, bundle_sitemap_pages,
}
use robotsyes.Export.Sitemap.Bundled.{AddsOnce, paths, bundle_sitemap_pages_lem}
use robotsyes.Export.Bundler.{Bundler, Rebuilt, rebuilt, rebuild_failed, explicit_pages, rebuild}
use robotsyes.Export.Bundler.Step.{Step, Rebuilt-cases}

module _ (o : Origin) (d : Settings) where
  -- The page is what the origin has under its path.
  abbrev pub Fetched : Page → Type 0
  Fetched page = fetch_and_strip o d page.path ≡ some page.markdown

  abbrev Fetches : Bytes → Type 0
  Fetches p = (md : Bytes) × (fetch_and_strip o d p ≡ some md)

  -- The pages of the configured paths, in their order, and behind them those that the sitemap adds.
  abbrev pub IsBundle : List Bytes → List Page → Type 0
  IsBundle configured pages =
      (own : List Page) × (added : List Page) × (pages ≡ own ++ added)
      × (paths own ≡ configured)
      × AddsOnce configured (paths added)
      × (length added ≤ d.max_sitemap_pages)
      × All Fetched pages

  -- The first of the paths that could not be fetched.
  abbrev pub FirstFailure : List Bytes → Bytes → Type 0
  FirstFailure configured p =
      (before : List Bytes) × (after : List Bytes) × (configured ≡ before ++ (p ∷ after))
      × All Fetches before
      × (fetch_and_strip o d p ≡ none)

  fetch_one_page-Fetched :
      (p : Bytes) (page : Page) → fetch_one_page o d p ≡ some page → Fetched page
  unfolding fetch_one_page
  fetch_one_page-Fetched p page h = elim (Option-cases (fetch_and_strip o d p)) [
    | inl failed ↦ absurd (ground arith)
    | inr (md, fetched) ↦ ground (arith, fetched)
  ]

  fetch_pages-Fetched : (ps : List Bytes) → All Fetched (fetch_pages o d ps)
  unfolding fetch_pages
  fetch_pages-Fetched [] = tt
  fetch_pages-Fetched (p ∷ ps) = elim (Option-cases (fetch_one_page o d p)) [
    | inl failed ↦ rw (failed, fetch_pages) (fetch_pages-Fetched ps)
    | inr (page, fetched) ↦
        rw (fetched, fetch_pages) (fetch_one_page-Fetched p page fetched, fetch_pages-Fetched ps)
  ]

  added_Fetched : (seen : List Bytes) → All Fetched (bundle_sitemap_pages o d seen)
  unfolding bundle_sitemap_pages
  added_Fetched seen = elim (Option-cases (discover_sitemap_paths o d)) [
    | inl failed ↦ rw (failed, bundle_sitemap_pages) tt
    | inr (found, discovered) ↦
        rw (discovered, bundle_sitemap_pages) (fetch_pages-Fetched (not_already seen found))
  ]

  -- The pages of the configured paths, or the first failure among these.
  abbrev Explicit : List Bytes → Rebuilt → Type 0
  Explicit configured (rebuilt pages) = (paths pages ≡ configured) × All Fetched pages
  Explicit configured (rebuild_failed e) = FirstFailure configured e.bundling

  explicit_pages-Explicit : (ps : List Bytes) → Explicit ps (explicit_pages o d ps)
  unfolding explicit_pages
  explicit_pages-Explicit [] = (refl, tt)
  explicit_pages-Explicit (p ∷ ps) = elim (Option-cases (fetch_and_strip o d p)) [
    | inl failed ↦ rw (failed, explicit_pages) ([], ps, refl, tt, failed)
    | inr (md, fetched) ↦ elim (Rebuilt-cases (explicit_pages o d ps)) [
      | inr (pages, whole) ↦
          let (same, all) = rw whole at (explicit_pages-Explicit ps) in
          rw (fetched, explicit_pages)
            (rw (whole, explicit_pages) (ap (λ qs. p ∷ qs) same, (fetched, all)))
      | inl (e, failed) ↦
          let (before, after, split, fetches, fails) = rw failed at (explicit_pages-Explicit ps) in
          rw (fetched, explicit_pages)
            (rw (failed, explicit_pages)
              (p ∷ before, after, ap (λ qs. p ∷ qs) split, ((md, fetched), fetches), fails))
    ]
  ]

pub Rebuilds : Origin → Settings → List Bytes → Rebuilt → Type 0
Rebuilds o d configured (rebuilt pages) = IsBundle o d configured pages
Rebuilds o d configured (rebuild_failed e) = FirstFailure o d configured e.bundling

-- x
pub rebuild-Rebuilds : (o : Origin) (b : Bundler) → Rebuilds o b.discovery b.paths (rebuild o b)
unfolding rebuild Rebuilds
rebuild-Rebuilds o b = elim (Rebuilt-cases (explicit_pages o b.discovery b.paths)) [
  | inl (e, failed) ↦
      rw (failed, rebuild) (rw failed at (explicit_pages-Explicit o b.discovery b.paths))
  | inr (own, fetched) ↦
      let (same, all) = rw fetched at (explicit_pages-Explicit o b.discovery b.paths) in
      elim (Bool-cases (equal b.discovery.sitemap_url [])) [
        | inl no_sitemap ↦
            rw (fetched, rebuild)
              (rw no_sitemap (own, [], sym (append-nil own), same, tt, omega arith, all))
        | inr sitemap ↦
            let added = bundle_sitemap_pages o b.discovery b.paths in
            let (once, few) = bundle_sitemap_pages_lem o b.discovery b.paths in
            let each =
              All-append (Fetched o b.discovery) own added all
                (added_Fetched o b.discovery b.paths) in
            rw (fetched, rebuild) (rw sitemap (own, added, refl, same, once, few, each))
      ]
]
