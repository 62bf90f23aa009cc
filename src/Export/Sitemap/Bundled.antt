-- ===== src/Export/Sitemap/Bundled.antt =====
-- What a sitemap can add to the bundle.
use robotsyes.Base.{
  ℕ, ◌≤◌, Bytes, false, some, List, [], ◌∷◌, ◌≡◌, ◌⊎◌, refl, inl, inr, arith, length,
  length-take-le, Option-cases, Bool-cases, map,
}
use robotsyes.Httpx.{FetchError, Fetched, ok, err, get_bounded}
use robotsyes.Export.Sitemap.{
  Origin, Settings, Page, contains, not_already, capped, max_sitemap_response_bytes,
  discover_sitemap_paths, discovered_in, fetch_one_page, fetch_pages, bundle_sitemap_pages,
}

Fetched-cases : (f : Fetched) → ((e : FetchError) × (f ≡ err e)) ⊎ ((body : Bytes) × (f ≡ ok body))
Fetched-cases (err e) = inl (e, refl)
Fetched-cases (ok body) = inr (body, refl)

-- Every path is neither among `before` nor earlier in the list.
abbrev pub AddsOnce : List Bytes → List Bytes → Type 0
AddsOnce before [] = Unit
AddsOnce before (p ∷ ps) = (contains p before ≡ false) × AddsOnce (p ∷ before) ps

AddsOnce-weaken :
    (before before' ps : List Bytes)
    → ((q : Bytes) → contains q before' ≡ false → contains q before ≡ false)
    → AddsOnce before' ps
    → AddsOnce before ps
unfolding contains
AddsOnce-weaken before before' [] fewer h = tt
AddsOnce-weaken before before' (p ∷ ps) fewer (new, rest) = (
  fewer p new,
  AddsOnce-weaken (p ∷ before) (p ∷ before') ps (λ q h. ground (arith, fewer q)) rest,
)

not_already-AddsOnce : (already ps : List Bytes) → AddsOnce already (not_already already ps)
unfolding not_already
not_already-AddsOnce already [] = tt
not_already-AddsOnce already (p ∷ ps) = elim (Bool-cases (contains p already)) [
  | inl known ↦ rw (known, not_already) (not_already-AddsOnce already ps)
  | inr new ↦ rw (new, not_already) (new, not_already-AddsOnce (p ∷ already) ps)
]

length-not_already-le : (already ps : List Bytes) → length (not_already already ps) ≤ length ps
unfolding not_already
length-not_already-le already [] = omega arith
length-not_already-le already (p ∷ ps) =
    let known = length-not_already-le already ps in
    let new = length-not_already-le (p ∷ already) ps in ground arith

length-capped-le : (n : ℕ) (ps : List Bytes) → length (capped n ps) ≤ n
unfolding capped
length-capped-le n ps = ground (arith, length-take-le n ps)

abbrev pub paths : List Page → List Bytes
paths pages = map (λ page. page.path) pages

module _ (o : Origin) (b : Settings) where
  fetch_one_page-path : (p : Bytes) (page : Page) → fetch_one_page o b p ≡ some page → page.path ≡ p
  unfolding fetch_one_page
  fetch_one_page-path p page h = ground arith

  fetch_pages-AddsOnce :
      (before ps : List Bytes) → AddsOnce before ps → AddsOnce before (paths (fetch_pages o b ps))
  unfolding fetch_pages contains
  fetch_pages-AddsOnce before [] h = tt
  fetch_pages-AddsOnce before (p ∷ ps) (new, rest) = elim (Option-cases (fetch_one_page o b p)) [
    | inl failed ↦
        rw (failed, fetch_pages)
          (AddsOnce-weaken before (p ∷ before) (paths (fetch_pages o b ps)) (λ q h. ground arith)
            (fetch_pages-AddsOnce (p ∷ before) ps rest))
    | inr (page, fetched) ↦
        rw (fetched, fetch_pages)
          (rw (fetch_one_page-path p page fetched) (new, fetch_pages-AddsOnce (p ∷ before) ps rest))
  ]

  length-fetch_pages-le : (ps : List Bytes) → length (fetch_pages o b ps) ≤ length ps
  unfolding fetch_pages
  length-fetch_pages-le [] = omega arith
  length-fetch_pages-le (p ∷ ps) = let rest = length-fetch_pages-le ps in ground arith

  discovered_at_most :
      (found : List Bytes)
      → discover_sitemap_paths o b ≡ some found
      → length found ≤ b.max_sitemap_pages
  unfolding discover_sitemap_paths
  discovered_at_most found h =
      elim (Fetched-cases (get_bounded o.get b.sitemap_url max_sitemap_response_bytes)) [
        | inl (e, failed) ↦ absurd (ground arith)
        | inr (body, fetched) ↦ elim (Option-cases (discovered_in o b body)) [
          | inl unparsed ↦ absurd (ground arith)
          | inr (all_paths, parsed) ↦
              let few = length-capped-le b.max_sitemap_pages all_paths in ground arith
        ]
      ]

  -- The pages that a sitemap adds to the bundle are at most as many as the configured number, and
  -- the path of each is neither among those bundled before nor that of an earlier page.
  pub bundle_sitemap_pages_lem :
      (seen : List Bytes)
      → AddsOnce seen (paths (bundle_sitemap_pages o b seen))
        × (length (bundle_sitemap_pages o b seen) ≤ b.max_sitemap_pages)
  unfolding bundle_sitemap_pages
  bundle_sitemap_pages_lem seen = elim (Option-cases (discover_sitemap_paths o b)) [
    | inl failed ↦ rw (failed, bundle_sitemap_pages) (tt, omega arith)
    | inr (found, discovered) ↦
        let few = discovered_at_most found discovered in
        let shorter = length-not_already-le seen found in
        let fetched = length-fetch_pages-le (not_already seen found) in
        rw (discovered, bundle_sitemap_pages)
          (
            fetch_pages-AddsOnce seen (not_already seen found) (not_already-AddsOnce seen found),
            omega arith,
          )
  ]
