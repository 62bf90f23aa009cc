-- ===== src/Tests/Fetching.antt =====
-- Two fetches that run at the same time, of which the second is answered first.
use robotsyes.Base.{ℕ, ◌*◌, ◌≤◌, Bytes, none, List, [], ◌∷◌, ◌≡◌, ◌⊎◌, refl, arith, codes, length}
use robotsyes.Base.Star.{Star, here, next, count}
use robotsyes.Export.Sitemap.{Settings, fetch_one_page, fetch_pages}
use robotsyes.Export.Sitemap.Concurrent.{
  Phase, unstarted, fetching, stored, released, finished, Slot, Fetch, start, all_unstarted, spawn,
  store, release, finish, collect, Returns, Step, spawned, answered, freed, ended,
}
use robotsyes.Export.Sitemap.Concurrent.Counts.{total, in_flight}
use robotsyes.Export.Sitemap.Concurrent.Fetched.{concurrent-eq-sequential}
use robotsyes.Export.Sitemap.Concurrent.Ends.{fetches_end}
use robotsyes.Tests.Bundles.{origin}

abbrev site : Settings
site = record { origin = codes "https://a"; sitemap_url = []; max_sitemap_pages = 5 }

abbrev b_path : Bytes
b_path = codes "/b"

abbrev c_path : Bytes
c_path = codes "/c"

abbrev both : List Bytes
both = b_path ∷ c_path ∷ []

abbrev waits : Bytes → Slot
waits p = record { path = p; phase = unstarted; fetched = none }

abbrev fetches : Bytes → Slot
fetches p = record (waits p) { phase = fetching }

abbrev has_page : Phase → Bytes → Slot
has_page ph p = record { path = p; phase = ph; fetched = fetch_one_page origin site p }

abbrev state : Slot → Slot → ℕ → ℕ → Fetch
state b c sem wg = record { slots = b ∷ c ∷ []; sem = sem; wg = wg }

abbrev R : Fetch → Fetch → Type 0
R = Step origin site

abbrev ends : Fetch
ends = state (has_page finished b_path) (has_page finished c_path) 0 0

steps : Star R (start both) ends
unfolding start all_unstarted spawn store release finish
steps = next (spawned [] (waits b_path) (waits c_path ∷ []) refl tt refl (omega arith)) (
    next (spawned (fetches b_path ∷ []) (waits c_path) [] refl (refl, tt) refl (omega arith)) (
      next (answered (fetches b_path ∷ []) (fetches c_path) [] refl refl) (
        next (answered [] (fetches b_path) (has_page stored c_path ∷ []) refl refl) (
          next (freed (has_page stored b_path ∷ []) (has_page stored c_path) [] refl refl) (
            next (ended (has_page stored b_path ∷ []) (has_page released c_path) [] refl refl) (
              next (freed [] (has_page stored b_path) (has_page finished c_path ∷ []) refl refl) (
                next (ended [] (has_page released b_path) (has_page finished c_path ∷ []) refl refl)
                  here)))))))

concurrent-eq-sequential_example : collect ends.slots ≡ fetch_pages origin site both
concurrent-eq-sequential_example =
    concurrent-eq-sequential origin site both steps ((refl, (refl, tt)), refl)

fetches_end_example :
    (total in_flight ends.slots ≤ 10)
    × (count steps ≤ 4 * length both)
    × (Returns ends ⊎ ((t : Fetch) × R ends t))
fetches_end_example = fetches_end origin site both steps
