-- ===== src/Export/Sitemap/Concurrent.antt =====
-- internal/export/export.go: `fetchPagesConcurrently` as the steps of its loop and its goroutines,
-- in any order. A slot is a path with the elements of `fetched` and `ok` at its index, and the
-- point that its goroutine has reached. All fetches read one state of the network.
pub mod Counts
pub mod Fetched
pub mod Ends
use robotsyes.Base.{
  ℕ, Bool, true, false, ◌+◌, ◌-◌, ◌<◌, Bytes, Option, none, some, List, [], ◌∷◌, ◌++◌, ◌≡◌, All,
}
use robotsyes.Export.Sitemap.{Origin, Settings, Page, fetch_one_page}

-- before the `go` statement, in the fetch, behind the assignment, behind `<-sem`, and behind
-- `wg.Done`
pub data Phase : Type 0 where
  unstarted fetching stored released finished : Phase

pub record Slot : Type 0 where
  pub path : Bytes
  pub phase : Phase
  pub fetched : Option Page

-- `sem` is the number of values in the channel, `wg` the counter of the WaitGroup.
pub record Fetch : Type 0 where
  pub slots : List Slot
  pub sem : ℕ
  pub wg : ℕ

abbrev pub max_concurrent_sitemap_fetches : ℕ
max_concurrent_sitemap_fetches = 10

unfoldable pub all_unstarted : List Bytes → List Slot
all_unstarted [] = []
all_unstarted (p ∷ ps) = record { path = p; phase = unstarted; fetched = none } ∷ all_unstarted ps

unfoldable pub start : List Bytes → Fetch
start ps = record { slots = all_unstarted ps; sem = 0; wg = 0 }

-- one round of the loop: `wg.Add(1)`, `sem <- struct{}{}` and the `go` statement
unfoldable pub spawn : List Slot → Slot → List Slot → Fetch → Fetch
spawn before slot after s = record {
  slots = before ++ (record slot { phase = fetching } ∷ after);
  sem = s.sem + 1;
  wg = s.wg + 1;
}

-- `<-sem`
unfoldable pub release : List Slot → Slot → List Slot → Fetch → Fetch
release before slot after s = record s {
  slots = before ++ (record slot { phase = released } ∷ after);
  sem = s.sem - 1;
}

-- `wg.Done()`
unfoldable pub finish : List Slot → Slot → List Slot → Fetch → Fetch
finish before slot after s = record s {
  slots = before ++ (record slot { phase = finished } ∷ after);
  wg = s.wg - 1;
}

-- the loop over `ok` behind `wg.Wait()`
unfoldable pub collect : List Slot → List Page
collect [] = []
collect (slot ∷ slots) =
    let rest = collect slots in elim slot.fetched [ none ↦ rest | some page ↦ page ∷ rest ]

abbrev pub has_started : Phase → Bool
has_started unstarted = false
has_started phase = true

abbrev pub HasStarted : Slot → Type 0
HasStarted slot = has_started slot.phase ≡ true

-- The loop has ended and `wg.Wait()` returns.
abbrev pub Returns : Fetch → Type 0
Returns s = All HasStarted s.slots × (s.wg ≡ 0)

module _ (o : Origin) (b : Settings) where
  -- `fetched[i], ok[i] = b.fetchOnePage(p)`
  unfoldable pub store : List Slot → Slot → List Slot → Fetch → Fetch
  store before slot after s = record s {
    slots =
        before ++ (record slot { phase = stored; fetched = fetch_one_page o b slot.path } ∷ after);
  }

  -- The next step of the loop, which waits while the channel is full, or of any goroutine.
  pub data Step (s : Fetch) : Fetch → Type 0 where
    spawned :
        (before : List Slot) (slot : Slot) (after : List Slot)
        → s.slots ≡ before ++ (slot ∷ after)
        → All HasStarted before
        → slot.phase ≡ unstarted
        → s.sem < max_concurrent_sitemap_fetches
        → Step s (spawn before slot after s)
    answered :
        (before : List Slot) (slot : Slot) (after : List Slot)
        → s.slots ≡ before ++ (slot ∷ after)
        → slot.phase ≡ fetching
        → Step s (store before slot after s)
    freed :
        (before : List Slot) (slot : Slot) (after : List Slot)
        → s.slots ≡ before ++ (slot ∷ after)
        → slot.phase ≡ stored
        → Step s (release before slot after s)
    ended :
        (before : List Slot) (slot : Slot) (after : List Slot)
        → s.slots ≡ before ++ (slot ∷ after)
        → slot.phase ≡ released
        → Step s (finish before slot after s)
