-- ===== src/Export/Sitemap/Concurrent/Fetched.antt =====
-- internal/export/export.go: what the concurrent fetches return.
use robotsyes.Base.{
  suc, ◌+◌, ◌≤◌, Bytes, true, none, some, List, [], ◌∷◌, ◌++◌, ◌≡◌, refl, sym, ap, ◌∙◌, arith, All,
  if◌then◌else◌, All-middle, All-replace,
}
use robotsyes.Base.Star.{Star, Star-keeps}
use robotsyes.Export.Sitemap.{Origin, Settings, fetch_one_page, fetch_pages}
use robotsyes.Export.Sitemap.Concurrent.{
  Phase, unstarted, fetching, stored, released, finished, Slot, Fetch, start, all_unstarted, spawn,
  store, release, finish, collect, has_started, HasStarted, Returns, Step, spawned, answered, freed,
  ended, max_concurrent_sitemap_fetches,
}
use robotsyes.Export.Sitemap.Concurrent.Counts.{
  holds, runs, steps_left, has_answer, total, total-middle, paths_of, paths_of-middle,
}

module _ (o : Origin) (b : Settings) where
  abbrev pub IsAnswer : Slot → Type 0
  IsAnswer slot =
      slot.fetched ≡ (if has_answer slot.phase then fetch_one_page o b slot.path else none)

  pub record IsFetch (ps : List Bytes) (s : Fetch) : Type 0 where
    pub paths : paths_of s.slots ≡ ps
    pub answers : All IsAnswer s.slots
    pub sem_is : s.sem ≡ total holds s.slots
    pub wg_is : s.wg ≡ total runs s.slots
    pub sem_max : s.sem ≤ max_concurrent_sitemap_fetches

  -- One goroutine moves on.
  moved :
      (ps : List Bytes) (before after : List Slot) (slot slot' : Slot) (s t : Fetch)
      → s.slots ≡ before ++ (slot ∷ after)
      → t.slots ≡ before ++ (slot' ∷ after)
      → slot'.path ≡ slot.path
      → IsAnswer slot'
      → s.sem + holds slot'.phase ≡ t.sem + holds slot.phase
      → s.wg + runs slot'.phase ≡ t.wg + runs slot.phase
      → t.sem ≤ max_concurrent_sitemap_fetches
      → IsFetch ps s
      → IsFetch ps t
  moved ps before after slot slot' s t is is' same answer sem wg max f = record {
    paths =
        ap paths_of is'
        ∙ (paths_of-middle before slot slot' after same ∙ (sym (ap paths_of is) ∙ f.paths));
    answers = rw is' (All-replace IsAnswer before after slot slot' (rw is at f.answers) answer);
    sem_is =
        let were = total-middle holds before slot after in
        let now = total-middle holds before slot' after in
        let was = ap (total holds) is in let will = ap (total holds) is' in omega (arith, f.sem_is);
    wg_is =
        let were = total-middle runs before slot after in
        let now = total-middle runs before slot' after in
        let was = ap (total runs) is in let will = ap (total runs) is' in omega (arith, f.wg_is);
    sem_max = max;
  }

  holds_middle :
      (ps : List Bytes) (before after : List Slot) (slot : Slot) (s : Fetch)
      → s.slots ≡ before ++ (slot ∷ after)
      → IsFetch ps s
      → (holds slot.phase ≤ s.sem) × (runs slot.phase ≤ s.wg)
  holds_middle ps before after slot s is f =
      let h = total-middle holds before slot after in
      let hs = ap (total holds) is in
      let r = total-middle runs before slot after in
      let rs = ap (total runs) is in (omega (arith, f.sem_is), omega (arith, f.wg_is))

  Step-IsFetch : (ps : List Bytes) (s t : Fetch) → Step o b s t → IsFetch ps s → IsFetch ps t
  unfolding spawn store release finish
  Step-IsFetch ps s t (spawned before slot after is _ at free) f =
      let none_yet = All-middle IsAnswer before after slot (rw is at f.answers) in
      let h = ap holds at in
      let r = ap runs at in
      moved ps before after slot (record slot { phase = fetching }) s _ is refl refl (ground arith)
        (omega arith) (omega arith) (omega arith) f
  Step-IsFetch ps s t (answered before slot after is at) f =
      let h = ap holds at in
      let r = ap runs at in
      moved ps before after slot _ s _ is refl refl refl (omega arith) (omega arith) f.sem_max f
  Step-IsFetch ps s t (freed before slot after is at) f =
      let answer = All-middle IsAnswer before after slot (rw is at f.answers) in
      let h = ap holds at in
      let r = ap runs at in
      let (held, ran) = holds_middle ps before after slot s is f in
      moved ps before after slot (record slot { phase = released }) s _ is refl refl (ground arith)
        (omega arith) (omega arith) (omega (arith, f.sem_max)) f
  Step-IsFetch ps s t (ended before slot after is at) f =
      let answer = All-middle IsAnswer before after slot (rw is at f.answers) in
      let h = ap holds at in
      let r = ap runs at in
      let (held, ran) = holds_middle ps before after slot s is f in
      moved ps before after slot (record slot { phase = finished }) s _ is refl refl (ground arith)
        (omega arith) (omega arith) f.sem_max f

  start-IsFetch : (ps : List Bytes) → IsFetch ps (start ps)
  unfolding start all_unstarted
  start-IsFetch [] = record {
    paths = refl;
    answers = tt;
    sem_is = refl;
    wg_is = refl;
    sem_max = omega arith;
  }
  start-IsFetch (p ∷ ps) =
      let f = start-IsFetch ps in
      record {
        paths = ap (λ qs. p ∷ qs) f.paths;
        answers = (refl, f.answers);
        sem_is = omega (arith, f.sem_is);
        wg_is = omega (arith, f.wg_is);
        sem_max = omega arith;
      }

  pub reachable-IsFetch :
      (ps : List Bytes) {s : Fetch} → Star (Step o b) (start ps) s → IsFetch ps s
  reachable-IsFetch ps steps = Star-keeps (IsFetch ps) (Step-IsFetch ps) steps (start-IsFetch ps)

  answered_at :
      (slot : Slot)
      → IsAnswer slot
      → HasStarted slot
      → runs slot.phase ≡ 0
      → slot.fetched ≡ fetch_one_page o b slot.path
  answered_at slot answer begun done = at_phase slot.phase answer begun done
    where
      at_phase :
          (ph : Phase)
          → slot.fetched ≡ (if has_answer ph then fetch_one_page o b slot.path else none)
          → has_started ph ≡ true
          → runs ph ≡ 0
          → slot.fetched ≡ fetch_one_page o b slot.path
      at_phase finished answer begun done = answer
      at_phase unstarted answer begun done = absurd (ground arith)
      at_phase fetching answer begun done = absurd (omega arith)
      at_phase stored answer begun done = answer
      at_phase released answer begun done = answer

  collected :
      (slots : List Slot)
      → All IsAnswer slots
      → All HasStarted slots
      → total runs slots ≡ 0
      → collect slots ≡ fetch_pages o b (paths_of slots)
  unfolding collect fetch_pages
  collected [] _ _ _ = refl
  collected (slot ∷ slots) (answer, answers) (begun, started) none_runs =
      let rest = collected slots answers started (omega arith) in
      let is : slot.fetched ≡ fetch_one_page o b slot.path =
        answered_at slot answer begun (omega arith) in
      rw (is, collect)
        (λ i. elim (fetch_one_page o b slot.path) [ none ↦ rest i | some page ↦ page ∷ rest i ])

  fewer :
      (before : List Slot) (slot slot' : Slot) (after : List Slot) (s : Fetch)
      → s.slots ≡ before ++ (slot ∷ after)
      → suc (steps_left slot'.phase) ≡ steps_left slot.phase
      → suc (total steps_left (before ++ (slot' ∷ after))) ≡ total steps_left s.slots
  fewer before slot slot' after s is one =
      let were = total-middle steps_left before slot after in
      let now = total-middle steps_left before slot' after in
      let was = ap (total steps_left) is in omega arith

  pub Step-size :
      (s t : Fetch) → Step o b s t → suc (total steps_left t.slots) ≡ total steps_left s.slots
  unfolding spawn store release finish
  Step-size s t (spawned before slot after is _ at free) =
      fewer before slot _ after s is (omega (arith, ap steps_left at))
  Step-size s t (answered before slot after is at) =
      fewer before slot _ after s is (omega (arith, ap steps_left at))
  Step-size s t (freed before slot after is at) =
      fewer before slot _ after s is (omega (arith, ap steps_left at))
  Step-size s t (ended before slot after is at) =
      fewer before slot _ after s is (omega (arith, ap steps_left at))

  -- In whatever order the goroutines of `fetchPagesConcurrently` fetch, store and end, when it has
  -- waited for all of them it returns the pages that fetching one path after the other returns, in
  -- the order of the paths.
  pub concurrent-eq-sequential :
      (ps : List Bytes) {s : Fetch}
      → Star (Step o b) (start ps) s
      → Returns s
      → collect s.slots ≡ fetch_pages o b ps
  concurrent-eq-sequential ps {s} steps (begun, none_runs) =
      let f = reachable-IsFetch ps steps in
      collected s.slots f.answers begun (sym f.wg_is ∙ none_runs) ∙ ap (fetch_pages o b) f.paths
