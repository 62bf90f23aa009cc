-- ===== src/Export/Sitemap/Concurrent/Ends.antt =====
-- internal/export/export.go: the concurrent fetches neither run too many at once nor get stuck.
use robotsyes.Base.{
  ◌*◌, ◌≤◌, Bytes, List, [], ◌∷◌, ◌++◌, ◌≡◌, ◌⊎◌, inl, inr, refl, ap, ◌∙◌, arith, All, length,
}
use robotsyes.Base.Star.{Star, count, count-size}
use robotsyes.Export.Sitemap.{Origin, Settings}
use robotsyes.Export.Sitemap.Concurrent.{
  Phase, unstarted, fetching, stored, released, finished, Slot, Fetch, start, all_unstarted,
  HasStarted, Returns, Step, spawned, answered, freed, ended,
}
use robotsyes.Export.Sitemap.Concurrent.Counts.{
  holds, runs, steps_left, total, in_flight, total-le, in_flight-le-holds, holds-le-runs,
  runs-cases, started-cases,
}
use robotsyes.Export.Sitemap.Concurrent.Fetched.{IsFetch, reachable-IsFetch, Step-size}

-- A slot with the slots before and after it.
record Cut (P : Slot → Type 0) (Q : Slot → Type 0) (slots : List Slot) : Type 0 where
  before : List Slot
  slot : Slot
  after : List Slot
  is : slots ≡ before ++ (slot ∷ after)
  all_before : All P before
  here_is : Q slot

abbrev Anything : Slot → Type 0
Anything slot = Unit

abbrev IsBusy : Slot → Type 0
IsBusy slot = runs slot.phase ≡ 1

abbrev IsUnstarted : Slot → Type 0
IsUnstarted slot = slot.phase ≡ unstarted

one_deeper :
    {P Q : Slot → Type 0} (s : Slot) (slots : List Slot) → P s → Cut P Q slots → Cut P Q (s ∷ slots)
one_deeper s slots p c = record {
  before = s ∷ c.before;
  slot = c.slot;
  after = c.after;
  is = ap (λ rest. s ∷ rest) c.is;
  all_before = (p, c.all_before);
  here_is = c.here_is;
}

at_front : {P Q : Slot → Type 0} (s : Slot) (slots : List Slot) → Q s → Cut P Q (s ∷ slots)
at_front s slots q = record {
  before = [];
  slot = s;
  after = slots;
  is = refl;
  all_before = tt;
  here_is = q;
}

next_runner : (slots : List Slot) → (total runs slots ≡ 0) ⊎ Cut Anything IsBusy slots
next_runner [] = inl refl
next_runner (s ∷ slots) = elim (runs-cases s.phase) [
  | inr busy ↦ inr (at_front s slots busy)
  | inl idle ↦ elim (next_runner slots) [
    | inl none_runs ↦ inl (omega arith)
    | inr c ↦ inr (one_deeper s slots tt c)
  ]
]

next_path : (slots : List Slot) → All HasStarted slots ⊎ Cut HasStarted IsUnstarted slots
next_path [] = inl tt
next_path (s ∷ slots) = elim (started-cases s.phase) [
  | inl waits ↦ inr (at_front s slots waits)
  | inr begun ↦ elim (next_path slots) [
    | inl all_begun ↦ inl (begun, all_begun)
    | inr c ↦ inr (one_deeper s slots begun c)
  ]
]

steps_at_start : (ps : List Bytes) → total steps_left (start ps).slots ≡ 4 * length ps
unfolding start all_unstarted
steps_at_start [] = refl
steps_at_start (p ∷ ps) = omega (arith, steps_at_start ps)

module _ (o : Origin) (b : Settings) where
  busy_step : (s : Fetch) → Cut Anything IsBusy s.slots → (t : Fetch) × Step o b s t
  busy_step s c = at_phase c.slot.phase refl c.here_is
    where
      at_phase : (ph : Phase) → c.slot.phase ≡ ph → runs ph ≡ 1 → (t : Fetch) × Step o b s t
      at_phase fetching at busy = (_, answered c.before c.slot c.after c.is at)
      at_phase stored at busy = (_, freed c.before c.slot c.after c.is at)
      at_phase released at busy = (_, ended c.before c.slot c.after c.is at)
      at_phase unstarted at busy = absurd (omega arith)
      at_phase finished at busy = absurd (omega arith)

  progress :
      (ps : List Bytes) (s : Fetch) → IsFetch o b ps s → Returns s ⊎ ((t : Fetch) × Step o b s t)
  progress ps s f = elim (next_runner s.slots) [
    | inr c ↦ inr (busy_step s c)
    | inl idle ↦ elim (next_path s.slots) [
      | inl begun ↦ inl (begun, f.wg_is ∙ idle)
      | inr c ↦
          let few = total-le holds runs holds-le-runs s.slots in
          inr (
            _,
            spawned c.before c.slot c.after c.is c.all_before c.here_is (omega (arith, f.sem_is)),
          )
    ]
  ]

  -- In every state that the loop of `fetchPagesConcurrently` and its goroutines can reach in any
  -- order, at most ten fetches are in flight, at most four steps were made for each path, and
  -- either it returns or there is a next step.
  pub fetches_end :
      (ps : List Bytes) {s : Fetch} (steps : Star (Step o b) (start ps) s)
      → (total in_flight s.slots ≤ 10)
        × (count steps ≤ 4 * length ps)
        × (Returns s ⊎ ((t : Fetch) × Step o b s t))
  fetches_end ps {s} steps =
      let f = reachable-IsFetch o b ps steps in
      let few = total-le in_flight holds in_flight-le-holds s.slots in
      let counted = count-size (λ u. total steps_left u.slots) (Step-size o b) steps in
      (omega (arith, f.sem_is, f.sem_max), omega (arith, steps_at_start ps), progress ps s f)
