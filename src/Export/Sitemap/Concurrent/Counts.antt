-- ===== src/Export/Sitemap/Concurrent/Counts.antt =====
-- internal/export/export.go: what the goroutines of the concurrent fetches add up to.
use robotsyes.Base.{
  sum_by, sum_by-middle, sum_by-le, ℕ, ◌+◌, ◌≤◌, Bytes, Bool, true, false, List, [], ◌∷◌, ◌++◌, ◌≡◌,
  ◌⊎◌, inl, inr, refl, ap, arith, map,
}
use robotsyes.Export.Sitemap.Concurrent.{
  Phase, unstarted, fetching, stored, released, finished, Slot, has_started,
}

-- whether a goroutine holds a value of the channel, and whether the WaitGroup counts it
abbrev pub holds : Phase → ℕ
holds unstarted = 0
holds fetching = 1
holds stored = 1
holds released = 0
holds finished = 0

abbrev pub runs : Phase → ℕ
runs unstarted = 0
runs fetching = 1
runs stored = 1
runs released = 1
runs finished = 0

abbrev pub steps_left : Phase → ℕ
steps_left unstarted = 4
steps_left fetching = 3
steps_left stored = 2
steps_left released = 1
steps_left finished = 0

abbrev pub has_answer : Phase → Bool
has_answer unstarted = false
has_answer fetching = false
has_answer phase = true

abbrev pub total : (Phase → ℕ) → List Slot → ℕ
total w slots = sum_by (λ slot. w slot.phase) slots

pub total-middle :
    (w : Phase → ℕ) (before : List Slot) (slot : Slot) (after : List Slot)
    → total w (before ++ (slot ∷ after)) ≡ total w before + w slot.phase + total w after
total-middle w before slot after = sum_by-middle (λ s. w s.phase) before slot after

abbrev pub paths_of : List Slot → List Bytes
paths_of slots = map (λ slot. slot.path) slots

pub paths_of-middle :
    (before : List Slot) (slot slot' : Slot) (after : List Slot)
    → slot'.path ≡ slot.path
    → paths_of (before ++ (slot' ∷ after)) ≡ paths_of (before ++ (slot ∷ after))
paths_of-middle [] slot slot' after same = rw same refl
paths_of-middle (s ∷ before) slot slot' after same =
    ap (λ ps. s.path ∷ ps) (paths_of-middle before slot slot' after same)

abbrev pub in_flight : Phase → ℕ
in_flight unstarted = 0
in_flight fetching = 1
in_flight stored = 0
in_flight released = 0
in_flight finished = 0

pub total-le :
    (v w : Phase → ℕ)
    → ((ph : Phase) → v ph ≤ w ph)
    → (slots : List Slot) → total v slots ≤ total w slots
total-le v w le slots = sum_by-le (λ s. v s.phase) (λ s. w s.phase) (λ s. le s.phase) slots

pub in_flight-le-holds : (ph : Phase) → in_flight ph ≤ holds ph
in_flight-le-holds unstarted = omega arith
in_flight-le-holds fetching = omega arith
in_flight-le-holds stored = omega arith
in_flight-le-holds released = omega arith
in_flight-le-holds finished = omega arith

pub holds-le-runs : (ph : Phase) → holds ph ≤ runs ph
holds-le-runs unstarted = omega arith
holds-le-runs fetching = omega arith
holds-le-runs stored = omega arith
holds-le-runs released = omega arith
holds-le-runs finished = omega arith

pub runs-cases : (ph : Phase) → (runs ph ≡ 0) ⊎ (runs ph ≡ 1)
runs-cases unstarted = inl refl
runs-cases fetching = inr refl
runs-cases stored = inr refl
runs-cases released = inr refl
runs-cases finished = inl refl

pub started-cases : (ph : Phase) → (ph ≡ unstarted) ⊎ (has_started ph ≡ true)
started-cases unstarted = inl refl
started-cases fetching = inr refl
started-cases stored = inr refl
started-cases released = inr refl
started-cases finished = inr refl
