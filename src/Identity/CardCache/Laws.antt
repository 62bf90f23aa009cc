-- ===== src/Identity/CardCache/Laws.antt =====
-- The card cache refines a plain list of entries in recency order.
use robotsyes.Base.{
  ℕ, ◌+◌, Bytes, Option, none, some, List, [], ◌∷◌, ◌≡◌, ◌≤◌, ◌∙◌, sym, length, take_of_length-le,
  refl, ap, arith, take, leb, Bool-cases, inl, inr, if◌then◌else◌,
}
use robotsyes.Base.Int.{ℤ, positive_or_pos}
use robotsyes.Recency.Values.{values, find_key, drop_key, drop_key_absent, length-drop_key}
use robotsyes.Recency.Refine.{absent, present, Lookup-cases, fresh-IsWf, length-values}
use robotsyes.Recency.Bounded.{
  IsBounded, remove_element_lem, move_to_front_lem, set_value_lem, insert_lem,
}
use robotsyes.Identity.Card.{Card}
use robotsyes.Identity.CardCache.{
  Entry, CardCache, key_of, default_max_entries, new, remove_element, get, put,
}

abbrev pub IsValid : CardCache → Type 0
IsValid c = IsBounded key_of c.max_entries c.cache

-- the entries, most recently used first
abbrev pub view : CardCache → List Entry
view c = values c.cache.order

-- the specification of `get` and `put` on that list
unfoldable pub spec_get : ℕ → ℕ → Bytes → List Entry → List Entry × Option Card
spec_get ttl now k vs = elim (find_key key_of k vs) [
  | none ↦ (vs, none)
  | some e ↦
      if leb (e.fetched + ttl) now
      then (drop_key key_of k vs, none)
      else (e ∷ drop_key key_of k vs, some e.card)
]

unfoldable pub spec_put : ℕ → ℕ → Bytes → Card → List Entry → List Entry
spec_put max now k card vs =
    take max ((record { key = k; card = card; fetched = now }) ∷ drop_key key_of k vs)

pub new-IsValid :
    (n : ℤ) (ttl : ℕ) → IsValid (new n ttl) × (view (new n ttl) ≡ []) × ((new n ttl).ttl ≡ ttl)
unfolding new
new-IsValid n ttl = (
  record {
    wf = fresh-IsWf key_of;
    bounded = omega arith;
    positive = positive_or_pos n default_max_entries (omega arith);
  },
  refl,
  refl,
)

module _ (now : ℕ) (k : Bytes) (c : CardCache) (valid : IsValid c) where
  -- `get` keeps a valid cache valid, keeps its settings, and does to its entries, in the order of
  -- recency, what `spec_get` does to a plain list, with the same answer.
  pub get-refines :
      IsValid (get now k c).0
      × ((view (get now k c).0, (get now k c).1) ≡ spec_get c.ttl now k (view c))
      × ((get now k c).0.ttl ≡ c.ttl)
      × ((get now k c).0.max_entries ≡ c.max_entries)
  unfolding get spec_get remove_element
  get-refines = elim (Lookup-cases key_of k valid.wf) [
    | absent missing _ gone ↦ rw (missing, gone, get, spec_get) (valid, refl, refl, refl)
    | present i e here found at shown ↦
        let removed = remove_element_lem key_of c.max_entries i e valid found at in
        let moved = move_to_front_lem key_of c.max_entries i e valid found at in
        elim (Bool-cases (leb (e.fetched + c.ttl) now)) [
          | inl stale ↦
              rw (here, shown, stale, get, spec_get)
                (removed.0, ap (λ vs. (vs, none)) removed.1, refl, refl)
          | inr live ↦
              rw (here, shown, live, get, spec_get)
                (moved.0, ap (λ vs. (vs, some e.card)) moved.1, refl, refl)
        ]
  ]

  -- `put` keeps a valid cache valid, keeps its settings, and does to its entries, in the order of
  -- recency, what `spec_put` does to a plain list.
  pub put-refines :
      (card : Card)
      → IsValid (put now k card c)
        × (view (put now k card c) ≡ spec_put c.max_entries now k card (view c))
        × ((put now k card c).ttl ≡ c.ttl)
        × ((put now k card c).max_entries ≡ c.max_entries)
  unfolding put spec_put
  put-refines card = elim (Lookup-cases key_of k valid.wf) [
    | absent missing free gone ↦
        let entry : Entry = record { key = k; card = card; fetched = now } in
        let (bounded, shown) = insert_lem key_of c.max_entries entry valid free in
        rw (missing, put)
          (
            bounded,
            unfold spec_put in rw (drop_key_absent key_of k (view c) gone) shown,
            refl,
            refl,
          )
    | present i e here found at shown ↦
        let entry : Entry = record e { card = card; fetched = now } in
        let moved = set_value_lem key_of c.max_entries i e valid found at entry refl in
        let room : length (entry ∷ drop_key key_of k (view c)) ≤ c.max_entries = omega (
          arith,
          length-drop_key key_of k (view c) shown,
          length-values c.cache.order,
          valid.bounded,
        ) in
        rw (here, put)
          (
            moved.0,
            moved.1
                ∙ sym (take_of_length-le c.max_entries (entry ∷ drop_key key_of k (view c)) room)
                ∙ ap
                    (λ j.
                      take c.max_entries (
                        record { key = j; card = card; fetched = now }
                        ∷ drop_key key_of k (view c)))
                    at,
            refl,
            refl,
          )
  ]
