-- ===== src/Chitgate/ReplayCache/Laws.antt =====
-- The replay cache refines a plain list of entries in recency order.
use robotsyes.Base.{
  ℕ, ◌≤◌, Bytes, Bool, true, false, none, some, List, [], ◌∷◌, ◌≡◌, ◌∙◌, refl, ap, arith, take,
  Bool-cases, inl, inr, if◌then◌else◌,
}
use robotsyes.Base.Int.{ℤ, positive_or_pos}
use robotsyes.Recency.Values.{values, find_key, drop_key, drop_key_absent}
use robotsyes.Recency.Refine.{absent, present, Lookup-cases, fresh-IsWf}
use robotsyes.Recency.Bounded.{
  IsBounded, remove_element_lem, move_to_front_lem, set_value_lem, insert_lem,
}
use robotsyes.Chitgate.ReplayCache.{
  Entry, ReplayCache, nonce_of, default_max_entries, default_ttl, new, remove_element,
  evict_if_over_capacity, is_live, reserved, spent, reserve, commit, release,
}

abbrev pub IsValid : ReplayCache → Type 0
IsValid c = IsBounded nonce_of c.max_entries c.cache

abbrev pub view : ReplayCache → List Entry
view c = values c.cache.order

-- The specification of the three operations on that list.
unfoldable pub spec_reserve : ℕ → ℕ → ℕ → Bytes → List Entry → List Entry × Bool
spec_reserve ttl max now k vs =
    let claimed : List Entry × Bool = (take max (reserved now k ∷ drop_key nonce_of k vs), true) in
    elim (find_key nonce_of k vs) [
      | none ↦ claimed
      | some e ↦ if is_live ttl now e then (e ∷ drop_key nonce_of k vs, false) else claimed
    ]

unfoldable pub spec_commit : ℕ → ℕ → Bytes → List Entry → List Entry
spec_commit max now k vs = elim (find_key nonce_of k vs) [
  | none ↦ take max (spent now k ∷ drop_key nonce_of k vs)
  | some e ↦ record e { committed = true } ∷ drop_key nonce_of k vs
]

unfoldable pub spec_release : Bytes → List Entry → List Entry
spec_release k vs = elim (find_key nonce_of k vs) [
  | none ↦ vs
  | some e ↦ if e.committed then vs else drop_key nonce_of k vs
]

-- A valid cache with the contents `vs`, and the settings of `c`.
pub record Shows (c : ReplayCache) (vs : List Entry) (c' : ReplayCache) : Type 0 where
  pub valid : IsValid c'
  pub contents : view c' ≡ vs
  pub ttl_is : c'.ttl ≡ c.ttl
  pub max_is : c'.max_entries ≡ c.max_entries

pub new-IsValid :
    (n ttl : ℤ) → IsValid (new n ttl) × (view (new n ttl) ≡ []) × (1 ≤ (new n ttl).ttl)
unfolding new
new-IsValid n ttl = (
  record {
    wf = fresh-IsWf nonce_of;
    bounded = omega arith;
    positive = positive_or_pos n default_max_entries (omega arith);
  },
  refl,
  positive_or_pos ttl default_ttl (omega arith),
)

module _ (k : Bytes) (c : ReplayCache) (valid : IsValid c) where
  -- `reserve` keeps a valid cache valid and does to its entries, in the order of recency, what
  -- `spec_reserve` does to a plain list, with the same answer.
  pub reserve-refines :
      (now : ℕ)
      → Shows c (spec_reserve c.ttl c.max_entries now k (view c)).0 (reserve now k c).0
        × ((reserve now k c).1 ≡ (spec_reserve c.ttl c.max_entries now k (view c)).1)
  unfolding reserve spec_reserve evict_if_over_capacity remove_element
  reserve-refines now = elim (Lookup-cases nonce_of k valid.wf) [
    | absent missing free gone ↦
        let (bounded, shown) = insert_lem nonce_of c.max_entries (reserved now k) valid free in
        rw (missing, gone, reserve, spec_reserve)
          (
            record {
              valid = bounded;
              contents = rw (drop_key_absent nonce_of k (view c) gone) shown;
              ttl_is = refl;
              max_is = refl;
            },
            refl,
          )
    | present i e here found at shown ↦
        let moved = move_to_front_lem nonce_of c.max_entries i e valid found at in
        let removed = remove_element_lem nonce_of c.max_entries i e valid found at in
        let inserted = insert_lem nonce_of c.max_entries (reserved now k) removed.0 removed.2 in
        elim (Bool-cases (is_live c.ttl now e)) [
          | inl live ↦
              rw (here, shown, live, reserve, spec_reserve)
                (record { valid = moved.0; contents = moved.1; ttl_is = refl; max_is = refl }, refl)
          | inr stale ↦
              rw (here, shown, stale, reserve, spec_reserve)
                (
                  record {
                    valid = inserted.0;
                    contents =
                        inserted.1 ∙ ap (λ vs. take c.max_entries (reserved now k ∷ vs)) removed.1;
                    ttl_is = refl;
                    max_is = refl;
                  },
                  refl,
                )
        ]
  ]

  -- `commit` keeps a valid cache valid and does to its entries, in the order of recency, what
  -- `spec_commit` does to a plain list.
  pub commit-refines :
      (now : ℕ) → Shows c (spec_commit c.max_entries now k (view c)) (commit now k c)
  unfolding commit spec_commit evict_if_over_capacity
  commit-refines now = elim (Lookup-cases nonce_of k valid.wf) [
    | absent missing free gone ↦
        let (bounded, shown) = insert_lem nonce_of c.max_entries (spent now k) valid free in
        rw (missing, gone, commit, spec_commit)
          (record {
            valid = bounded;
            contents = rw (drop_key_absent nonce_of k (view c) gone) shown;
            ttl_is = refl;
            max_is = refl;
          })
    | present i e here found at shown ↦
        let moved =
          set_value_lem nonce_of c.max_entries i e valid found at (record e { committed = true })
            refl in
        rw (here, shown, commit, spec_commit)
          (record { valid = moved.0; contents = moved.1; ttl_is = refl; max_is = refl })
  ]

  -- `release` keeps a valid cache valid and does to its entries, in the order of recency, what
  -- `spec_release` does to a plain list.
  pub release-refines : Shows c (spec_release k (view c)) (release k c)
  unfolding release spec_release remove_element robotsyes.Recency.remove_element
  release-refines = elim (Lookup-cases nonce_of k valid.wf) [
    | absent missing free gone ↦
        rw (missing, gone, release, spec_release)
          (record { valid = valid; contents = refl; ttl_is = refl; max_is = refl })
    | present i e here found at shown ↦
        let removed = remove_element_lem nonce_of c.max_entries i e valid found at in
        elim (Bool-cases e.committed) [
          | inl done ↦
              rw (here, shown, done, release, spec_release)
                (record { valid = valid; contents = refl; ttl_is = refl; max_is = refl })
          | inr open_claim ↦
              rw (here, shown, open_claim, release, spec_release)
                (record { valid = removed.0; contents = removed.1; ttl_is = refl; max_is = refl })
        ]
  ]
