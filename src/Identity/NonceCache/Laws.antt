-- ===== src/Identity/NonceCache/Laws.antt =====
-- The nonce cache refines a plain list of entries in recency order.
use robotsyes.Base.{
  ℕ, Bytes, Bool, true, false, none, some, List, [], ◌∷◌, ◌≡◌, ◌∙◌, refl, ap, arith, take,
  Bool-cases, inl, inr, if◌then◌else◌,
}
use robotsyes.Base.Int.{ℤ, positive_or_pos}
use robotsyes.Recency.Values.{values, find_key, drop_key, drop_key_absent}
use robotsyes.Recency.Refine.{absent, present, Lookup-cases, fresh-IsWf}
use robotsyes.Recency.Bounded.{IsBounded, remove_element_lem, move_to_front_lem, insert_lem}
use robotsyes.Identity.NonceCache.{
  Entry, NonceCache, nonce_of, default_max_entries, new, remove_element, insert, is_live, seen,
}

abbrev pub IsValid : NonceCache → Type 0
IsValid c = IsBounded nonce_of c.max_entries c.cache

abbrev pub view : NonceCache → List Entry
view c = values c.cache.order

abbrev pub entry_at : ℕ → Bytes → Entry
entry_at now nonce = record { nonce = nonce; seen_at = now }

-- The specification of `seen` on that list.
unfoldable pub spec_seen : ℕ → ℕ → ℕ → Bytes → List Entry → List Entry × Bool
spec_seen ttl max now k vs =
    let fresh : List Entry × Bool = (take max (entry_at now k ∷ drop_key nonce_of k vs), false) in
    elim (find_key nonce_of k vs) [
      | none ↦ fresh
      | some e ↦ if is_live ttl now e then (e ∷ drop_key nonce_of k vs, true) else fresh
    ]

pub new-IsValid :
    (n : ℤ) (ttl : ℕ) → IsValid (new n ttl) × (view (new n ttl) ≡ []) × ((new n ttl).ttl ≡ ttl)
unfolding new
new-IsValid n ttl = (
  record {
    wf = fresh-IsWf nonce_of;
    bounded = omega arith;
    positive = positive_or_pos n default_max_entries (omega arith);
  },
  refl,
  refl,
)

-- `seen` keeps a valid cache valid, keeps its settings, and does to its entries, in the order of
-- recency, what `spec_seen` does to a plain list, with the same answer.
pub seen-refines :
    (now : ℕ) (k : Bytes) (c : NonceCache)
    → IsValid c
    → IsValid (seen now k c).0
      × ((view (seen now k c).0, (seen now k c).1) ≡ spec_seen c.ttl c.max_entries now k (view c))
      × ((seen now k c).0.ttl ≡ c.ttl)
      × ((seen now k c).0.max_entries ≡ c.max_entries)
unfolding seen spec_seen insert remove_element
seen-refines now k c valid = elim (Lookup-cases nonce_of k valid.wf) [
  | absent missing free gone ↦
      let (bounded, shown) = insert_lem nonce_of c.max_entries (entry_at now k) valid free in
      rw (missing, gone, seen, spec_seen)
        (
          bounded,
          ap (λ vs. (vs, false)) (rw (drop_key_absent nonce_of k (view c) gone) shown),
          refl,
          refl,
        )
  | present i e here found at shown ↦
      let moved = move_to_front_lem nonce_of c.max_entries i e valid found at in
      let removed = remove_element_lem nonce_of c.max_entries i e valid found at in
      let inserted = insert_lem nonce_of c.max_entries (entry_at now k) removed.0 removed.2 in
      elim (Bool-cases (is_live c.ttl now e)) [
        | inl live ↦
            rw (here, shown, live, seen, spec_seen)
              (moved.0, ap (λ vs. (vs, true)) moved.1, refl, refl)
        | inr stale ↦
            rw (here, shown, stale, seen, spec_seen)
              (
                inserted.0,
                ap (λ vs. (vs, false))
                    (inserted.1 ∙ ap (λ vs. take c.max_entries (entry_at now k ∷ vs)) removed.1),
                refl,
                refl,
              )
      ]
]
