-- ===== src/Ratelimit/Laws.antt =====
-- The limiter refines a plain list of buckets in recency order.
use robotsyes.Base.{ℕ, Bytes, Bool, true, none, some, List, [], ◌∷◌, ◌≡◌, refl, ap, arith, take}
use robotsyes.Base.Assoc.{Assoc}
use robotsyes.Base.Int.{ℤ, positive_or_pos}
use robotsyes.Recency.Values.{values, find_key, drop_key, drop_key_absent}
use robotsyes.Recency.Refine.{absent, present, Lookup-cases, fresh-IsWf}
use robotsyes.Recency.Bounded.{IsBounded, set_value_at_front_lem, insert_lem}
use robotsyes.Ratelimit.{
  Limit, Entry, Limiter, key_of, default_max_entries, new, first_bucket, take_token, allow_key,
}

abbrev pub IsValid : Limiter → Type 0
IsValid l = IsBounded key_of l.max_entries l.buckets

abbrev pub view : Limiter → List Entry
view l = values l.buckets.order

-- The specification of a request on that list.
unfoldable pub spec_allow : ℕ → ℕ → ℕ → Bytes → List Entry → List Entry × Bool
spec_allow rpm max now k vs = elim (find_key key_of k vs) [
  | none ↦
      (take max ((record { key = k; bucket = first_bucket rpm now }) ∷ drop_key key_of k vs), true)
  | some e ↦ (
    record e { bucket = (take_token rpm now e.bucket).0 } ∷ drop_key key_of k vs,
    (take_token rpm now e.bucket).1,
  )
]

pub new-IsValid :
    (limits : Assoc Limit) (n : ℤ) → IsValid (new limits n) × (view (new limits n) ≡ [])
unfolding new
new-IsValid limits n = (
  record {
    wf = fresh-IsWf key_of;
    bounded = omega arith;
    positive = positive_or_pos n default_max_entries (omega arith);
  },
  refl,
)

-- `allow_key` keeps a valid limiter valid, keeps its settings, and does to its buckets, in the
-- order of recency, what `spec_allow` does to a plain list, with the same answer.
pub allow_key-refines :
    (rpm now : ℕ) (k : Bytes) (l : Limiter)
    → IsValid l
    → IsValid (allow_key rpm now k l).0
      × ((view (allow_key rpm now k l).0, (allow_key rpm now k l).1)
          ≡ spec_allow rpm l.max_entries now k (view l))
      × ((allow_key rpm now k l).0.limits ≡ l.limits)
      × ((allow_key rpm now k l).0.max_entries ≡ l.max_entries)
unfolding allow_key spec_allow
allow_key-refines rpm now k l valid = elim (Lookup-cases key_of k valid.wf) [
  | absent missing free gone ↦
      let entry : Entry = record { key = k; bucket = first_bucket rpm now } in
      let (bounded, shown) = insert_lem key_of l.max_entries entry valid free in
      rw (missing, gone, allow_key, spec_allow)
        (
          bounded,
          ap (λ vs. (vs, true)) (rw (drop_key_absent key_of k (view l) gone) shown),
          refl,
          refl,
        )
  | present i e here found at shown ↦
      let entry = record e { bucket = (take_token rpm now e.bucket).0 } in
      let moved = set_value_at_front_lem key_of l.max_entries i e valid found at entry refl in
      rw (here, shown, allow_key, spec_allow)
        (moved.0, ap (λ vs. (vs, (take_token rpm now e.bucket).1)) moved.1, refl, refl)
]
