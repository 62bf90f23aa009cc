-- ===== src/Recency/Refine.antt =====
-- What each operation does to the values that a cache shows, and that it keeps the list and the
-- map in agreement.
use robotsyes.Base.{
  ℕ, suc, ◌≤◌, Bytes, none, some, List, [], ◌∷◌, ◌≡◌, refl, ap, inl, inr, arith, equal_iff, length,
  take, take_of_length-le, ltb, Bool-cases, Option-cases,
}
use robotsyes.Base.Assoc
use robotsyes.Base.Assoc.{get-put, get-delete}
use robotsyes.Recency.{
  Element, Recency, fresh, find, remove, move_to_front, set_value, element, push, remove_element,
  evict_over,
}
use robotsyes.Recency.Values.{values, find_key, drop_key}
use robotsyes.Recency.Wf.{
  id_of, IsWf, Distinct-suc, find_fresh, find-id_of, find_key-id_of, id_of-find, find-remove_self,
  find-lt, back_lem, id_of-remove, values-remove, Distinct-remove,
}

pub length-values : {E : Type 0} (o : List (Element E)) → length (values o) ≡ length o
length-values [] = refl
length-values (e ∷ o) = ap suc (length-values o)

module _ {E : Type 0} (key : E → Bytes) where
  pub fresh-IsWf : IsWf key fresh
  unfolding Assoc.get id_of
  fresh-IsWf = record { distinct = tt; indexed = λ k. refl }

  -- looking a key up in the map finds the value that the list shows for it, or nothing
  pub data Lookup (k : Bytes) (s : Recency E) : Type 0 where
    absent :
        element k s ≡ none
        → id_of key k s.order ≡ none
        → find_key key k (values s.order) ≡ none
        → Lookup k s
    present :
        (i : ℕ) (v : E)
        → element k s ≡ some (i, v)
        → find i s.order ≡ some v
        → key v ≡ k
        → find_key key k (values s.order) ≡ some v
        → Lookup k s

  pub Lookup-cases : (k : Bytes) {s : Recency E} → IsWf key s → Lookup k s
  unfolding element
  Lookup-cases k {s} wf = elim (Option-cases (id_of key k s.order)) [
    | inl e ↦ absent (ground (arith, wf.indexed k)) e (find_key-id_of key k s.order e)
    | inr (i, e) ↦
        let (v, found, at, shown) = find-id_of key s.next k s.order wf.distinct e in
        present i v (ground (arith, wf.indexed k)) found at shown
  ]

  pub push-IsWf :
      (v : E) {s : Recency E}
      → IsWf key s
      → id_of key (key v) s.order ≡ none
      → IsWf key (push (key v) v s)
  unfolding push id_of
  push-IsWf v {s} wf gone = record {
    distinct = (
      omega arith,
      find_fresh key s.next s.order wf.distinct,
      gone,
      Distinct-suc key s.next s.order wf.distinct,
    );
    indexed = λ k. ground (arith, get-put (key v) k s.next s.items, wf.indexed k);
  }

  pub remove_element-IsWf :
      (i : ℕ) (v : E) {s : Recency E}
      → IsWf key s
      → find i s.order ≡ some v
      → IsWf key (remove_element key (i, v) s)
  unfolding remove_element
  remove_element-IsWf i v {s} wf found = record {
    distinct = Distinct-remove key s.next i s.order wf.distinct;
    indexed = λ k. ground (
      arith,
      get-delete (key v) k s.items,
      wf.indexed k,
      id_of-remove key s.next i k s.order wf.distinct found,
    );
  }

  pub id_of-remove_element :
      (i : ℕ) (v : E) {s : Recency E}
      → IsWf key s
      → find i s.order ≡ some v
      → id_of key (key v) (remove_element key (i, v) s).order ≡ none
  unfolding remove_element
  id_of-remove_element i v {s} wf found = ground (
    arith,
    id_of-remove key s.next i (key v) s.order wf.distinct found,
    equal_iff (key v) (key v),
  )

  -- the element of `i` moved to the front, holding `v'`
  abbrev pub refresh : ℕ → E → Recency E → Recency E
  refresh i v' s = record s { order = (i, v') ∷ remove i s.order }

  pub refresh-IsWf :
      (i : ℕ) (v v' : E) {s : Recency E}
      → IsWf key s
      → find i s.order ≡ some v
      → key v' ≡ key v
      → IsWf key (refresh i v' s)
  unfolding id_of
  refresh-IsWf i v v' {s} wf found same = record {
    distinct = (
      find-lt key s.next i s.order wf.distinct found,
      find-remove_self key s.next i s.order wf.distinct,
      ground (
        arith,
        id_of-remove key s.next i (key v') s.order wf.distinct found,
        equal_iff (key v) (key v'),
      ),
      Distinct-remove key s.next i s.order wf.distinct,
    );
    indexed = λ k. ground (
      arith,
      wf.indexed k,
      equal_iff (key v') k,
      equal_iff (key v) k,
      id_of-remove key s.next i k s.order wf.distinct found,
      id_of-find key s.next i s.order wf.distinct found,
    );
  }

  pub values-refresh :
      (i : ℕ) (v v' : E) {s : Recency E}
      → IsWf key s
      → find i s.order ≡ some v
      → values (refresh i v' s).order ≡ v' ∷ drop_key key (key v) (values s.order)
  values-refresh i v v' {s} wf found =
      ap (◌∷◌ v') (values-remove key s.next i s.order wf.distinct found)

  pub values-remove_element :
      (i : ℕ) (v : E) {s : Recency E}
      → IsWf key s
      → find i s.order ≡ some v
      → values (remove_element key (i, v) s).order ≡ drop_key key (key v) (values s.order)
  unfolding remove_element
  values-remove_element i v {s} wf found = values-remove key s.next i s.order wf.distinct found

  -- the ways in which the program moves a found element to the front are one `refresh`
  pub move_to_front_found :
      (i : ℕ) (v : E) (o : List (Element E))
      → find i o ≡ some v
      → move_to_front i o ≡ (i, v) ∷ remove i o
  unfolding move_to_front
  move_to_front_found i v o found = ground arith

  pub move_to_front-set_value :
      (i : ℕ) (v v' : E) (o : List (Element E))
      → find i o ≡ some v
      → move_to_front i (set_value i v' o) ≡ (i, v') ∷ remove i o
  unfolding move_to_front set_value
  move_to_front-set_value i v v' [] found = absurd (ground arith)
  move_to_front-set_value i v v' ((j, w) ∷ o) found =
      ground (arith, move_to_front-set_value i v v' o)

  -- eviction after one insertion keeps the `max` most recent values
  pub evict_over_lem :
      (max : ℕ) {s : Recency E}
      → IsWf key s
      → length s.order ≤ suc max
      → IsWf key (evict_over key max s)
        × (values (evict_over key max s).order ≡ take max (values s.order))
  unfolding evict_over
  evict_over_lem max {s} wf fits = elim (Bool-cases (ltb max (length s.order))) [
    | inl over ↦
        let (e, last, found, rest) = back_lem key s.next max s.order wf.distinct (ground arith) in
        (ground (arith, remove_element-IsWf e.0 e.1 wf found), ground arith)
    | inr within ↦ (
      ground arith,
      ground (arith, take_of_length-le max (values s.order), length-values s.order),
    )
  ]
