-- ===== src/Recency/Bounded.antt =====
-- A cache of at most `max` entries: what removal, a move to the front and an insertion with
-- eviction do to it.
use robotsyes.Base.{
  ℕ, suc, ◌≤◌, Bytes, ap, sym, ◌∙◌, some, none, List, [], ◌∷◌, ◌≡◌, refl, arith, length, take,
  length-take-le,
}
use robotsyes.Recency.{
  Element, Recency, find, remove, move_to_front, set_value, push, remove_element, evict_over,
}
use robotsyes.Recency.Values.{values, drop_key}
use robotsyes.Recency.Wf.{IsWf, id_of}
use robotsyes.Recency.Refine.{
  push-IsWf, remove_element-IsWf, refresh-IsWf, values-refresh, values-remove_element,
  move_to_front_found, move_to_front-set_value, evict_over_lem, length-values, id_of-remove_element,
}

length-remove-le : {E : Type 0} (i : ℕ) (o : List (Element E)) → length (remove i o) ≤ length o
unfolding remove
length-remove-le i [] = omega arith
length-remove-le i ((j, w) ∷ o) = ground (arith, length-remove-le i o)

length-remove :
    {E : Type 0} (i : ℕ) (o : List (Element E)) {v : E}
    → find i o ≡ some v
    → suc (length (remove i o)) ≡ length o
unfolding find remove
length-remove i [] h = absurd (ground arith)
length-remove i ((j, w) ∷ o) {v} h = ground (arith, length-remove i o {v = v})

module _ {E : Type 0} (key : E → Bytes) (max : ℕ) where
  pub record IsBounded (s : Recency E) : Type 0 where
    pub wf : IsWf key s
    pub bounded : length s.order ≤ max
    pub positive : 1 ≤ max

  -- the element `i` holds `v`, whose key is `k`
  module _ (i : ℕ) (v : E) {k : Bytes} {s : Recency E} (valid : IsBounded s)
      (found : find i s.order ≡ some v) (at : key v ≡ k) where
    dropped : drop_key key (key v) (values s.order) ≡ drop_key key k (values s.order)
    dropped = ap (λ j. drop_key key j (values s.order)) at

    pub remove_element_lem :
        IsBounded (remove_element key (i, v) s)
        × (values (remove_element key (i, v) s).order ≡ drop_key key k (values s.order))
        × (id_of key k (remove_element key (i, v) s).order ≡ none)
    remove_element_lem = (
      record {
        wf = remove_element-IsWf key i v valid.wf found;
        bounded = unfold remove_element in omega (arith, length-remove-le i s.order, valid.bounded);
        positive = valid.positive;
      },
      values-remove_element key i v valid.wf found ∙ dropped,
      sym (ap (λ j. id_of key j (remove_element key (i, v) s).order) at)
          ∙ id_of-remove_element key i v valid.wf found,
    )

    -- the element at the front, holding `v'`
    abbrev Refreshed : E → List (Element E) → Type 0
    Refreshed v' o =
        IsBounded (record s { order = o }) × (values o ≡ v' ∷ drop_key key k (values s.order))

    refresh_lem : (v' : E) → key v' ≡ key v → Refreshed v' ((i, v') ∷ remove i s.order)
    refresh_lem v' same = (
      record {
        wf = refresh-IsWf key i v v' valid.wf found same;
        bounded = omega (arith, length-remove i s.order found, valid.bounded);
        positive = valid.positive;
      },
      values-refresh key i v v' valid.wf found ∙ ap (◌∷◌ v') dropped,
    )

    -- `MoveToFront` alone
    pub move_to_front_lem : Refreshed v (move_to_front i s.order)
    move_to_front_lem = rw (move_to_front_found key i v s.order found) (refresh_lem v refl)

    -- a write to the element's value, and `MoveToFront`
    pub set_value_lem :
        (v' : E) → key v' ≡ key v → Refreshed v' (move_to_front i (set_value i v' s.order))
    set_value_lem v' same =
        rw (move_to_front-set_value key i v v' s.order found) (refresh_lem v' same)

    -- `MoveToFront`, and a write to the element's value
    pub set_value_at_front_lem :
        (v' : E) → key v' ≡ key v → Refreshed v' (set_value i v' (move_to_front i s.order))
    unfolding set_value
    set_value_at_front_lem v' same =
        rw (move_to_front_found key i v s.order found) (ground (arith, refresh_lem v' same))

  pub insert_lem :
      (v : E) {s : Recency E}
      → IsBounded s
      → id_of key (key v) s.order ≡ none
      → IsBounded (evict_over key max (push (key v) v s))
        × (values (evict_over key max (push (key v) v s)).order ≡ take max (v ∷ values s.order))
  insert_lem v {s} valid gone =
      let (wf, kept) =
        evict_over_lem key max (push-IsWf key v valid.wf gone)
          (unfold push in omega (arith, valid.bounded)) in
      let shown : values (evict_over key max (push (key v) v s)).order
          ≡ take max (v ∷ values s.order) =
        unfold push in kept in
      (
        record {
          wf = wf;
          bounded = omega (
            arith,
            length-values (evict_over key max (push (key v) v s)).order,
            ap length shown,
            length-take-le max (v ∷ values s.order),
          );
          positive = valid.positive;
        },
        shown,
      )
