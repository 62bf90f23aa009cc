-- ===== src/Recency.antt =====
-- The pair that every bounded cache of the program keeps: a `container/list` list in recency
-- order, and a map from keys to its elements (identity/cardcache.go, identity/noncecache.go,
-- ratelimit/ratelimit.go, paymentgate/chitgate/replaycache.go). An element is its identity, which
-- stands for the `*list.Element` pointer, beside its current value.
pub mod Values
pub mod Wf
pub mod Refine
pub mod Bounded
pub mod Held
use robotsyes.Base.{
  ℕ, suc, Bytes, Option, none, some, List, [], ◌∷◌, ◌==◌, ltb, length, if◌then◌else◌,
}
use robotsyes.Base.Assoc
use robotsyes.Base.Assoc.{Assoc}

abbrev pub Element : Type 0 → Type 0
Element E = ℕ × E

pub record Recency (E : Type 0) : Type 0 where
  pub order : List (Element E)
  pub items : Assoc ℕ
  pub next : ℕ

-- `list.New()` and `make(map[string]*list.Element)`
abbrev pub fresh : {E : Type 0} → Recency E
fresh = record { order = []; items = []; next = 0 }

module _ {E : Type 0} where
  -- `el.Value`, for an element of the list
  unfoldable pub find : ℕ → List (Element E) → Option E
  find i [] = none
  find i ((j, v) ∷ o) = if j == i then some v else find i o

  -- `order.Remove(el)`
  unfoldable pub remove : ℕ → List (Element E) → List (Element E)
  remove i [] = []
  remove i ((j, v) ∷ o) = let rest = remove i o in if j == i then o else (j, v) ∷ rest

  -- `order.MoveToFront(el)`; nothing for an element that is not in the list
  unfoldable pub move_to_front : ℕ → List (Element E) → List (Element E)
  unfolding find remove
  move_to_front i o = elim (find i o) [ none ↦ o | some v ↦ (i, v) ∷ remove i o ]

  -- a write through the pointer in `el.Value`
  unfoldable pub set_value : ℕ → E → List (Element E) → List (Element E)
  set_value i v [] = []
  set_value i v ((j, w) ∷ o) =
      let rest = set_value i v o in if j == i then (j, v) ∷ o else (j, w) ∷ rest

  -- `order.Back()`
  unfoldable pub back : List (Element E) → Option (Element E)
  back [] = none
  back (e ∷ []) = some e
  back (e ∷ f ∷ o) = back (f ∷ o)

  -- `el, ok := items[k]`, with the value that the element holds
  unfoldable pub element : Bytes → Recency E → Option (Element E)
  element k s = elim (Assoc.get k s.items) [
    | none ↦ none
    | some i ↦ elim (find i s.order) [ none ↦ none | some v ↦ some (i, v) ]
  ]

  -- `el := order.PushFront(v); items[k] = el`
  unfoldable pub push : Bytes → E → Recency E → Recency E
  push k v s = record {
    order = (s.next, v) ∷ s.order;
    items = Assoc.put k s.next s.items;
    next = suc s.next;
  }

module _ {E : Type 0} (key : E → Bytes) where
  -- `order.Remove(el); delete(items, el.Value.key)`
  unfoldable pub remove_element : Element E → Recency E → Recency E
  remove_element (i, v) s = record s {
    order = remove i s.order;
    items = Assoc.delete (key v) s.items;
  }

  -- `if order.Len() > max { if oldest := order.Back(); oldest != nil { removeElement(oldest) } }`
  unfoldable pub evict_over : ℕ → Recency E → Recency E
  unfolding remove_element
  evict_over max s =
      if ltb max (length s.order)
      then (elim (back s.order) [ none ↦ s | some oldest ↦ remove_element oldest s ])
      else s
