-- ===== src/Recency/Wf.antt =====
-- The list and the map of a cache agree: identities and keys are distinct, and the map names for
-- each key the element that holds it.
use robotsyes.Base.{
  ℕ, zero, suc, ◌<◌, Bytes, Option, none, some, List, [], ◌∷◌, ◌≡◌, refl, inl, inr, arith, equal,
  equal_iff, length, take, if◌then◌else◌, Bool-cases,
}
use robotsyes.Base.Assoc
use robotsyes.Recency.{Element, Recency, find, remove, back}
use robotsyes.Recency.Values.{values, find_key, drop_key}

module _ {E : Type 0} (key : E → Bytes) where
  -- the element that holds a key
  unfoldable pub id_of : Bytes → List (Element E) → Option ℕ
  id_of k [] = none
  id_of k ((i, v) ∷ o) = if equal (key v) k then some i else id_of k o

  abbrev pub Distinct : ℕ → List (Element E) → Type 0
  Distinct n [] = Unit
  Distinct n ((i, v) ∷ o) = (i < n) × (find i o ≡ none) × (id_of (key v) o ≡ none) × Distinct n o

  pub record IsWf (s : Recency E) : Type 0 where
    pub distinct : Distinct s.next s.order
    pub indexed : (k : Bytes) → Assoc.get k s.items ≡ id_of k s.order

  pub Distinct-suc : (n : ℕ) (o : List (Element E)) → Distinct n o → Distinct (suc n) o
  Distinct-suc n [] d = tt
  Distinct-suc n ((i, v) ∷ o) (lt, f, k, d) = (omega arith, f, k, Distinct-suc n o d)

  pub find_fresh : (n : ℕ) (o : List (Element E)) → Distinct n o → find n o ≡ none
  unfolding find
  find_fresh n [] d = refl
  find_fresh n ((i, v) ∷ o) (lt, f, k, d) = ground (arith, find_fresh n o d)

  -- what the identity of a key leads to
  pub find-id_of :
      (n : ℕ) (k : Bytes) (o : List (Element E)) {i : ℕ}
      → Distinct n o
      → id_of k o ≡ some i
      → (v : E) × (find i o ≡ some v) × (key v ≡ k) × (find_key key k (values o) ≡ some v)
  unfolding find id_of find_key
  find-id_of n k [] d h = absurd (ground arith)
  find-id_of n k ((j, w) ∷ o) {i} (lt, f, l, d) h = elim (Bool-cases (equal (key w) k)) [
    | inl same ↦ (w, ground arith, ground (arith, equal_iff (key w) k), ground arith)
    | inr other ↦
        let (v, found, e, fk) = find-id_of n k o {i = i} d (ground arith) in
        (v, ground arith, e, ground arith)
  ]

  pub find_key-id_of :
      (k : Bytes) (o : List (Element E)) → id_of k o ≡ none → find_key key k (values o) ≡ none
  unfolding id_of find_key
  find_key-id_of k [] h = refl
  find_key-id_of k ((j, w) ∷ o) h = ground (arith, find_key-id_of k o)

  find-remove-none : (i j : ℕ) (o : List (Element E)) → find j o ≡ none → find j (remove i o) ≡ none
  unfolding find remove
  find-remove-none i j [] h = refl
  find-remove-none i j ((l, w) ∷ o) h = ground (arith, find-remove-none i j o)

  id_of-remove-none :
      (i : ℕ) (k : Bytes) (o : List (Element E)) → id_of k o ≡ none → id_of k (remove i o) ≡ none
  unfolding id_of remove
  id_of-remove-none i k [] h = refl
  id_of-remove-none i k ((l, w) ∷ o) h = ground (arith, id_of-remove-none i k o)

  pub Distinct-remove : (n i : ℕ) (o : List (Element E)) → Distinct n o → Distinct n (remove i o)
  unfolding remove
  Distinct-remove n i [] d = tt
  Distinct-remove n i ((j, w) ∷ o) (lt, f, l, d) =
      ground
        (arith, Distinct-remove n i o d, find-remove-none i j o f, id_of-remove-none i (key w) o l)

  -- a value that the list holds has its key in the map
  pub id_of-find :
      (n i : ℕ) (o : List (Element E)) {v : E}
      → Distinct n o
      → find i o ≡ some v
      → id_of (key v) o ≡ some i
  unfolding find id_of
  id_of-find n i [] d h = absurd (ground arith)
  id_of-find n i ((j, w) ∷ o) {v} (lt, f, l, d) h =
      ground (arith, id_of-find n i o {v = v} d, equal_iff (key w) (key v))

  pub values-remove :
      (n i : ℕ) (o : List (Element E)) {v : E}
      → Distinct n o
      → find i o ≡ some v
      → values (remove i o) ≡ drop_key key (key v) (values o)
  unfolding find remove drop_key
  values-remove n i [] d h = absurd (ground arith)
  values-remove n i ((j, w) ∷ o) {v} (lt, f, l, d) h =
      ground (
        arith,
        values-remove n i o {v = v} d,
        equal_iff (key w) (key v),
        id_of-find n i o {v = v} d,
      )

  pub id_of-remove :
      (n i : ℕ) (k : Bytes) (o : List (Element E)) {v : E}
      → Distinct n o
      → find i o ≡ some v
      → id_of k (remove i o) ≡ (if equal (key v) k then none else id_of k o)
  unfolding find remove id_of
  id_of-remove n i k [] d h = absurd (ground arith)
  id_of-remove n i k ((j, w) ∷ o) {v} (lt, f, l, d) h = ground (
    arith,
    id_of-remove n i k o {v = v} d,
    equal_iff (key w) (key v),
    equal_iff (key w) k,
    equal_iff (key v) k,
    id_of-find n i o {v = v} d,
  )

  pub find-lt : (n i : ℕ) (o : List (Element E)) {v : E} → Distinct n o → find i o ≡ some v → i < n
  unfolding find
  find-lt n i [] d h = absurd (ground arith)
  find-lt n i ((j, w) ∷ o) {v} (lt, f, l, d) h = ground (arith, find-lt n i o {v = v} d)

  pub find-remove_self :
      (n i : ℕ) (o : List (Element E)) → Distinct n o → find i (remove i o) ≡ none
  unfolding find remove
  find-remove_self n i [] d = refl
  find-remove_self n i ((j, w) ∷ o) (lt, f, l, d) = ground (arith, find-remove_self n i o d)

  -- the last element, and the list without it
  pub back_lem :
      (n m : ℕ) (o : List (Element E))
      → Distinct n o
      → length o ≡ suc m
      → (e : Element E) × (back o ≡ some e)
        × (find e.0 o ≡ some e.1)
        × (values (remove e.0 o) ≡ take m (values o))
  unfolding back find remove
  back_lem n m [] d h = absurd (omega arith)
  back_lem n m ((j, w) ∷ []) d h = ((j, w), refl, ground arith, ground arith)
  back_lem n zero (e ∷ e' ∷ o) d h = absurd (omega arith)
  back_lem n (suc m) ((j, w) ∷ (j', w') ∷ o) (lt, f, l, d) h =
      let ((i, v), last, found, rest) = back_lem n m ((j', w') ∷ o) d (omega arith) in
      ((i, v), last, ground arith, ground arith)
