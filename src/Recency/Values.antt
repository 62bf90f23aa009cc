-- ===== src/Recency/Values.antt =====
-- What a cache is to its callers: its values in recency order, found and dropped by key.
use robotsyes.Base.{
  ℕ, zero, suc, ◌≤◌, ◌<◌, false, Bytes, Option, none, some, List, [], ◌∷◌, map, ◌≡◌, refl, arith,
  equal, equal_iff, length, take, if◌then◌else◌,
}
use robotsyes.Recency.{Element}

abbrev pub values : {E : Type 0} → List (Element E) → List E
values = map (λ e. e.1)

module _ {E : Type 0} (key : E → Bytes) where
  unfoldable pub find_key : Bytes → List E → Option E
  find_key k [] = none
  find_key k (v ∷ vs) = if equal (key v) k then some v else find_key k vs

  unfoldable pub drop_key : Bytes → List E → List E
  drop_key k [] = []
  drop_key k (v ∷ vs) = let rest = drop_key k vs in if equal (key v) k then vs else v ∷ rest

  -- each key once
  abbrev pub DistinctKeys : List E → Type 0
  DistinctKeys [] = Unit
  DistinctKeys (v ∷ vs) = (find_key (key v) vs ≡ none) × DistinctKeys vs

  pub find_key_key : (k : Bytes) (vs : List E) {v : E} → find_key k vs ≡ some v → key v ≡ k
  unfolding find_key
  find_key_key k [] h = ground arith
  find_key_key k (w ∷ vs) {v} h = ground (arith, equal_iff (key w) k, find_key_key k vs {v = v})

  pub drop_key_absent : (k : Bytes) (vs : List E) → find_key k vs ≡ none → drop_key k vs ≡ vs
  unfolding find_key drop_key
  drop_key_absent k [] h = refl
  drop_key_absent k (v ∷ vs) h = ground (arith, drop_key_absent k vs)

  pub length-drop_key :
      (k : Bytes) (vs : List E) {v : E}
      → find_key k vs ≡ some v
      → suc (length (drop_key k vs)) ≡ length vs
  unfolding find_key drop_key
  length-drop_key k [] h = ground arith
  length-drop_key k (w ∷ vs) {v} h = ground (arith, length-drop_key k vs {v = v})

  pub find_key-drop_key :
      (k j : Bytes) (vs : List E)
      → DistinctKeys vs
      → find_key j (drop_key k vs) ≡ (if equal k j then none else find_key j vs)
  unfolding find_key drop_key
  find_key-drop_key k j [] h = ground arith
  find_key-drop_key k j (v ∷ vs) (absent, h) = ground (
    arith,
    find_key-drop_key k j vs h,
    equal_iff (key v) k,
    equal_iff (key v) j,
    equal_iff k j,
    absent,
  )

  pub find_key-take :
      (k : Bytes) (n : ℕ) (vs : List E) → find_key k vs ≡ none → find_key k (take n vs) ≡ none
  unfolding find_key
  find_key-take k zero vs h = refl
  find_key-take k (suc n) [] h = refl
  find_key-take k (suc n) (v ∷ vs) h = ground (arith, find_key-take k n vs)

  -- how many values stand in front of a key
  unfoldable pub rank : Bytes → List E → ℕ
  rank k [] = 0
  rank k (v ∷ vs) = if equal (key v) k then 0 else suc (rank k vs)

  pub rank-drop_key-le :
      (k j : Bytes) (vs : List E) → equal j k ≡ false → rank k (drop_key j vs) ≤ rank k vs
  unfolding rank drop_key
  rank-drop_key-le k j [] h = omega arith
  rank-drop_key-le k j (v ∷ vs) h =
      ground
        (arith, rank-drop_key-le k j vs h, equal_iff (key v) k, equal_iff (key v) j, equal_iff j k)

  -- the first `n` values hold every key of a smaller rank
  pub find_key-take-rank :
      (k : Bytes) (n : ℕ) (vs : List E)
      → rank k vs < n
      → (find_key k (take n vs) ≡ find_key k vs) × (rank k (take n vs) ≡ rank k vs)
  unfolding find_key rank
  find_key-take-rank k zero vs h = absurd (omega arith)
  find_key-take-rank k (suc n) [] h = (refl, refl)
  find_key-take-rank k (suc n) (v ∷ vs) h = ground (arith, find_key-take-rank k n vs)

  pub find_key-drop_key_ne :
      (k j : Bytes) (vs : List E) → equal j k ≡ false → find_key k (drop_key j vs) ≡ find_key k vs
  unfolding find_key drop_key
  find_key-drop_key_ne k j [] h = refl
  find_key-drop_key_ne k j (v ∷ vs) h = ground (
    arith,
    find_key-drop_key_ne k j vs h,
    equal_iff (key v) k,
    equal_iff (key v) j,
    equal_iff j k,
  )

  pub find_key-drop_key-none :
      (k j : Bytes) (vs : List E) → find_key k vs ≡ none → find_key k (drop_key j vs) ≡ none
  unfolding find_key drop_key
  find_key-drop_key-none k j [] h = refl
  find_key-drop_key-none k j (v ∷ vs) h = ground (arith, find_key-drop_key-none k j vs)
