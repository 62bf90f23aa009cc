-- ===== src/Recency/Held.antt =====
-- How long a list in recency order keeps a value: it moves back by one place at most with each
-- call about another key, and eviction reaches it only at the end of the list.
use robotsyes.Base.{
  ℕ, suc, ◌≤◌, ◌<◌, Bytes, false, some, List, ◌∷◌, ◌≡◌, arith, take, equal, equal_iff,
}
use robotsyes.Recency.Values.{
  find_key, drop_key, rank, rank-drop_key-le, find_key-take-rank, find_key-drop_key_ne,
}

module _ {E : Type 0} (key : E → Bytes) (k : Bytes) (held : E) where
  -- The list shows `held` for the key `k`, with at most `m` values in front of it.
  pub record Held (m : ℕ) (vs : List E) : Type 0 where
    pub shown : find_key key k vs ≡ some held
    pub near : rank key k vs ≤ m

  pub Held-first : (m : ℕ) (vs : List E) → key held ≡ k → Held m (held ∷ vs)
  unfolding find_key rank
  Held-first m vs at = ground (arith, equal_iff (key held) k)

  pub Held-cons :
      (m : ℕ) (j : Bytes) (e : E) (vs : List E)
      → key e ≡ j
      → equal j k ≡ false
      → Held m vs
      → Held (suc m) (e ∷ drop_key key j vs)
  unfolding find_key rank
  Held-cons m j e vs at other h = ground (
    arith,
    find_key-drop_key_ne key k j vs other,
    h.shown,
    h.near,
    rank-drop_key-le key k j vs other,
    equal_iff (key e) k,
    equal_iff j k,
  )

  pub Held-drop :
      (m : ℕ) (j : Bytes) (vs : List E) → equal j k ≡ false → Held m vs → Held m (drop_key key j vs)
  Held-drop m j vs other h = ground (
    arith,
    find_key-drop_key_ne key k j vs other,
    h.shown,
    h.near,
    rank-drop_key-le key k j vs other,
  )

  pub Held-take : (m max : ℕ) (vs : List E) → m < max → Held m vs → Held m (take max vs)
  Held-take m max vs room h = ground (arith, find_key-take-rank key k max vs, h.shown, h.near)

  pub Held-le : {m n : ℕ} {vs : List E} → m ≤ n → Held m vs → Held n vs
  Held-le le h = ground (arith, h.shown, h.near)
