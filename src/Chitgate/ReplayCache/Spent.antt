-- ===== src/Chitgate/ReplayCache/Spent.antt =====
-- A nonce is held by one settlement at a time, and is spent once.
use robotsyes.Base.{
  ℕ, suc, ◌+◌, ◌<◌, Bytes, Bool, true, false, not, ◌||◌, List, [], ◌∷◌, ◌≡◌, refl, arith, take,
  equal, equal_iff, Bool-cases, Option-cases, inl, inr,
}
use robotsyes.Recency.Values.{find_key, find_key_key, drop_key}
use robotsyes.Recency.Held.{Held, Held-first, Held-cons, Held-drop, Held-take, Held-le}
use robotsyes.Chitgate.ReplayCache.{
  Entry, ReplayCache, nonce_of, reserved, spent, reserve, commit, release,
}
use robotsyes.Chitgate.ReplayCache.Laws.{
  IsValid, view, spec_reserve, spec_commit, spec_release, Shows, reserve-refines, commit-refines,
  release-refines,
}

pub data Call : Type 0 where
  reserve_at commit_at : ℕ → Bytes → Call
  release_of : Bytes → Call

-- The cache after one call, and after a sequence of calls.
unfoldable pub step : Call → ReplayCache → ReplayCache
step (reserve_at now k) c = (reserve now k c).0
step (commit_at now k) c = commit now k c
step (release_of k) c = release k c

unfoldable pub after : List Call → ReplayCache → ReplayCache
unfolding step
after [] c = c
after (call ∷ calls) c = after calls (step call c)

pub spec_step : ℕ → ℕ → Call → List Entry → List Entry
spec_step ttl max (reserve_at now k) vs = (spec_reserve ttl max now k vs).0
spec_step ttl max (commit_at now k) vs = spec_commit max now k vs
spec_step ttl max (release_of k) vs = spec_release k vs

-- A call of `reserve`, `commit` or `release` keeps a valid cache valid and does to its entries, in
-- the order of recency, what `spec_reserve`, `spec_commit` or `spec_release` does to a plain list.
pub step-refines :
    (call : Call) (c : ReplayCache)
    → IsValid c
    → Shows c (spec_step c.ttl c.max_entries call (view c)) (step call c)
unfolding step spec_step
step-refines (reserve_at now k) c valid = (reserve-refines k c valid now).0
step-refines (commit_at now k) c valid = commit-refines k c valid now
step-refines (release_of k) c valid = release-refines k c valid

-- A call that does not end the claim `e` on the nonce `k`: every reserve comes before the claim
-- expires, and a claim that is not spent is neither committed nor released.
abbrev pub LeavesClaim : Bytes → ℕ → Bool → Call → Type 0
LeavesClaim k expiry committed (reserve_at now j) = now < expiry
LeavesClaim k expiry committed (commit_at now j) = (committed || not (equal j k)) ≡ true
LeavesClaim k expiry committed (release_of j) = (committed || not (equal j k)) ≡ true

module _ (ttl max : ℕ) (k : Bytes) (e : Entry) (at : e.nonce ≡ k) where
  abbrev pub HeldClaim : ℕ → List Entry → Type 0
  HeldClaim = Held nonce_of k e

  Held-insert :
      (m : ℕ) (j : Bytes) (e' : Entry) (vs : List Entry)
      → e'.nonce ≡ j
      → equal j k ≡ false
      → suc m < max
      → HeldClaim m vs
      → HeldClaim (suc m) (take max (e' ∷ drop_key nonce_of j vs))
  Held-insert m j e' vs named other room h =
      Held-take nonce_of k e (suc m) max _ room (Held-cons nonce_of k e m j e' vs named other h)

  Held-reserve :
      (m now : ℕ) (j : Bytes) (vs : List Entry)
      → now < e.seen_at + ttl
      → suc m < max
      → HeldClaim m vs
      → HeldClaim (suc m) (spec_reserve ttl max now j vs).0
  unfolding spec_reserve
  Held-reserve m now j vs soon room h = elim (Bool-cases (equal j k)) [
    | inl same ↦
        rw ((equal_iff j k).0 same)
          (ground (arith, h.shown, Held-first nonce_of k e (suc m) (drop_key nonce_of k vs) at))
    | inr other ↦
        let inserted = Held-insert m j (reserved now j) vs refl other room h in
        elim (Option-cases (find_key nonce_of j vs)) [
          | inl gone ↦ rw (gone, spec_reserve) inserted
          | inr (e', shown) ↦
              let front =
                Held-cons nonce_of k e m j e' vs (find_key_key nonce_of j vs shown) other h in
              ground arith
        ]
  ]

  Held-commit :
      (m now : ℕ) (j : Bytes) (vs : List Entry)
      → (e.committed || not (equal j k)) ≡ true
      → suc m < max
      → HeldClaim m vs
      → HeldClaim (suc m) (spec_commit max now j vs)
  unfolding spec_commit
  Held-commit m now j vs kept room h = elim (Bool-cases (equal j k)) [
    | inl same ↦
        rw ((equal_iff j k).0 same)
          (ground (arith, h.shown, Held-first nonce_of k e (suc m) (drop_key nonce_of k vs) at))
    | inr other ↦
        let inserted = Held-insert m j (spent now j) vs refl other room h in
        elim (Option-cases (find_key nonce_of j vs)) [
          | inl gone ↦ rw (gone, spec_commit) inserted
          | inr (e', shown) ↦
              rw (shown, spec_commit)
                (Held-cons nonce_of k e m j (record e' { committed = true }) vs
                  (find_key_key nonce_of j vs shown) other h)
        ]
  ]

  Held-release :
      (m : ℕ) (j : Bytes) (vs : List Entry)
      → (e.committed || not (equal j k)) ≡ true
      → HeldClaim m vs
      → HeldClaim (suc m) (spec_release j vs)
  unfolding spec_release
  Held-release m j vs kept h =
      let same_list : HeldClaim (suc m) vs = Held-le nonce_of k e (omega arith) h in
      elim (Bool-cases (equal j k)) [
        | inl same ↦ rw ((equal_iff j k).0 same) (ground (arith, h.shown))
        | inr other ↦
            let dropped : HeldClaim (suc m) (drop_key nonce_of j vs) =
              Held-le nonce_of k e (omega arith) (Held-drop nonce_of k e m j vs other h) in
            ground arith
      ]

  pub Held-step :
      (m : ℕ) (call : Call) (vs : List Entry)
      → LeavesClaim k (e.seen_at + ttl) e.committed call
      → suc m < max
      → HeldClaim m vs
      → HeldClaim (suc m) (spec_step ttl max call vs)
  unfolding spec_step
  Held-step m (reserve_at now j) vs leaves room h = Held-reserve m now j vs leaves room h
  Held-step m (commit_at now j) vs leaves room h = Held-commit m now j vs leaves room h
  Held-step m (release_of j) vs leaves room h = Held-release m j vs leaves h
