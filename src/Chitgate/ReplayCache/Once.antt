-- ===== src/Chitgate/ReplayCache/Once.antt =====
-- What the reservation of a nonce guarantees: until it expires, nobody else reserves the nonce, and
-- once it is committed nobody reserves it at all.
use robotsyes.Base.{
  ℕ, suc, ◌+◌, ◌<◌, Bytes, true, false, List, [], ◌∷◌, ◌≡◌, ◌∙◌, sym, refl, ap, arith, length, take,
  All,
}
use native.Mathlib.Nat.{add-zero, add-suc, suc-add}
use robotsyes.Recency.Values.{drop_key}
use robotsyes.Recency.Held.{Held, Held-first, Held-take}
use robotsyes.Chitgate.ReplayCache.{Entry, ReplayCache, nonce_of, reserved, spent, reserve, commit}
use robotsyes.Chitgate.ReplayCache.Laws.{
  IsValid, view, spec_reserve, spec_commit, reserve-refines, commit-refines,
}
use robotsyes.Chitgate.ReplayCache.Spent.{
  Call, step, after, spec_step, step-refines, LeavesClaim, Held-step,
}

-- The cache `c` holds the claim `e` on the nonce `k`, at most `m` entries down.
pub record Remembers (ttl max : ℕ) (k : Bytes) (e : Entry) (m : ℕ) (c : ReplayCache) : Type 0 where
  pub valid : IsValid c
  pub ttl_is : c.ttl ≡ ttl
  pub max_is : c.max_entries ≡ max
  pub held : Held nonce_of k e m (view c)

module _ (ttl max : ℕ) (k : Bytes) where
  Remembers-step :
      (e : Entry) (m : ℕ) (call : Call) (c : ReplayCache)
      → e.nonce ≡ k
      → LeavesClaim k (e.seen_at + ttl) e.committed call
      → suc m < max
      → Remembers ttl max k e m c
      → Remembers ttl max k e (suc m) (step call c)
  Remembers-step e m call c at leaves room r =
      let shows = step-refines call c r.valid in
      let view_is : view (step call c) ≡ spec_step ttl max call (view c) =
        shows.contents
        ∙ ap (λ n. spec_step n c.max_entries call (view c)) r.ttl_is
        ∙ ap (λ n. spec_step ttl n call (view c)) r.max_is in
      record {
        valid = shows.valid;
        ttl_is = shows.ttl_is ∙ r.ttl_is;
        max_is = shows.max_is ∙ r.max_is;
        held = rw view_is (Held-step ttl max k e at m call (view c) leaves room r.held);
      }

  pub Remembers-after :
      (e : Entry) (calls : List Call) (m : ℕ) (c : ReplayCache)
      → e.nonce ≡ k
      → All (LeavesClaim k (e.seen_at + ttl) e.committed) calls
      → m + length calls < max
      → Remembers ttl max k e m c
      → Remembers ttl max k e (m + length calls) (after calls c)
  unfolding after
  Remembers-after e [] m c at leaves room r = rw add-zero r
  Remembers-after e (call ∷ calls) m c at (first, leaves) room r = rw add-suc (
      rw suc-add at (
        Remembers-after e calls (suc m) (step call c) at leaves (omega arith)
          (Remembers-step e m call c at first (omega arith) r)))

  -- a live claim refuses a reservation
  pub Remembers-refuses :
      (e : Entry) (m now : ℕ) (c : ReplayCache)
      → now < e.seen_at + ttl
      → Remembers ttl max k e m c
      → (reserve now k c).1 ≡ false
  unfolding spec_reserve
  Remembers-refuses e m now c soon r =
      (reserve-refines k c r.valid now).1 ∙ ground (arith, r.held.shown, r.ttl_is)

spec_reserve_claims :
    (ttl max now : ℕ) (k : Bytes) (vs : List Entry)
    → (spec_reserve ttl max now k vs).1 ≡ true
    → (spec_reserve ttl max now k vs).0 ≡ take max (reserved now k ∷ drop_key nonce_of k vs)
unfolding spec_reserve
spec_reserve_claims ttl max now k vs h = ground arith

-- the claim that a successful `reserve` leaves
pub Remembers-reserve :
    (t : ℕ) (k : Bytes) (c : ReplayCache)
    → IsValid c
    → (reserve t k c).1 ≡ true
    → Remembers c.ttl c.max_entries k (reserved t k) 0 (reserve t k c).0
Remembers-reserve t k c valid won =
    let (shows, result) = reserve-refines k c valid t in
    let claimed = spec_reserve_claims c.ttl c.max_entries t k (view c) (sym result ∙ won) in
    record {
      valid = shows.valid;
      ttl_is = shows.ttl_is;
      max_is = shows.max_is;
      held = rw (shows.contents ∙ claimed) (
          Held-take nonce_of k (reserved t k) 0 c.max_entries _ valid.positive
            (Held-first nonce_of k (reserved t k) 0 _ refl));
    }

-- the claim that is left when the holder of a reservation commits it
pub Remembers-commit :
    (ttl max : ℕ) (t m now : ℕ) (k : Bytes) (c : ReplayCache)
    → Remembers ttl max k (reserved t k) m c
    → Remembers ttl max k (spent t k) m (commit now k c)
unfolding spec_commit
Remembers-commit ttl max t m now k c r =
    let shows = commit-refines k c r.valid now in
    record {
      valid = shows.valid;
      ttl_is = shows.ttl_is ∙ r.ttl_is;
      max_is = shows.max_is ∙ r.max_is;
      held =
          rw (shows.contents, r.held.shown, spec_commit)
            (Held-first nonce_of k (spent t k) m _ refl);
    }

module _ (t : ℕ) (k : Bytes) (c : ReplayCache) (valid : IsValid c)
    (won : (reserve t k c).1 ≡ true) where
  -- After a request reserved a nonce at `t`, no other request reserves it before `t + ttl`, if the
  -- cache is valid, meanwhile nobody commits or releases it, every reservation comes before `t +
  -- ttl`, and fewer calls are made than the cache has entries.
  claim_exclusive :
      (calls : List Call) (t' : ℕ)
      → All (LeavesClaim k (t + c.ttl) false) calls
      → length calls < c.max_entries
      → t' < t + c.ttl
      → (reserve t' k (after calls (reserve t k c).0)).1 ≡ false
  claim_exclusive calls t' leaves room soon =
      let start = Remembers-reserve t k c valid won in
      Remembers-refuses c.ttl c.max_entries k (reserved t k) _ t' _ soon (
        Remembers-after c.ttl c.max_entries k (reserved t k) calls 0 _ refl leaves (omega arith)
          start)

  -- After a request reserved a nonce at `t` and committed it, no request reserves it before `t +
  -- ttl`, whatever is committed or released in between, if the cache is valid, nobody else commits
  -- or releases the nonce before the commit, every reservation comes before `t + ttl`, and fewer
  -- calls are made than the cache has entries.
  pub spent_once :
      (before : List Call) (now : ℕ) (later : List Call) (t' : ℕ)
      → All (LeavesClaim k (t + c.ttl) false) before
      → All (LeavesClaim k (t + c.ttl) true) later
      → length before + length later < c.max_entries
      → t' < t + c.ttl
      → (reserve t' k (after later (commit now k (after before (reserve t k c).0)))).1 ≡ false
  spent_once before now later t' leaves kept room soon =
      let start = Remembers-reserve t k c valid won in
      let claimed =
        Remembers-after c.ttl c.max_entries k (reserved t k) before 0 _ refl leaves (omega arith)
          start in
      let paid = Remembers-commit c.ttl c.max_entries t _ now k _ claimed in
      Remembers-refuses c.ttl c.max_entries k (spent t k) _ t' _ soon
        (Remembers-after c.ttl c.max_entries k (spent t k) later _ _ refl kept (omega arith) paid)
