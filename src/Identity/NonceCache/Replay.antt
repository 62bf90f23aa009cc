-- ===== src/Identity/NonceCache/Replay.antt =====
-- What the cache promises to the signature check: a nonce is refused as long as it is remembered,
-- and a nonce that was never shown is not refused.
use robotsyes.Base.{
  ℕ, suc, ◌+◌, ◌<◌, Bytes, true, false, none, List, [], ◌∷◌, ◌≡◌, refl, ap, ◌∙◌, sym, arith, take,
  length, equal, equal_iff, Bool-cases, Option-cases, inl, inr, All,
}
use robotsyes.Base.Int.{ℤ}
use native.Mathlib.Nat.{add-zero, zero-add, add-suc, suc-add}
use robotsyes.Recency.Values.{
  find_key, find_key_key, drop_key, find_key-take, find_key-drop_key-none,
}
use robotsyes.Recency.Held.{Held, Held-first, Held-cons, Held-take}
use robotsyes.Identity.NonceCache.{Entry, NonceCache, nonce_of, new, is_live, seen}
use robotsyes.Identity.NonceCache.Laws.{
  IsValid, view, entry_at, spec_seen, new-IsValid, seen-refines,
}

-- A call of `seen`: when, and for which nonce.
abbrev pub Call : Type 0
Call = ℕ × Bytes

-- The cache after a sequence of calls.
unfoldable pub after : List Call → NonceCache → NonceCache
after [] c = c
after ((now, n) ∷ calls) c = after calls (seen now n c).0

abbrev HeldAt : ℕ → ℕ → Bytes → List Entry → Type 0
HeldAt t m k = Held nonce_of k (entry_at t k) m

module _ (t ttl max : ℕ) (k : Bytes) where
  spec_seen_held :
      (now m : ℕ) (vs : List Entry)
      → HeldAt t m k vs
      → now < t + ttl
      → spec_seen ttl max now k vs ≡ (entry_at t k ∷ drop_key nonce_of k vs, true)
  unfolding spec_seen
  spec_seen_held now m vs h live = ground (arith, h.shown)

  Held-ne :
      (now m : ℕ) (j : Bytes) (vs : List Entry)
      → equal j k ≡ false
      → suc m < max
      → HeldAt t m k vs
      → HeldAt t (suc m) k (spec_seen ttl max now j vs).0
  unfolding spec_seen
  Held-ne now m j vs other room h =
      let new_first =
        Held-take nonce_of k (entry_at t k) (suc m) max _ room
          (Held-cons nonce_of k (entry_at t k) m j (entry_at now j) vs refl other h) in
      elim (Option-cases (find_key nonce_of j vs)) [
        | inl gone ↦ rw (gone, spec_seen) new_first
        | inr (e, shown) ↦ elim (Bool-cases (is_live ttl now e)) [
          | inl live ↦
              rw (shown, live, spec_seen)
                (Held-cons nonce_of k (entry_at t k) m j e vs (find_key_key nonce_of j vs shown)
                  other h)
          | inr stale ↦ rw (shown, stale, spec_seen) new_first
        ]
      ]

-- The cache `c` still holds the nonce of `t`, at most `m` entries down.
record Remembers (t m : ℕ) (k : Bytes) (ttl max : ℕ) (c : NonceCache) : Type 0 where
  valid : IsValid c
  ttl_is : c.ttl ≡ ttl
  max_is : c.max_entries ≡ max
  held : HeldAt t m k (view c)

module _ (t ttl max : ℕ) (k : Bytes) where
  Remembers-seen :
      (now m : ℕ) (j : Bytes) {c : NonceCache}
      → now < t + ttl
      → suc m < max
      → Remembers t m k ttl max c
      → Remembers t (suc m) k ttl max (seen now j c).0
  Remembers-seen now m j {c} live room r =
      let (valid, shown, same_ttl, same_max) = seen-refines now j c r.valid in
      let view_is : view (seen now j c).0 ≡ (spec_seen ttl max now j (view c)).0 =
        ap (λ p. p.0) shown
        ∙ ap (λ n. (spec_seen n c.max_entries now j (view c)).0) r.ttl_is
        ∙ ap (λ n. (spec_seen ttl n now j (view c)).0) r.max_is in
      record {
        valid = valid;
        ttl_is = same_ttl ∙ r.ttl_is;
        max_is = same_max ∙ r.max_is;
        held = elim (Bool-cases (equal j k)) [
          | inl same ↦
              let e = (equal_iff j k).0 same in
              rw (view_is, e, spec_seen_held t ttl max k now m (view c) r.held live)
                (Held-first nonce_of k (entry_at t k) (suc m) _ refl)
          | inr other ↦ rw view_is (Held-ne t ttl max k now m j (view c) other room r.held)
        ];
      }

  Remembers-after :
      (calls : List Call) (m : ℕ) {c : NonceCache}
      → All (λ call. call.0 < t + ttl) calls
      → m + length calls < max
      → Remembers t m k ttl max c
      → Remembers t (m + length calls) k ttl max (after calls c)
  unfolding after
  Remembers-after [] m live room r = rw add-zero r
  Remembers-after ((now, j) ∷ calls) m (first, live) room r = rw add-suc (
      rw suc-add at (
        Remembers-after calls (suc m) live (omega arith)
          (Remembers-seen now m j first (omega arith) r)))

spec_seen_accepts :
    (ttl max now : ℕ) (k : Bytes) (vs : List Entry)
    → (spec_seen ttl max now k vs).1 ≡ false
    → (spec_seen ttl max now k vs).0 ≡ take max (entry_at now k ∷ drop_key nonce_of k vs)
unfolding spec_seen
spec_seen_accepts ttl max now k vs h = ground arith

Remembers-first :
    (t : ℕ) (k : Bytes) (c : NonceCache)
    → IsValid c
    → (seen t k c).1 ≡ false
    → Remembers t 0 k c.ttl c.max_entries (seen t k c).0
Remembers-first t k c valid accepted =
    let (valid', shown, same_ttl, same_max) = seen-refines t k c valid in
    let fresh =
      spec_seen_accepts c.ttl c.max_entries t k (view c) (sym (ap (λ p. p.1) shown) ∙ accepted) in
    record {
      valid = valid';
      ttl_is = same_ttl;
      max_is = same_max;
      held = rw (ap (λ p. p.0) shown ∙ fresh) (
          Held-take nonce_of k (entry_at t k) 0 c.max_entries _ valid.positive
            (Held-first nonce_of k (entry_at t k) 0 _ refl));
    }

-- A nonce that a valid cache accepted at `t` is refused whenever it comes again before `t + ttl`,
-- whatever else was seen in between, if that was before `t + ttl` and fewer nonces than the cache
-- has room for.
pub replay_refused :
    (t : ℕ) (k : Bytes) (c : NonceCache) (calls : List Call) (t' : ℕ)
    → IsValid c
    → (seen t k c).1 ≡ false
    → All (λ call. call.0 < t + c.ttl) calls
    → length calls < c.max_entries
    → t' < t + c.ttl
    → (seen t' k (after calls (seen t k c).0)).1 ≡ true
replay_refused t k c calls t' valid accepted live room soon =
    let start = Remembers-first t k c valid accepted in
    let r = Remembers-after t c.ttl c.max_entries k calls 0 live (omega arith) start in
    let c' = after calls (seen t k c).0 in
    let refined = seen-refines t' k c' r.valid in
    let held =
      spec_seen_held t c.ttl c'.max_entries k t' (length calls) (view c') (rw zero-add at r.held)
        soon in
    ap (λ p. p.1) refined.1
    ∙ ap (λ n. (spec_seen n c'.max_entries t' k (view c')).1) r.ttl_is
    ∙ ap (λ p. p.1) held

module _ (k : Bytes) where
  spec_seen_absent :
      (ttl max now : ℕ) (j : Bytes) (vs : List Entry)
      → equal j k ≡ false
      → find_key nonce_of k vs ≡ none
      → find_key nonce_of k (spec_seen ttl max now j vs).0 ≡ none
  unfolding spec_seen find_key
  spec_seen_absent ttl max now j vs other gone =
      let dropped = find_key-drop_key-none nonce_of k j vs gone in
      let kept = find_key-take nonce_of k max (entry_at now j ∷ drop_key nonce_of j vs) in
      elim (Option-cases (find_key nonce_of j vs)) [
        | inl missing ↦ ground arith
        | inr (e, shown) ↦ ground (arith, find_key_key nonce_of j vs shown)
      ]

  absent_after :
      (calls : List Call) (c : NonceCache)
      → IsValid c
      → find_key nonce_of k (view c) ≡ none
      → All (λ call. equal call.1 k ≡ false) calls
      → IsValid (after calls c) × (find_key nonce_of k (view (after calls c)) ≡ none)
  unfolding after
  absent_after [] c valid gone others = (valid, gone)
  absent_after ((now, j) ∷ calls) c valid gone (other, others) =
      let (valid', shown, _, _) = seen-refines now j c valid in
      absent_after calls (seen now j c).0 valid'
        (rw (ap (λ p. p.0) shown) (spec_seen_absent c.ttl c.max_entries now j (view c) other gone))
        others

spec_seen-none :
    (ttl max now : ℕ) (k : Bytes) (vs : List Entry)
    → find_key nonce_of k vs ≡ none
    → (spec_seen ttl max now k vs).1 ≡ false
unfolding spec_seen
spec_seen-none ttl max now k vs gone = ground arith

-- A nonce that none of the calls showed to a new cache is accepted.
pub unseen_accepted :
    (n : ℤ) (ttl : ℕ) (calls : List Call) (t : ℕ) (k : Bytes)
    → All (λ call. equal call.1 k ≡ false) calls
    → (seen t k (after calls (new n ttl))).1 ≡ false
unfolding find_key
unseen_accepted n ttl calls t k others =
    let (valid, empty, _) = new-IsValid n ttl in
    let c = after calls (new n ttl) in
    let (valid', gone) = absent_after k calls (new n ttl) valid (rw empty) others in
    ap (λ p. p.1) (seen-refines t k c valid').1
    ∙ spec_seen-none c.ttl c.max_entries t k (view c) gone
