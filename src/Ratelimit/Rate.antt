-- ===== src/Ratelimit/Rate.antt =====
-- The published ceiling, over every sequence of requests.
use robotsyes.Base.{
  ℕ, suc, ◌+◌, ◌-◌, ◌*◌, ◌≤◌, ◌<◌, Bytes, Bool, true, ◌&&◌, none, some, List, [], ◌∷◌, ◌≡◌, ◌∙◌,
  refl, ap, arith, take, length, equal, equal_iff, Bool-cases, Option-cases, inl, inr, All,
}
use robotsyes.Base.Assoc
use robotsyes.Base.Int.{pos}
use native.Mathlib.Nat.{add-zero}
use robotsyes.Recency.Values.{find_key, find_key_key, drop_key}
use robotsyes.Recency.Held.{Held, Held-first, Held-take}
use robotsyes.Ratelimit.{
  Entry, Limiter, key_of, unit, first_bucket, take_token, full_key, allow_key, allow_limit, allow,
}
use robotsyes.Ratelimit.Laws.{IsValid, view, spec_allow, allow_key-refines}
use robotsyes.Ratelimit.Isolation.{Spares, allow-Spares, LacksBar, full_key_injective}
use robotsyes.Ratelimit.Budget.{spent, take_token_budget, elapsed_add, last_refill-take_token}

pub record Request : Type 0 where
  pub now : ℕ
  pub tier : Bytes
  pub client : Bytes

abbrev pub bucket_key : Request → Bytes
bucket_key q = full_key q.tier q.client

abbrev pub serve : Request → Limiter → Limiter × Bool
serve q l = allow q.now q.tier q.client l

-- How many requests of the bucket `k` are let through.
unfoldable pub granted : Bytes → List Request → Limiter → ℕ
granted k [] l = 0
granted k (q ∷ qs) l = spent (equal (bucket_key q) k && (serve q l).1) + granted k qs (serve q l).0

-- The requests come in the order of time, from `t` on.
abbrev pub Ordered : ℕ → List Request → Type 0
Ordered t [] = Unit
Ordered t (q ∷ qs) = (t ≤ q.now) × Ordered q.now qs

abbrev pub last_time : ℕ → List Request → ℕ
last_time t [] = t
last_time t (q ∷ qs) = last_time q.now qs

module _ (r : ℕ) (tier client : Bytes) (t₀ : ℕ) where
  abbrev rpm : ℕ
  rpm = suc r

  abbrev k : Bytes
  k = full_key tier client

  -- The bucket is not there and has spent nothing, or its spending fits the time that has passed.
  pub data Meter (now g m : ℕ) (l : Limiter) : Type 0 where
    cold : find_key key_of k (view l) ≡ none → g ≡ 0 → Meter now g m l
    warm :
        (e : Entry)
        → Held key_of k e m (view l)
        → g * unit + e.bucket.tokens ≤ rpm * unit + (e.bucket.last_refill - t₀) * rpm
        → t₀ ≤ e.bucket.last_refill
        → e.bucket.last_refill ≤ now
        → Meter now g m l

  pub record Metered (max now g m : ℕ) (l : Limiter) : Type 0 where
    pub valid : IsValid l
    pub known : Assoc.get tier l.limits ≡ some (record { requests_per_minute = pos rpm })
    pub max_is : l.max_entries ≡ max
    pub since : t₀ ≤ now
    pub meter : Meter now g m l

  Meter-other :
      (now now' g m : ℕ) {l l' : Limiter}
      → now ≤ now'
      → suc m < l.max_entries
      → Spares k l l'
      → Meter now g m l
      → Meter now' g (suc m) l'
  Meter-other now now' g m le room s (cold gone zero_spent) = cold (s.stays_absent gone) zero_spent
  Meter-other now now' g m le room s (warm e h budget started before) =
      warm e (s.stays_held e m room h) budget started (omega arith)

  Meter-self :
      (now now' g m : ℕ) (l : Limiter)
      → t₀ ≤ now
      → now ≤ now'
      → suc m < l.max_entries
      → IsValid l
      → Meter now g m l
      → Meter now' (g + spent (allow_key rpm now' k l).1) (suc m) (allow_key rpm now' k l).0
  unfolding spec_allow
  Meter-self now now' g m l since le room valid (cold gone zero_spent) =
      let (_, shown, _, _) = allow_key-refines rpm now' k l valid in
      let first : Entry = record { key = k; bucket = first_bucket rpm now' } in
      let is : spec_allow rpm l.max_entries now' k (view l)
          ≡ (take l.max_entries (first ∷ drop_key key_of k (view l)), true) =
        rw (gone, spec_allow) in
      warm first
        (rw (ap (λ p. p.0) (shown ∙ is)) (
          Held-take key_of k first (suc m) l.max_entries _ room
            (Held-first key_of k first (suc m) _ refl)))
        (rw (ap (λ p. p.1) (shown ∙ is)) (unfold first_bucket in omega arith))
        (unfold first_bucket in omega arith) (unfold first_bucket in omega arith)
  Meter-self now now' g m l since le room valid (warm e h budget started before) =
      let (_, shown, _, _) = allow_key-refines rpm now' k l valid in
      let e' = record e { bucket = (take_token rpm now' e.bucket).0 } in
      let is : spec_allow rpm l.max_entries now' k (view l)
          ≡ (e' ∷ drop_key key_of k (view l), (take_token rpm now' e.bucket).1) =
        rw (h.shown, spec_allow) in
      let at = last_refill-take_token rpm now' e.bucket in
      warm e'
        (rw (ap (λ p. p.0) (shown ∙ is))
          (Held-first key_of k e' (suc m) _ (find_key_key key_of k (view l) h.shown)))
        (rw (ap (λ p. p.1) (shown ∙ is), at)
          (take_token_budget rpm now' t₀ g e.bucket started (omega arith) budget))
        (omega (arith, at)) (omega (arith, at))

  allow_known :
      (now : ℕ) (q : Request) (l : Limiter)
      → LacksBar tier
      → LacksBar q.tier
      → equal (bucket_key q) k ≡ true
      → Assoc.get tier l.limits ≡ some (record { requests_per_minute = pos rpm })
      → allow now q.tier q.client l ≡ allow_key rpm now k l
  unfolding allow allow_limit
  allow_known now q l plain plain' same known =
      let e = (equal_iff (bucket_key q) k).0 same in
      let tier_is = (full_key_injective q.tier tier q.client client plain' plain e).0 in
      ground (arith, tier_is, e, known)

  pub Metered-step :
      (max now g m : ℕ) (q : Request) (l : Limiter)
      → LacksBar tier
      → LacksBar q.tier
      → now ≤ q.now
      → suc m < max
      → Metered max now g m l
      → Metered max q.now
          (g + spent (equal (bucket_key q) k && (serve q l).1))
          (suc m)
          (serve q l).0
  Metered-step max now g m q l plain plain' le room s = elim (Bool-cases (equal (bucket_key q) k)) [
    | inl same ↦
        let is = allow_known q.now q l plain plain' same s.known in
        let (valid', _, same_limits, same_max) = allow_key-refines rpm q.now k l s.valid in
        rw (same, is)
          (record {
            valid = valid';
            known = rw same_limits s.known;
            max_is = same_max ∙ s.max_is;
            since = omega (arith, s.since);
            meter = Meter-self now q.now g m l s.since le (omega (arith, s.max_is)) s.valid s.meter;
          })
    | inr other ↦
        let spares = allow-Spares k q.now q.tier q.client l s.valid other in
        rw other (record {
          valid = spares.valid;
          known = rw spares.limits_is s.known;
          max_is = spares.max_is ∙ s.max_is;
          since = omega (arith, s.since);
          meter =
              rw add-zero (Meter-other now q.now g m le (omega (arith, s.max_is)) spares s.meter);
        })
  ]

  pub Meter-bound :
      (now g m : ℕ) (l : Limiter)
      → t₀ ≤ now
      → Meter now g m l
      → g * unit ≤ rpm * unit + (now - t₀) * rpm
  Meter-bound now g m l since (cold gone zero_spent) = omega arith
  Meter-bound now g m l since (warm e h budget started before) =
      omega (arith, elapsed_add t₀ e.bucket.last_refill now rpm started before)

  -- the budget after a sequence of requests
  Metered-granted :
      (qs : List Request) (max now g m : ℕ) (l : Limiter)
      → LacksBar tier
      → All (λ q. LacksBar q.tier) qs
      → Ordered now qs
      → m + length qs < max
      → Metered max now g m l
      → (g + granted k qs l) * unit ≤ rpm * unit + (last_time now qs - t₀) * rpm
  unfolding granted
  Metered-granted [] max now g m l plain _ _ room s =
      rw add-zero (Meter-bound now g m l s.since s.meter)
  Metered-granted (q ∷ qs) max now g m l plain (plain', plains) (le, ordered) room s =
      let later =
        Metered-granted qs max q.now _ (suc m) (serve q l).0 plain plains ordered (omega arith)
          (Metered-step max now g m q l plain plain' le (omega arith) s) in
      omega arith

-- Over any sequence of requests in the order of time, of whatever tiers and clients, a valid
-- limiter lets through at most `rpm` requests of one client at once, and `rpm` a minute beyond
-- these, if the tier has the ceiling `rpm`, the client had no bucket at the start, the names of the
-- tiers hold no bar and the requests are fewer than the entries that the limiter has room for.
pub rate_bound :
    (r : ℕ) (tier client : Bytes) (t₀ : ℕ) (qs : List Request) (l : Limiter)
    → IsValid l
    → Assoc.get tier l.limits ≡ some (record { requests_per_minute = pos (suc r) })
    → find_key key_of (full_key tier client) (view l) ≡ none
    → LacksBar tier
    → All (λ q. LacksBar q.tier) qs
    → Ordered t₀ qs
    → length qs < l.max_entries
    → granted (full_key tier client) qs l * unit ≤ suc r * unit + (last_time t₀ qs - t₀) * suc r
rate_bound r tier client t₀ qs l valid known gone plain plains ordered room = omega (
  arith,
  Metered-granted r tier client t₀ qs l.max_entries t₀ 0 0 l plain plains ordered (omega arith)
      (record {
        valid = valid;
        known = known;
        max_is = refl;
        since = omega arith;
        meter = cold gone refl;
      }),
)

-- In a valid limiter, a client that waited long enough for one token since its last request is let
-- through, and so is one that has no bucket.
pub waited_allowed :
    (r now : ℕ) (k : Bytes) (l : Limiter)
    → IsValid l
    → ((e : Entry)
        → find_key key_of k (view l) ≡ some e
        → unit ≤ (now - e.bucket.last_refill) * suc r)
    → (allow_key (suc r) now k l).1 ≡ true
unfolding spec_allow take_token
waited_allowed r now k l valid waited =
    let (_, shown, _, _) = allow_key-refines (suc r) now k l valid in
    ap (λ p. p.1) shown ∙ elim (Option-cases (find_key key_of k (view l))) [
      | inl gone ↦ ground arith
      | inr (e, there) ↦ let gap = waited e there in ground arith
    ]
