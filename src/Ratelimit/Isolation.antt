-- ===== src/Ratelimit/Isolation.antt =====
-- What a request of one bucket does to another: nothing, up to eviction.
use robotsyes.Base.{
  ℕ, zero, suc, ◌<◌, Bytes, false, none, List, [], ◌∷◌, ◌≡◌, refl, ap, arith, equal, Option-cases,
  inl, inr, All,
}
use robotsyes.Base.Assoc
use robotsyes.Base.Int.{ℤ, pos, negsuc}
use robotsyes.Recency.Values.{
  find_key, find_key_key, drop_key, find_key-drop_key-none, find_key-take,
}
use robotsyes.Recency.Held.{Held, Held-cons, Held-take, Held-le}
use robotsyes.Ratelimit.{
  Entry, Limiter, key_of, first_bucket, take_token, full_key, allow_key, allow_limit, allow,
}
use robotsyes.Ratelimit.Laws.{IsValid, view, spec_allow, allow_key-refines}

abbrev pub LacksBar : Bytes → Type 0
LacksBar = All (λ c. ◌≡◌ {A = ℕ} c b'|' → ⊥)

-- Buckets are not shared: the key of a bucket tells the tier and the client, if the names of the
-- tiers hold no bar.
pub full_key_injective :
    (t t' k k' : Bytes)
    → LacksBar t
    → LacksBar t'
    → full_key t k ≡ full_key t' k'
    → (t ≡ t') × (k ≡ k')
unfolding full_key
full_key_injective [] [] k k' h h' e = ground arith
full_key_injective [] (c ∷ t') k k' h h' e = absurd (h'.0 (ground arith))
full_key_injective (c ∷ t) [] k k' h h' e = absurd (h.0 (ground arith))
full_key_injective (c ∷ t) (c' ∷ t') k k' h h' e =
    ground (arith, full_key_injective t t' k k' h.1 h'.1)

-- How a step from `l` to `l'` treats the bucket of `k`.
pub record Spares (k : Bytes) (l l' : Limiter) : Type 0 where
  pub valid : IsValid l'
  pub limits_is : l'.limits ≡ l.limits
  pub max_is : l'.max_entries ≡ l.max_entries
  pub stays_absent : find_key key_of k (view l) ≡ none → find_key key_of k (view l') ≡ none
  pub stays_held :
      (e : Entry) (m : ℕ)
      → suc m < l.max_entries
      → Held key_of k e m (view l)
      → Held key_of k e (suc m) (view l')

module _ (k : Bytes) where
  Spares-refl : (l : Limiter) → IsValid l → Spares k l l
  Spares-refl l valid = record {
    valid = valid;
    limits_is = refl;
    max_is = refl;
    stays_absent = λ gone. gone;
    stays_held = λ e m room h. Held-le key_of k e (omega arith) h;
  }

  module _ (rpm max now : ℕ) (j : Bytes) (vs : List Entry) (other : equal j k ≡ false) where
    spec_allow_absent :
        find_key key_of k vs ≡ none → find_key key_of k (spec_allow rpm max now j vs).0 ≡ none
    unfolding spec_allow find_key
    spec_allow_absent gone =
        let dropped = find_key-drop_key-none key_of k j vs gone in
        let first : Entry = record { key = j; bucket = first_bucket rpm now } in
        let kept = find_key-take key_of k max (first ∷ drop_key key_of j vs) in
        elim (Option-cases (find_key key_of j vs)) [
          | inl missing ↦ ground arith
          | inr (e, shown) ↦ ground (arith, find_key_key key_of j vs shown)
        ]

    spec_allow-Held :
        (e : Entry) (m : ℕ)
        → suc m < max
        → Held key_of k e m vs
        → Held key_of k e (suc m) (spec_allow rpm max now j vs).0
    unfolding spec_allow
    spec_allow-Held e m room h =
        let first : Entry = record { key = j; bucket = first_bucket rpm now } in
        elim (Option-cases (find_key key_of j vs)) [
          | inl gone ↦
              rw (gone, spec_allow)
                (Held-take key_of k e (suc m) max _ room
                  (Held-cons key_of k e m j first vs refl other h))
          | inr (e', shown) ↦
              rw (shown, spec_allow)
                (Held-cons key_of k e m j (record e' { bucket = (take_token rpm now e'.bucket).0 })
                  vs (find_key_key key_of j vs shown) other h)
        ]

  allow_key-Spares :
      (rpm now : ℕ) (j : Bytes) (l : Limiter)
      → IsValid l
      → equal j k ≡ false
      → Spares k l (allow_key rpm now j l).0
  allow_key-Spares rpm now j l valid other =
      let (valid', shown, same_limits, same_max) = allow_key-refines rpm now j l valid in
      let view_is = ap (λ p. p.0) shown in
      record {
        valid = valid';
        limits_is = same_limits;
        max_is = same_max;
        stays_absent =
            λ gone. rw view_is (spec_allow_absent rpm l.max_entries now j (view l) other gone);
        stays_held = λ e m room h.
            rw view_is (spec_allow-Held rpm l.max_entries now j (view l) other e m room h);
      }

  allow_limit-Spares :
      (r : ℤ) (now : ℕ) (j : Bytes) (l : Limiter)
      → IsValid l
      → equal j k ≡ false
      → Spares k l (allow_limit r now j l).0
  unfolding allow_limit
  allow_limit-Spares (pos zero) now j l valid other = Spares-refl l valid
  allow_limit-Spares (pos (suc r)) now j l valid other =
      allow_key-Spares (suc r) now j l valid other
  allow_limit-Spares (negsuc n) now j l valid other = Spares-refl l valid

  -- A request for another bucket, whatever its tier, leaves a valid limiter valid, with the same
  -- settings; a bucket that is not there is not there afterwards, and one that is there keeps its
  -- tokens and moves at most one place towards eviction, if the limiter has room for it there.
  pub allow-Spares :
      (now : ℕ) (tier key : Bytes) (l : Limiter)
      → IsValid l
      → equal (full_key tier key) k ≡ false
      → Spares k l (allow now tier key l).0
  unfolding allow
  allow-Spares now tier key l valid other = elim (Option-cases (Assoc.get tier l.limits)) [
    | inl unknown ↦ rw (unknown, allow) (Spares-refl l valid)
    | inr (lim, known) ↦
        rw (known, allow)
          (allow_limit-Spares lim.requests_per_minute now (full_key tier key) l valid other)
  ]
