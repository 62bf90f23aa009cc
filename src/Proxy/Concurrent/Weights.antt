-- ===== src/Proxy/Concurrent/Weights.antt =====
-- How many requests the limiter was asked about and let through, and what each step adds.
use robotsyes.Base.{
  ℕ, suc, ◌≤◌, Bytes, Bool, true, false, ◌&&◌, List, [], ◌∷◌, ◌++◌, ◌≡◌, sym, inl, inr, refl, ap,
  arith, length, sum_by, sum_by-replaced, sum_by-le, length-sum_by, equal, Bool-cases, Option-cases,
  map,
}
use robotsyes.Identity.{tier_name, Identity}
use robotsyes.Identity.Signed.{Clock}
use robotsyes.Ratelimit
use robotsyes.Ratelimit.{Limiter, full_key, unit}
use robotsyes.Ratelimit.Budget.{spent}
use robotsyes.Ratelimit.Rate
use robotsyes.Ratelimit.Rate.{Meter, cold, Metered, Metered-step, Meter-bound}
use robotsyes.Proxy.Server.{Server, identify, handle_rate_limited, metrics_path}
use robotsyes.Proxy.Server.Ceiling.Bound.{handle_rate_limited-limiter}
use robotsyes.Proxy.Concurrent.{
  Phase, arrived, identified, admitted, measured, served, Thread, receive, key_for, ask, charge,
  Arrival, thread,
}

-- whether the limiter was asked
abbrev pub past_limiter : Phase → ℕ
past_limiter arrived = 0
past_limiter (identified id) = 0
past_limiter (measured reply) = 0
past_limiter phase = 1

past_limiter-le-one : (ph : Phase) → past_limiter ph ≤ 1
past_limiter-le-one arrived = omega arith
past_limiter-le-one (identified id) = omega arith
past_limiter-le-one (measured reply) = omega arith
past_limiter-le-one ph = omega arith

and-true : (b : Bool) → (b && true) ≡ b
and-true true = refl
and-true false = refl

and-false : (b : Bool) → (b && false) ≡ false
and-false true = refl
and-false false = refl

module _ {M Q : Type 0} where
  abbrev bucket_of : Thread M Q → Identity → Bytes
  bucket_of th id = full_key (tier_name id.tier) (key_for th id)

  -- whether the limiter let a request of the bucket `k` through
  abbrev pub through : Bytes → Thread M Q → Phase → ℕ
  through k th (admitted id) = spent (equal (bucket_of th id) k)
  through k th (served id reply) = spent (equal (bucket_of th id) k)
  through k th phase = 0

  -- How many requests of the bucket `k` the limiter let through.
  abbrev pub let_through : Bytes → List (Thread M Q) → ℕ
  let_through k ths = sum_by (λ th. through k th th.phase) ths

  abbrev pub asked_by : List (Thread M Q) → ℕ
  asked_by ths = sum_by (λ th. past_limiter th.phase) ths

  pub receive-limiter :
      (t : Clock) (th : Thread M Q) (s : Server M) → (receive t th s).0.limiter ≡ s.limiter
  unfolding receive identify
  receive-limiter t th s = ground arith

  pub receive-weights :
      (k : Bytes) (t : Clock) (th : Thread M Q) (s : Server M)
      → (through k th (receive t th s).1 ≡ 0) × (past_limiter (receive t th s).1 ≡ 0)
  unfolding receive
  receive-weights k t th s = elim (Bool-cases (equal th.incoming.request.path metrics_path)) [
    | inl metrics ↦ rw (metrics, receive) (refl, refl)
    | inr other ↦ rw (other, receive) (refl, refl)
  ]

  pub charge-limiter :
      (th : Thread M Q) (id : Identity) (s : Server M) → (charge th id s).0.limiter ≡ s.limiter
  unfolding charge
  charge-limiter th id s = handle_rate_limited-limiter th.gate th.incoming.request id.tier s

  pub charge-weights :
      (k : Bytes) (th : Thread M Q) (id : Identity) (s : Server M)
      → (through k th (charge th id s).1 ≡ 0) × (past_limiter (charge th id s).1 ≡ 1)
  unfolding charge
  charge-weights k th id s =
      elim (Option-cases (handle_rate_limited th.gate th.incoming.request id.tier s).1) [
        | inl goes_on ↦ rw (goes_on, charge) (refl, refl)
        | inr (reply, denied) ↦ rw (denied, charge) (refl, refl)
      ]

  pub ask-weights :
      (k : Bytes) (now : ℕ) (th : Thread M Q) (id : Identity) (s : Server M)
      → let q : Rate.Request = record {
        now = now;
        tier = tier_name id.tier;
        client = key_for th id;
      } in
        ((ask now th id s).0.limiter ≡ (Rate.serve q s.limiter).0)
        × (through k th (ask now th id s).1
            ≡ spent (equal (Rate.bucket_key q) k && (Rate.serve q s.limiter).1))
        × (past_limiter (ask now th id s).1 ≡ 1)
  unfolding ask
  ask-weights k now th id s =
      elim (Bool-cases (Ratelimit.allow now (tier_name id.tier) (key_for th id) s.limiter).1) [
        | inl free ↦ rw (free, ask) (refl, sym (ap spent (and-true _)), refl)
        | inr over ↦ rw (over, ask) (refl, sym (ap spent (and-false _)), refl)
      ]

  pub asked_by-le-length : (ths : List (Thread M Q)) → asked_by ths ≤ length ths
  asked_by-le-length ths =
      let ones = length-sum_by ths in
      let le =
        sum_by-le (λ u. past_limiter u.phase) (λ u. 1) (λ u. past_limiter-le-one u.phase) ths in
      omega arith

  pub all_arrived :
      (k : Bytes) (arrivals : List (Arrival M Q))
      → (let_through k (map thread arrivals) ≡ 0)
        × (asked_by (map thread arrivals) ≡ 0)
        × (length (map thread arrivals) ≡ length arrivals)
  all_arrived k [] = (refl, refl, refl)
  all_arrived k (a ∷ arrivals) =
      let (none_through, none_asked, as_many) = all_arrived k arrivals in
      (omega arith, omega arith, ap suc as_many)

  pub length-replaced :
      (before : List (Thread M Q)) (th th' : Thread M Q) (after ths : List (Thread M Q))
      → ths ≡ before ++ (th ∷ after)
      → length (before ++ (th' ∷ after)) ≡ length ths
  length-replaced before th th' after ths is =
      let were = length-sum_by ths in
      let now = length-sum_by (before ++ (th' ∷ after)) in
      let same = sum_by-replaced (λ x. 1) before th th' after ths is in omega arith
