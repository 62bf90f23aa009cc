-- ===== src/Proxy/Server/Ceiling/Questions.antt =====
-- What the limiter is asked while the server handles requests in the order of time.
use robotsyes.Base.{
  ℕ, ◌≤◌, Bytes, true, not, List, [], ◌∷◌, ◌≡◌, inl, inr, refl, arith, All, all, length, ◌==◌,
  Bool-cases,
}
use robotsyes.Identity.{Tier, unverified, declared, verified, tier_name}
use robotsyes.Ratelimit.Isolation.{LacksBar}
use robotsyes.Ratelimit.Rate
use robotsyes.Ratelimit.Rate.{bucket_key, granted, rate_bound}
use robotsyes.Proxy.Server.{Server}
use robotsyes.Proxy.Server.Ceiling.{Call, serve, is_metrics, InOrder, end_of, questions}

LacksBar-all : (s : Bytes) → all (λ c. not (c == b'|')) s ≡ true → LacksBar s
LacksBar-all [] h = tt
LacksBar-all (c ∷ s) h = (λ e. ground arith, LacksBar-all s (ground arith))

pub tier_name-LacksBar : (tier : Tier) → LacksBar (tier_name tier)
unfolding tier_name
tier_name-LacksBar unverified = LacksBar-all (tier_name unverified) refl
tier_name-LacksBar declared = LacksBar-all (tier_name declared) refl
tier_name-LacksBar verified = LacksBar-all (tier_name verified) refl

Ordered-from : (t t' : ℕ) (qs : List Rate.Request) → t ≤ t' → Rate.Ordered t' qs → Rate.Ordered t qs
Ordered-from t t' [] le h = tt
Ordered-from t t' (q ∷ qs) le (later, h) = (omega arith, h)

last_time-from-le :
    (t t' : ℕ) (qs : List Rate.Request) → t ≤ t' → Rate.last_time t qs ≤ Rate.last_time t' qs
last_time-from-le t t' [] le = le
last_time-from-le t t' (q ∷ qs) le = omega arith

module _ {M Q : Type 0} where
  pub length-questions-le :
      (cs : List (Call M Q)) (s : Server M) → length (questions cs s) ≤ length cs
  unfolding questions
  length-questions-le [] s = omega arith
  length-questions-le (c ∷ cs) s = let rest = length-questions-le cs (serve c s).0 in ground arith

  pub questions-LacksBar :
      (cs : List (Call M Q)) (s : Server M) → All (λ q. LacksBar q.tier) (questions cs s)
  unfolding questions
  questions-LacksBar [] s = tt
  questions-LacksBar (c ∷ cs) s = elim (Bool-cases (is_metrics c)) [
    | inl metrics ↦ rw (metrics, questions) (questions-LacksBar cs (serve c s).0)
    | inr limited ↦
        rw (limited, questions) (tier_name-LacksBar _, questions-LacksBar cs (serve c s).0)
  ]

  pub questions-Ordered :
      (t : ℕ) (cs : List (Call M Q)) (s : Server M) → InOrder t cs → Rate.Ordered t (questions cs s)
  unfolding questions
  questions-Ordered t [] s h = tt
  questions-Ordered t (c ∷ cs) s (later, h) = elim (Bool-cases (is_metrics c)) [
    | inl metrics ↦
        rw (metrics, questions)
          (Ordered-from t c.now _ later (questions-Ordered c.now cs (serve c s).0 h))
    | inr limited ↦ rw (limited, questions) (later, questions-Ordered c.now cs (serve c s).0 h)
  ]

  pub le-end_of : (t : ℕ) (cs : List (Call M Q)) → InOrder t cs → t ≤ end_of t cs
  le-end_of t [] h = omega arith
  le-end_of t (c ∷ cs) (later, h) = omega (arith, le-end_of c.now cs h)

  pub last_time-le-end_of :
      (t : ℕ) (cs : List (Call M Q)) (s : Server M)
      → InOrder t cs
      → Rate.last_time t (questions cs s) ≤ end_of t cs
  unfolding questions
  last_time-le-end_of t [] s h = omega arith
  last_time-le-end_of t (c ∷ cs) s (later, h) = elim (Bool-cases (is_metrics c)) [
    | inl metrics ↦
        let rest = last_time-le-end_of c.now cs (serve c s).0 h in
        let from = last_time-from-le t c.now (questions cs (serve c s).0) later in
        rw (metrics, questions) (omega arith)
    | inr limited ↦ rw (limited, questions) (last_time-le-end_of c.now cs (serve c s).0 h)
  ]
