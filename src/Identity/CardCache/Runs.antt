-- ===== src/Identity/CardCache/Runs.antt =====
-- internal/identity/cardcache.go: what a sequence of calls gets from the cache.
use robotsyes.Base.{ℕ, Bytes, Option, List, [], ◌∷◌, ◌≡◌, refl, ◌∙◌, ap}
use robotsyes.Identity.Card.{Card}
use robotsyes.Identity.CardCache.{Entry, CardCache, get, put}
use robotsyes.Identity.CardCache.Laws.{IsValid, view, spec_get, spec_put, get-refines, put-refines}

pub data Call : Type 0 where
  get_at : ℕ → Bytes → Call
  put_at : ℕ → Bytes → Card → Call

-- What the calls of `get` return.
unfoldable pub answers : List Call → CardCache → List (Option Card)
answers [] c = []
answers (get_at now k ∷ calls) c = (get now k c).1 ∷ answers calls (get now k c).0
answers (put_at now k card ∷ calls) c = answers calls (put now k card c)

unfoldable pub spec_answers : ℕ → ℕ → List Call → List Entry → List (Option Card)
spec_answers ttl max [] vs = []
spec_answers ttl max (get_at now k ∷ calls) vs =
    (spec_get ttl now k vs).1 ∷ spec_answers ttl max calls (spec_get ttl now k vs).0
spec_answers ttl max (put_at now k card ∷ calls) vs =
    spec_answers ttl max calls (spec_put max now k card vs)

-- Over any sequence of calls of `get` and `put`, a valid cache of cards gives the answers that
-- `spec_get` and `spec_put` give over the plain list of its entries in the order of recency.
pub answers-refines :
    (calls : List Call) (c : CardCache)
    → IsValid c
    → answers calls c ≡ spec_answers c.ttl c.max_entries calls (view c)
unfolding answers spec_answers put
answers-refines [] c valid = refl
answers-refines (get_at now k ∷ calls) c valid =
    let (valid', same, ttl, max) = get-refines now k c valid in
    let rest = rw (ttl, max) at (answers-refines calls (get now k c).0 valid') in
    let shown : view (get now k c).0 ≡ (spec_get c.ttl now k (view c)).0 = ap (λ x. x.0) same in
    let answer : (get now k c).1 ≡ (spec_get c.ttl now k (view c)).1 = ap (λ x. x.1) same in
    ap (λ x. x ∷ answers calls (get now k c).0) answer
    ∙ ap (λ x. (spec_get c.ttl now k (view c)).1 ∷ x)
        (rest ∙ ap (spec_answers c.ttl c.max_entries calls) shown)
answers-refines (put_at now k card ∷ calls) c valid =
    let (valid', shown, ttl, max) = put-refines now k c valid card in
    let rest = rw (ttl, max) at (answers-refines calls (put now k card c) valid') in
    rest ∙ ap (spec_answers c.ttl c.max_entries calls) shown
