-- ===== src/Identity/Signed/Replay.antt =====
-- A signature is verified once.
use robotsyes.Base.{
  ℕ, ◌+◌, ◌≤◌, ◌<◌, true, some, List, [], ◌∷◌, ◌++◌, ◌≡◌, ◌≢◌, refl, ap, sym, ◌∙◌, arith, length,
  length-append, inl, inr, All, All-append,
}
use robotsyes.Identity.{verified, Request}
use robotsyes.Identity.NonceCache
use robotsyes.Identity.NonceCache.{NonceCache}
use robotsyes.Identity.NonceCache.Laws.{IsValid}
use robotsyes.Identity.NonceCache.Replay.{Call, after, replay_refused}
use robotsyes.Identity.SignatureInput.{signature_input_header, SigParams, parse_signature_input}
use robotsyes.Identity.Signed.{Platform, Clock, SignedVerifier, verify}
use robotsyes.Identity.Signed.Sound.{pre_allow_keeps}
use robotsyes.Identity.Signed.Spending.{verify-Spends, verified-Spent}

-- A request that comes to the verifier: what the packages and the network answer to it, and when.
abbrev pub Visit : Type 0
Visit = Platform × Clock × Request

unfoldable pub after_visits : List Visit → SignedVerifier → SignedVerifier
after_visits [] v = v
after_visits ((pf, t, r) ∷ visits) v = after_visits visits (verify pf t r v).0

-- The calls that a sequence of requests makes to the cache of nonces.
record Calls (bound : ℕ) (visits : List Visit) (v : SignedVerifier) : Type 0 where
  calls : List Call
  few : length calls ≤ length visits
  early : All (λ call. call.0 < bound) calls
  same : (after_visits visits v).nonces ≡ after calls v.nonces

after_one :
    (pf : Platform) (t : Clock) (r : Request) (v : SignedVerifier) (bound : ℕ)
    → t.mono < bound
    → (cs : List Call) × (length cs ≤ 1)
      × All (λ call. call.0 < bound) cs
      × ((verify pf t r v).0.nonces ≡ after cs v.nonces)
unfolding after
after_one pf t r v bound soon = elim (verify-Spends pf t r v) [
  | inl same ↦ ([], omega arith, tt, same)
  | inr s ↦ (
    (t.mono, s.params.nonce) ∷ [],
    omega arith,
    (soon, tt),
    s.spent ∙ ap (λ n. (NonceCache.seen t.mono s.params.nonce n).0) (pre_allow_keeps pf t r v).1,
  )
]

after-append : (xs ys : List Call) (c : NonceCache) → after (xs ++ ys) c ≡ after ys (after xs c)
unfolding after
after-append [] ys c = refl
after-append ((now, k) ∷ xs) ys c = after-append xs ys (NonceCache.seen now k c).0

visits-Calls :
    (bound : ℕ) (visits : List Visit) (v : SignedVerifier)
    → All (λ visit. visit.1.mono < bound) visits
    → Calls bound visits v
unfolding after_visits after
visits-Calls bound [] v early = record { calls = []; few = omega arith; early = tt; same = refl }
visits-Calls bound ((pf, t, r) ∷ visits) v (soon, early) =
    let (cs, few, first_early, first_same) = after_one pf t r v bound soon in
    let rest = visits-Calls bound visits (verify pf t r v).0 early in
    record {
      calls = cs ++ rest.calls;
      few = rw length-append (omega (arith, few, rest.few));
      early = All-append (λ call. call.0 < bound) cs rest.calls first_early rest.early;
      same =
          rest.same ∙ ap (after rest.calls) first_same ∙ sym (after-append cs rest.calls v.nonces);
    }

same_params : {p q : SigParams} → some p ≡ some q → p.nonce ≡ q.nonce
same_params h = ground arith

-- After a request was verified, no request whose signature carries the same nonce is verified until
-- the cache forgets the nonce: for a valid cache of nonces, whatever requests come in between with
-- whatever answers of the network, if they and the later request come before the nonce's time to
-- live has passed and those in between are fewer than the cache has entries.
pub verified_once :
    (pf pf' : Platform) (t t' : Clock) (r r' : Request) (v : SignedVerifier) (visits : List Visit)
    (p p' : SigParams)
    → IsValid v.nonces
    → (verify pf t r v).1.tier ≡ verified
    → parse_signature_input (r.header signature_input_header) ≡ some p
    → parse_signature_input (r'.header signature_input_header) ≡ some p'
    → p'.nonce ≡ p.nonce
    → All (λ visit. visit.1.mono < t.mono + v.nonces.ttl) visits
    → length visits < v.nonces.max_entries
    → t'.mono < t.mono + v.nonces.ttl
    → (verify pf' t' r' (after_visits visits (verify pf t r v).0)).1.tier ≢ verified
verified_once pf pf' t t' r r' v visits p p' valid h parsed parsed' same early room soon h' =
    let first = verified-Spent pf t r v h in
    let between = visits-Calls (t.mono + v.nonces.ttl) visits (verify pf t r v).0 early in
    let second = verified-Spent pf' t' r' (after_visits visits (verify pf t r v).0) h' in
    let k : first.params.nonce ≡ p.nonce = same_params (sym first.parsed ∙ parsed) in
    let k' : second.params.nonce ≡ p.nonce = same_params (sym second.parsed ∙ parsed') ∙ same in
    let refused =
      replay_refused t.mono first.params.nonce v.nonces between.calls t'.mono valid first.unspent
        between.early (omega (arith, between.few)) soon in
    let nonces_are = between.same ∙ ap (after between.calls) first.spent in
    let after_between = after_visits visits (verify pf t r v).0 in
    let again : (NonceCache.seen t'.mono second.params.nonce after_between.nonces).1 ≡ true =
      ap (λ n. (NonceCache.seen t'.mono n after_between.nonces).1) (k' ∙ sym k)
      ∙ ap (λ n. (NonceCache.seen t'.mono first.params.nonce n).1) nonces_are
      ∙ refused in
    absurd (ground (arith, again, second.unspent))
