-- ===== src/Tests/Caches.antt =====
-- The caches of internal/identity and internal/paymentgate/chitgate at concrete inputs.
use robotsyes.Base.{Bytes, true, false, [], ◌∷◌, ◌≡◌, refl, codes, arith, equal}
use robotsyes.Base.Int.{pos}
use robotsyes.Identity.Card.{Card}
use robotsyes.Identity.CardCache
use robotsyes.Identity.CardCache.{CardCache}
use robotsyes.Identity.CardCache.Runs.{get_at, put_at, answers, spec_answers, answers-refines}
use robotsyes.Identity.CardCache.Laws
use robotsyes.Identity.CardCache.Laws.{spec_get, spec_put, get-refines, put-refines}
use robotsyes.Identity.NonceCache
use robotsyes.Identity.NonceCache.{NonceCache, seen}
use robotsyes.Identity.NonceCache.Laws as NonceLaws
use robotsyes.Identity.NonceCache.Laws.{spec_seen, seen-refines}
use robotsyes.Identity.NonceCache.Replay
use robotsyes.Identity.NonceCache.Replay.{replay_refused, unseen_accepted}
use robotsyes.Chitgate.ReplayCache
use robotsyes.Chitgate.ReplayCache.{ReplayCache, reserve, commit, release}
use robotsyes.Chitgate.ReplayCache.Laws as ReplayLaws
use robotsyes.Chitgate.ReplayCache.Laws.{
  Shows, spec_reserve, spec_commit, spec_release, reserve-refines, commit-refines, release-refines,
}
use robotsyes.Chitgate.ReplayCache.Spent
use robotsyes.Chitgate.ReplayCache.Spent.{reserve_at, commit_at, release_of}
use robotsyes.Chitgate.ReplayCache.Once.{spent_once}

abbrev url : Bytes
url = codes "https://a.example/card"

abbrev card : Card
card = record { client_name = codes "bot"; keys = [] }

abbrev no_cards : CardCache
no_cards = CardCache.new (pos 2) 100

one_card : CardCache
one_card = CardCache.put 0 url card no_cards

one_card-IsValid : Laws.IsValid one_card
unfolding one_card
one_card-IsValid = (put-refines 0 url no_cards (Laws.new-IsValid (pos 2) 100).0 card).0

answers-refines_example :
    answers (get_at 3 url ∷ put_at 5 url card ∷ get_at 6 url ∷ []) one_card
    ≡ spec_answers one_card.ttl one_card.max_entries
        (get_at 3 url ∷ put_at 5 url card ∷ get_at 6 url ∷ [])
        (Laws.view one_card)
answers-refines_example =
    answers-refines (get_at 3 url ∷ put_at 5 url card ∷ get_at 6 url ∷ []) one_card one_card-IsValid

abbrev n1 : Bytes
n1 = codes "n1"

abbrev n2 : Bytes
n2 = codes "n2"

abbrev no_nonces : NonceCache
no_nonces = NonceCache.new (pos 3) 100

no_nonces-IsValid : NonceLaws.IsValid no_nonces
no_nonces-IsValid = (NonceLaws.new-IsValid (pos 3) 100).0

first_accepted : (seen 5 n1 no_nonces).1 ≡ false
unfolding NonceCache.new Replay.after
first_accepted = unseen_accepted (pos 3) 100 [] 5 n1 tt

replay_refused_example :
    (seen 90 n1 (Replay.after ((6, n2) ∷ (70, n1) ∷ []) (seen 5 n1 no_nonces).0)).1 ≡ true
unfolding NonceCache.new robotsyes.Base.Int.positive_or
replay_refused_example =
    replay_refused 5 n1 no_nonces ((6, n2) ∷ (70, n1) ∷ []) 90 no_nonces-IsValid first_accepted
      (omega arith, (omega arith, tt)) (omega arith) (omega arith)

abbrev no_payments : ReplayCache
no_payments = ReplayCache.new (pos 8) (pos 100)

no_payments-IsValid : ReplayLaws.IsValid no_payments
no_payments-IsValid = (ReplayLaws.new-IsValid (pos 8) (pos 100)).0

claimed : ReplayCache
claimed = (reserve 3 n1 no_payments).0

claimed-IsValid : ReplayLaws.IsValid claimed
unfolding claimed
claimed-IsValid = (reserve-refines n1 no_payments no_payments-IsValid 3).0.valid

step-refines_example :
    Shows claimed
      (Spent.spec_step claimed.ttl claimed.max_entries (commit_at 4 n1) (ReplayLaws.view claimed))
      (Spent.step (commit_at 4 n1) claimed)
step-refines_example = Spent.step-refines (commit_at 4 n1) claimed claimed-IsValid

reserved : (reserve 3 n1 no_payments).1 ≡ true
unfolding ReplayCache.reserve ReplayCache.new robotsyes.Recency.element robotsyes.Base.Assoc.get
reserved = refl

spent_once_example :
    (reserve 60 n1 (
      Spent.after
        (release_of n1 ∷ [])
        (commit 7 n1 (Spent.after (reserve_at 5 n1 ∷ []) (reserve 3 n1 no_payments).0)))).1
    ≡ false
unfolding ReplayCache.new equal robotsyes.Base.Int.positive_or
spent_once_example =
    spent_once 3 n1 no_payments no_payments-IsValid reserved (reserve_at 5 n1 ∷ []) 7
      (release_of n1 ∷ []) 60 (omega arith, tt) (refl, tt) (omega arith) (omega arith)
