-- ===== src/Tests/Threads.antt =====
-- Two requests that the server handles at the same time.
use robotsyes.Base.{
  ◌+◌, ◌-◌, ◌*◌, ◌≤◌, Bool, true, some, [], ◌∷◌, ◌++◌, ◌≡◌, ◌⊎◌, refl, arith, equal, length,
}
use robotsyes.Base.Star.{Star, here, next}
use robotsyes.Config.{default}
use robotsyes.Identity.{Identity, tier_name, declared}
use robotsyes.Ratelimit.{full_key, unit}
use robotsyes.Chitgate.Merchant.{Merchant}
use robotsyes.Proxy.Discovery.{declared_only}
use robotsyes.Proxy.Server.{identify, serve_http}
use robotsyes.Proxy.Reply.{Reply}
use robotsyes.Proxy.Concurrent.{
  identified, served, reply_to, Thread, System, receive, ask, moved_to, Step, received, asked,
  Arrival, thread, start,
}
use robotsyes.Proxy.Concurrent.Weights.{let_through}
use robotsyes.Proxy.Concurrent.Ceiling.{concurrent_bound}
use robotsyes.Proxy.Concurrent.Tally.{Tallies}
use robotsyes.Proxy.Concurrent.Tallied.{concurrent-Tallies}
use robotsyes.Tests.Serving.{web, gate, clock, incoming, merchant}
use robotsyes.Tests.Ceilings.{server, client, made, known}

abbrev arrival : Arrival Merchant Bool
arrival = record { incoming = incoming; web = web; gate = gate }

abbrev th : Thread Merchant Bool
th = thread arrival

abbrev both : System Merchant Bool
both = start server (arrival ∷ arrival ∷ []) 0

abbrev one_known : System Merchant Bool
one_known = moved_to [] th (th ∷ []) (receive clock th server) both

abbrev known_thread : Thread Merchant Bool
known_thread = record th { phase = (receive clock th server).1 }

abbrev both_known : System Merchant Bool
both_known = moved_to (known_thread ∷ []) th [] (receive clock th one_known.server) one_known

abbrev second_known : Thread Merchant Bool
second_known = record th { phase = (receive clock th one_known.server).1 }

abbrev bot : Identity
bot = (identify web gate clock incoming one_known.server).1

-- The second request reaches the limiter before the first one.
abbrev overtaken : System Merchant Bool
overtaken =
    record (moved_to (known_thread ∷ []) second_known [] (ask 5 second_known bot both_known.server)
      both_known) { time = 5 }

second_is_known : second_known.phase ≡ identified bot
unfolding receive equal
second_is_known = refl

steps : Star Step both overtaken
steps = next (received [] th (th ∷ []) clock refl refl) (
    next (received (known_thread ∷ []) th [] clock refl refl) (
      next (asked (known_thread ∷ []) second_known [] bot 5 refl second_is_known (omega arith))
        here))

concurrent_bound_example :
    let_through (full_key (tier_name declared) client) overtaken.threads * unit
    ≤ 60 * unit + (overtaken.time - 0) * 60
concurrent_bound_example =
    concurrent_bound (λ s. true) default declared_only (some merchant) declared client 59 0
      (arrival ∷ arrival ∷ []) made known (omega arith) steps

concurrent-Tallies_example : Tallies overtaken.server.metrics overtaken.threads
concurrent-Tallies_example =
    concurrent-Tallies (λ s. true) default declared_only (some merchant) 0 (arrival ∷ arrival ∷ [])
      made steps

abbrev second_asked : Thread Merchant Bool
second_asked = record second_known { phase = (ask 5 second_known bot both_known.server).1 }

abbrev its_reply : Reply
its_reply = reply_to second_asked bot overtaken.server

abbrev second_served : System Merchant Bool
second_served =
    moved_to (known_thread ∷ []) second_asked [] (overtaken.server, served bot its_reply) overtaken
