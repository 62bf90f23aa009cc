-- ===== src/Proxy/Concurrent/Ceiling.antt =====
-- The published ceiling holds for requests that are handled at the same time.
use robotsyes.Base.{
  ℕ, suc, ◌+◌, ◌-◌, ◌*◌, ◌≤◌, ◌<◌, Bytes, Bool, Option, some, List, ◌∷◌, ◌++◌, ◌≡◌, ◌∙◌, sym, refl,
  ap, arith, length, sum_by-replaced,
}
use robotsyes.Base.Assoc
use robotsyes.Base.Int.{pos}
use robotsyes.Base.Star.{Star, Star-keeps}
use robotsyes.Identity.{Tier, tier_name}
use robotsyes.Config.{Config}
use robotsyes.Ratelimit
use robotsyes.Ratelimit.{Limiter, full_key, unit}
use robotsyes.Ratelimit.Isolation.{LacksBar}
use robotsyes.Ratelimit.Rate.{cold, Metered, Metered-step, Meter-bound}
use robotsyes.Proxy.Discovery.{Verifier}
use robotsyes.Proxy.Server.{Server, new, limits_of}
use robotsyes.Proxy.Server.Ceiling.Questions.{tier_name-LacksBar}
use robotsyes.Proxy.Server.Ceiling.Bound.{IsFresh, new-IsFresh}
use robotsyes.Proxy.Concurrent.{
  Phase, served, sold, Thread, System, receive, key_for, ask, charge, reply_to, moved_to, Step,
  received, asked, charged, replied, replied_paid, Arrival, start,
}
use robotsyes.Proxy.Concurrent.Weights.{
  past_limiter, through, let_through, asked_by, receive-limiter, receive-weights, charge-limiter,
  charge-weights, ask-weights, asked_by-le-length, all_arrived, length-replaced,
}

module _ (r : ℕ) (tier client : Bytes) (t₀ max : ℕ) where
  abbrev k : Bytes
  k = full_key tier client

  Metered-same :
      (now g g' m m' : ℕ) (l l' : Limiter)
      → g ≡ g'
      → m ≡ m'
      → l' ≡ l
      → Metered r tier client t₀ max now g m l
      → Metered r tier client t₀ max now g' m' l'
  Metered-same now g g' m m' l l' gs ms ls h = rw (← gs, ← ms, ls) h

  module _ {M Q : Type 0} where
    record IsBounded (size : ℕ) (s : System M Q) : Type 0 where
      metered :
          Metered r tier client t₀ max s.time
            (let_through k s.threads)
            (asked_by s.threads)
            s.server.limiter
      sized : length s.threads ≡ size

    -- A step that asks the limiter nothing.
    moved :
        (size : ℕ) (before after : List (Thread M Q)) (th : Thread M Q) (s : System M Q)
        (next : Server M × Phase)
        → s.threads ≡ before ++ (th ∷ after)
        → next.0.limiter ≡ s.server.limiter
        → through k th next.1 ≡ through k th th.phase
        → past_limiter next.1 ≡ past_limiter th.phase
        → IsBounded size s
        → IsBounded size (moved_to before th after next s)
    moved size before after th s next is limiter_is through_is past_is b =
        let th' = record th { phase = next.1 } in
        let gs = sum_by-replaced (λ u. through k u u.phase) before th th' after s.threads is in
        let ms = sum_by-replaced (λ u. past_limiter u.phase) before th th' after s.threads is in
        record {
          metered =
              Metered-same s.time _ _ _ _ _ _ (omega arith) (omega arith) limiter_is b.metered;
          sized = length-replaced before th th' after s.threads is ∙ b.sized;
        }

    Step-IsBounded :
        (size : ℕ)
        → size < max
        → LacksBar tier
        → (s t : System M Q) → Step s t
        → IsBounded size s
        → IsBounded size t
    Step-IsBounded size small plain s t (received before th after c is at) b =
        let (through_is, past_is) = receive-weights k c th s.server in
        let was = ap (through k th) at in
        let had = ap past_limiter at in
        moved size before after th s (receive c th s.server) is (receive-limiter c th s.server)
          (omega arith) (omega arith) b
    Step-IsBounded size small plain s t (charged before th after id is at) b =
        let (through_is, past_is) = charge-weights k th id s.server in
        let was = ap (through k th) at in
        let had = ap past_limiter at in
        moved size before after th s (charge th id s.server) is (charge-limiter th id s.server)
          (omega arith) (omega arith) b
    Step-IsBounded size small plain s t (replied before th after id is at) b =
        moved size before after th s (s.server, served id (reply_to th id s.server)) is refl
          (sym (ap (through k th) at)) (sym (ap past_limiter at)) b
    Step-IsBounded size small plain s t (replied_paid before th after id is at) b =
        moved size before after th s (s.server, sold id (reply_to th id s.server)) is refl
          (sym (ap (through k th) at)) (sym (ap past_limiter at)) b
    Step-IsBounded size small plain s t (asked before th after id now is at le) b =
        let next = ask now th id s.server in
        let th' = record th { phase = next.1 } in
        let (limiter_is, through_is, past_is) = ask-weights k now th id s.server in
        let was = ap (through k th) at in
        let had = ap past_limiter at in
        let gs = sum_by-replaced (λ u. through k u u.phase) before th th' after s.threads is in
        let ms = sum_by-replaced (λ u. past_limiter u.phase) before th th' after s.threads is in
        let size_is = length-replaced before th th' after s.threads is in
        let few = asked_by-le-length (before ++ (th' ∷ after)) in
        let sized = b.sized in
        record {
          metered = Metered-same now _ _ _ _ _ _ (omega arith) (omega arith) limiter_is (
              Metered-step r tier client t₀ max s.time _ _
                (record { now = now; tier = tier_name id.tier; client = key_for th id })
                s.server.limiter plain (tier_name-LacksBar id.tier) le (omega arith) b.metered);
          sized = length-replaced before th th' after s.threads is ∙ b.sized;
        }

    start-IsBounded :
        (server : Server M) (arrivals : List (Arrival M Q))
        → IsFresh tier (pos (suc r)) server.limiter
        → server.limiter.max_entries ≡ max
        → IsBounded (length arrivals) (start server arrivals t₀)
    start-IsBounded server arrivals fresh max_is =
        let (none_through, none_asked, as_many) = all_arrived k arrivals in
        record {
          metered = Metered-same t₀ 0 _ 0 _ _ _ (sym none_through) (sym none_asked) refl (record {
            valid = fresh.valid;
            known = fresh.known;
            max_is = max_is;
            since = omega arith;
            meter = cold (fresh.empty k) refl;
          });
          sized = as_many;
        }

module _ {M Q : Type 0} where
  -- In every state that requests on goroutines of their own can reach in any order, from a new
  -- server at time `t0`, the limiter has let through at most `rpm` requests of one client in one
  -- tier, and `rpm` a minute beyond these up to the time of its last call, if the configuration
  -- gives the tier the ceiling `rpm` and the requests are fewer than the entries that the limiter
  -- has room for.
  pub concurrent_bound :
      (parses_url : Bytes → Bool) (cfg : Config) (verifier : Verifier) (merchant : Option M)
      (tier : Tier) (client : Bytes) (r t₀ : ℕ) (arrivals : List (Arrival M Q)) {server : Server M}
      {s : System M Q}
      → new parses_url cfg verifier merchant ≡ some server
      → Assoc.get (tier_name tier) cfg.rate_limits ≡ some (pos (suc r))
      → length arrivals < Ratelimit.default_max_entries
      → Star Step (start server arrivals t₀) s
      → let_through (full_key (tier_name tier) client) s.threads * unit
        ≤ suc r * unit + (s.time - t₀) * suc r
  unfolding new
  concurrent_bound parses_url cfg verifier merchant tier client r t₀ arrivals {server} {s} made
        known few steps =
      let is : server.limiter
          ≡ Ratelimit.new (limits_of cfg.rate_limits) (pos Ratelimit.default_max_entries) =
        ground arith in
      let fresh : IsFresh (tier_name tier) (pos (suc r)) server.limiter =
        rw is (new-IsFresh (tier_name tier) cfg.rate_limits (pos (suc r)) known) in
      let b =
        Star-keeps
          (IsBounded r (tier_name tier) client t₀ server.limiter.max_entries (length arrivals))
          (Step-IsBounded r (tier_name tier) client t₀ server.limiter.max_entries (length arrivals)
            (omega (arith, fresh.room)) (tier_name-LacksBar tier))
          steps
          (start-IsBounded r (tier_name tier) client t₀ server.limiter.max_entries server arrivals
            fresh refl) in
      Meter-bound r (tier_name tier) client t₀ s.time _ _ s.server.limiter b.metered.since
        b.metered.meter
