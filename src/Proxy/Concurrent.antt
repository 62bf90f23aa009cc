-- ===== src/Proxy/Concurrent.antt =====
-- internal/proxy/proxy.go: requests that the server handles at the same time, each on its own
-- goroutine. A goroutine goes from one use of the shared state to the next: the verifier with the
-- count of the request, the limiter, the merchant with the count of what became of the request, and
-- what the reply reads. Each of these is one step.
pub mod Weights
pub mod Ceiling
pub mod Tally
pub mod Counts
pub mod Tallied
pub mod Grounds
pub mod Grounded
use robotsyes.Base.{
  ℕ, ◌≤◌, Bytes, Bool, Option, none, some, List, [], ◌∷◌, ◌++◌, ◌≡◌, equal, map, if◌then◌else◌,
}
use robotsyes.Identity.{Identity, tier_name}
use robotsyes.Identity.Signed.{Clock}
use robotsyes.Ratelimit
use robotsyes.Proxy.Reply.{Gate, Incoming, Reply, respond, metrics_body, client_key}
use robotsyes.Proxy.Server.{
  Server, Web, identify, handle_rate_limited, serve_content, metrics_path, metrics_headers,
}

-- Where the goroutine of a request stands; the last four have replied.
pub data Phase : Type 0 where
  arrived : Phase
  identified : Identity → Phase
  -- the limiter let it through, or not
  admitted refused : Identity → Phase
  -- the merchant settled a payment
  paid : Identity → Phase
  measured : Reply → Phase
  turned_away served sold : Identity → Reply → Phase

-- A request, with what the network and the merchant answer to it.
pub record Thread (M Q : Type 0) : Type 0 where
  pub incoming : Incoming
  pub web : Web Q
  pub gate : Gate M
  pub phase : Phase

-- `time` is that of the limiter's last call, which reads the clock under its mutex.
pub record System (M Q : Type 0) : Type 0 where
  pub server : Server M
  pub threads : List (Thread M Q)
  pub time : ℕ

module _ {M Q : Type 0} where
  -- `ServeHTTP` up to the limiter
  unfoldable pub receive : Clock → Thread M Q → Server M → Server M × Phase
  receive t th s =
      if equal th.incoming.request.path metrics_path
      then (s, measured (respond 200 metrics_headers (metrics_body s.metrics)))
      else (let (s', id) = identify th.web th.gate t th.incoming s in (s', identified id))

  abbrev pub key_for : Thread M Q → Identity → Bytes
  key_for th id = client_key th.web.platform.split_host_port th.incoming.request id

  -- the call of the limiter
  unfoldable pub ask : ℕ → Thread M Q → Identity → Server M → Server M × Phase
  ask now th id s =
      let (limiter, allowed) = Ratelimit.allow now (tier_name id.tier) (key_for th id) s.limiter in
      (record s { limiter = limiter }, if allowed then admitted id else refused id)

  -- the call of `handleRateLimited`
  unfoldable pub charge : Thread M Q → Identity → Server M → Server M × Phase
  charge th id s =
      let (s', denied) = handle_rate_limited th.gate th.incoming.request id.tier s in
      (s', elim denied [ some reply ↦ turned_away id reply | none ↦ paid id ])

  -- the rest of `ServeHTTP`
  unfoldable pub reply_to : Thread M Q → Identity → Server M → Reply
  reply_to th id s = serve_content th.web th.gate th.incoming id.tier s

  abbrev pub moved_to :
      List (Thread M Q)
      → Thread M Q
      → List (Thread M Q)
      → Server M × Phase
      → System M Q
      → System M Q
  moved_to before th after (server, phase) s = record s {
    server = server;
    threads = before ++ (record th { phase = phase } ∷ after);
  }

  -- A goroutine makes its next step.
  pub data Step (s : System M Q) : System M Q → Type 0 where
    received :
        (before : List (Thread M Q)) (th : Thread M Q) (after : List (Thread M Q)) (t : Clock)
        → s.threads ≡ before ++ (th ∷ after)
        → th.phase ≡ arrived
        → Step s (moved_to before th after (receive t th s.server) s)
    asked :
        (before : List (Thread M Q)) (th : Thread M Q) (after : List (Thread M Q)) (id : Identity)
        (now : ℕ)
        → s.threads ≡ before ++ (th ∷ after)
        → th.phase ≡ identified id
        → s.time ≤ now
        → Step s (record (moved_to before th after (ask now th id s.server) s) { time = now })
    charged :
        (before : List (Thread M Q)) (th : Thread M Q) (after : List (Thread M Q)) (id : Identity)
        → s.threads ≡ before ++ (th ∷ after)
        → th.phase ≡ refused id
        → Step s (moved_to before th after (charge th id s.server) s)
    replied :
        (before : List (Thread M Q)) (th : Thread M Q) (after : List (Thread M Q)) (id : Identity)
        → s.threads ≡ before ++ (th ∷ after)
        → th.phase ≡ admitted id
        → Step s (moved_to before th after (s.server, served id (reply_to th id s.server)) s)
    replied_paid :
        (before : List (Thread M Q)) (th : Thread M Q) (after : List (Thread M Q)) (id : Identity)
        → s.threads ≡ before ++ (th ∷ after)
        → th.phase ≡ paid id
        → Step s (moved_to before th after (s.server, sold id (reply_to th id s.server)) s)

-- A request as it comes in.
pub record Arrival (M Q : Type 0) : Type 0 where
  pub incoming : Incoming
  pub web : Web Q
  pub gate : Gate M

abbrev pub thread : {M Q : Type 0} → Arrival M Q → Thread M Q
thread a = record { incoming = a.incoming; web = a.web; gate = a.gate; phase = arrived }

abbrev pub start : {M Q : Type 0} → Server M → List (Arrival M Q) → ℕ → System M Q
start server arrivals t₀ = record { server = server; threads = map thread arrivals; time = t₀ }
