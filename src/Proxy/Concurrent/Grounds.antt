-- ===== src/Proxy/Concurrent/Grounds.antt =====
-- What a reply is grounded on: what the verifier, the limiter and the merchant answered about the
-- request in states that the system went through before.
use robotsyes.Base.{ℕ, ◌≤◌, Bool, true, false, Option, some, none, ◌≡◌, ◌⊎◌, inl, inr, equal}
use robotsyes.Base.Star.{Star, here, next, Star-trans}
use robotsyes.Identity.{Identity, tier_name}
use robotsyes.Identity.Signed.{Clock}
use robotsyes.Ratelimit
use robotsyes.Proxy.Reply.{Reply, respond, metrics_body}
use robotsyes.Proxy.Server.{identify, metrics_path, metrics_headers}
use robotsyes.Proxy.Server.Paid.{Denies, Settled}
use robotsyes.Proxy.Server.Content.{IsContent}
use robotsyes.Proxy.Server.Ceiling.{is_served}
use robotsyes.Proxy.Concurrent.{
  Phase, arrived, identified, admitted, refused, paid, measured, turned_away, served, sold, Thread,
  System, key_for, Step,
}

-- What a goroutine has replied.
abbrev pub reply_of : Phase → Option Reply
reply_of (measured reply) = some reply
reply_of (turned_away id reply) = some reply
reply_of (served id reply) = some reply
reply_of (sold id reply) = some reply
reply_of phase = none

module _ {M Q : Type 0} where
  -- It held in a state that the system was in before it came to `s`.
  abbrev pub Before : (System M Q → Type 0) → System M Q → Type 0
  Before P s = (u : System M Q) × Star Step u s × P u

  pub Before-Step :
      {P : System M Q → Type 0} (s t : System M Q) → Step s t → Before P s → Before P t
  Before-Step s t step (u, steps, p) = (u, Star-trans steps (next step here), p)

  module _ (start : System M Q) (th : Thread M Q) where
    -- The system started as it did, and is now in `u`.
    abbrev Came : System M Q → Type 0
    Came u = Star Step start u

    -- The request is not for the metrics, and the verifier granted it the identity.
    abbrev pub IsKnown : Identity → System M Q → Type 0
    IsKnown id = Before (λ u.
        Came u
        × (equal th.incoming.request.path metrics_path ≡ false)
        × ((t : Clock) × ((identify th.web th.gate t th.incoming u.server).1 ≡ id)))

    -- After that, the limiter let it through or denied it, under this identity.
    abbrev pub IsAnswered : Bool → Identity → System M Q → Type 0
    IsAnswered allowed id = Before (λ u.
        IsKnown id u
        × ((now : ℕ) × (u.time ≤ now)
            × ((Ratelimit.allow now (tier_name id.tier) (key_for th id) u.server.limiter).1
                ≡ allowed)))

    -- After the limiter denied it, the merchant settled a payment for it.
    abbrev pub HasPaid : Identity → System M Q → Type 0
    HasPaid id = Before (λ u. IsAnswered false id u × Settled th.gate th.incoming.request u.server)

    -- The request was for the metrics, and got those of the server at that time.
    abbrev pub IsMeasured : Reply → System M Q → Type 0
    IsMeasured reply = Before (λ u.
        Came u
        × (equal th.incoming.request.path metrics_path ≡ true)
        × (reply ≡ respond 200 metrics_headers (metrics_body u.server.metrics)))

    -- Once the limiter let it through, or the merchant settled its payment, it got what the server
    -- had for it then, which is no denial.
    abbrev pub IsServed : Identity → Reply → System M Q → Type 0
    IsServed id reply s =
        Before
          (λ u.
            (IsAnswered true id u ⊎ HasPaid id u)
            × IsContent th.web th.gate th.incoming id.tier u.server reply)
          s
        × (is_served reply ≡ true)

    -- The grounds of a reply.
    abbrev pub IsGrounded : Reply → System M Q → Type 0
    IsGrounded reply s =
        IsMeasured reply s
        ⊎ ((id : Identity) × ((IsAnswered false id s × Denies id.tier reply) ⊎ IsServed id reply s))

    -- What is so of a request in each of its phases.
    abbrev pub HasGrounds : Phase → System M Q → Type 0
    HasGrounds arrived s = Unit
    HasGrounds (identified id) s = IsKnown id s
    HasGrounds (admitted id) s = IsAnswered true id s
    HasGrounds (refused id) s = IsAnswered false id s
    HasGrounds (paid id) s = HasPaid id s
    HasGrounds (measured reply) s = IsGrounded reply s
    HasGrounds (turned_away id reply) s = IsGrounded reply s
    HasGrounds (served id reply) s = IsGrounded reply s
    HasGrounds (sold id reply) s = IsGrounded reply s

    IsGrounded-Step :
        (reply : Reply) (s t : System M Q) → Step s t → IsGrounded reply s → IsGrounded reply t
    IsGrounded-Step reply s t step (inl metrics) = inl (Before-Step s t step metrics)
    IsGrounded-Step reply s t step (inr (id, inl (over, denied))) =
        inr (id, inl (Before-Step s t step over, denied))
    IsGrounded-Step reply s t step (inr (id, inr (given, ok))) =
        inr (id, inr (Before-Step s t step given, ok))

    -- Steps of other requests take no grounds away.
    pub HasGrounds-Step :
        (ph : Phase) (s t : System M Q) → Step s t → HasGrounds ph s → HasGrounds ph t
    HasGrounds-Step arrived s t step h = tt
    HasGrounds-Step (identified id) s t step h = Before-Step s t step h
    HasGrounds-Step (admitted id) s t step h = Before-Step s t step h
    HasGrounds-Step (refused id) s t step h = Before-Step s t step h
    HasGrounds-Step (paid id) s t step h = Before-Step s t step h
    HasGrounds-Step (measured reply) s t step h = IsGrounded-Step reply s t step h
    HasGrounds-Step (turned_away id reply) s t step h = IsGrounded-Step reply s t step h
    HasGrounds-Step (served id reply) s t step h = IsGrounded-Step reply s t step h
    HasGrounds-Step (sold id reply) s t step h = IsGrounded-Step reply s t step h
