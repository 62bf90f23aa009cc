-- ===== src/Proxy/Concurrent/Grounded.antt =====
-- Requests that are handled at the same time get no reply without its grounds.
use robotsyes.Base.{All}
use robotsyes.Base.Star.{Star}
use robotsyes.Identity.{Identity}
use robotsyes.Ratelimit
use robotsyes.Proxy.Reply.{Reply}
use robotsyes.Proxy.Server.{Server}
use robotsyes.Proxy.Concurrent.{System, Step}
use robotsyes.Proxy.Concurrent.Grounds.{HasGrounds}

module _ {M Q : Type 0} (from : System M Q) where
  -- Every request has the grounds of its phase.
  record AllGrounded (s : System M Q) : Type 0 where
    came : Star Step from s
    each : All (λ th. HasGrounds from th th.phase s) s.threads
