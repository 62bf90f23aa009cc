-- ===== src/Metrics.antt =====
-- internal/metrics/metrics.go: the counter.
use robotsyes.Base.{ℕ, ◌+◌, ◌%◌}
use robotsyes.Base.Int.{ℤ, signed64, two_64}

-- `metrics.Counter`, by the bits of its atomic.Int64
pub record Counter : Type 0 where
  pub bits : ℕ

unfoldable pub inc : Counter → Counter
inc c = record { bits = (c.bits + 1) % two_64 }

unfoldable pub value : Counter → ℤ
value c = signed64 c.bits

abbrev pub zero_counter : Counter
zero_counter = record { bits = 0 }
