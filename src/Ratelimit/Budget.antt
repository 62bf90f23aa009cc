-- ===== src/Ratelimit/Budget.antt =====
-- The rate that a bucket lets through.
use robotsyes.Base.{ℕ, ◌+◌, ◌-◌, ◌*◌, ◌≤◌, Bool, true, false, ◌≡◌, ◌∙◌, ap, arith}
use robotsyes.Ratelimit.{Bucket, unit, take_token}

-- what a request spends
abbrev pub spent : Bool → ℕ
spent true = 1
spent false = 0

add_distrib : (a b c : ℕ) → (a + b) * c ≡ a * c + b * c
add_distrib a b c = omega arith

pub elapsed_add :
    (t₀ t now rpm : ℕ) → t₀ ≤ t → t ≤ now → (now - t₀) * rpm ≡ (now - t) * rpm + (t - t₀) * rpm
elapsed_add t₀ t now rpm h h' =
    let e : now - t₀ ≡ (now - t) + (t - t₀) = omega arith in
    ap (λ (n : ℕ). n * rpm) e ∙ add_distrib (now - t) (t - t₀) rpm

-- One request moves the budget of its bucket on by the time since the last one.
pub take_token_budget :
    (rpm now t₀ g : ℕ) (b : Bucket)
    → t₀ ≤ b.last_refill
    → b.last_refill ≤ now
    → g * unit + b.tokens ≤ rpm * unit + (b.last_refill - t₀) * rpm
    → (g + spent (take_token rpm now b).1) * unit + (take_token rpm now b).0.tokens
      ≤ rpm * unit + (now - t₀) * rpm
unfolding take_token
take_token_budget rpm now t₀ g b started later h =
    ground (arith, elapsed_add t₀ b.last_refill now rpm started later)

pub last_refill-take_token : (rpm now : ℕ) (b : Bucket) → (take_token rpm now b).0.last_refill ≡ now
unfolding take_token
last_refill-take_token rpm now b = ground arith
