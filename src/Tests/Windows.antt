-- ===== src/Tests/Windows.antt =====
-- internal/identity/signed.go: the windows of a signature at concrete times.
use robotsyes.Base.{ℕ, ◌+◌, ◌*◌, ◌/◌, ◌≤◌, true, [], ◌≡◌, ◌↔◌, refl, codes, arith}
use robotsyes.Base.Int.{pos}
use robotsyes.Identity.SignatureInput.{SigParams}
use robotsyes.Identity.Freshness.{
  second, within_skew, within_validity, within_skew_exact, within_skew_far_future,
  within_validity_exact, within_validity_wraps,
}

within_skew_exact_example : (within_skew (pos (300 * second)) (1000 * second) (pos 900) ≡ true) ↔ (
    (1000 * second ≤ 900 * second + 300 * second) × (900 * second ≤ 1000 * second + 300 * second))
within_skew_exact_example =
    within_skew_exact (300 * second) (1000 * second) 900 (omega arith) (omega arith) (omega arith)

within_skew_far_future_example :
    within_skew (pos (300 * second)) (1000 * second) (pos 10_000_000_000) ≡ true
within_skew_far_future_example =
    within_skew_far_future (300 * second) (1000 * second) 10_000_000_000 (omega arith) (omega arith)

abbrev signed_at : ℕ → ℕ → SigParams
signed_at created expires = record {
  covers_signature_agent = true;
  agent_label = [];
  created = pos created;
  expires = pos expires;
  key_id = codes "k1";
  nonce = codes "n1";
  raw = [];
}

within_validity_exact_example :
    (within_validity (pos (300 * second)) (1000 * second) (signed_at 900 1100) ≡ true)
    ↔ ((1000 * second / second ≤ 1100) × (1100 * second ≤ 900 * second + 300 * second))
within_validity_exact_example =
    within_validity_exact (300 * second) (1000 * second) 900 1100 (signed_at 900 1100) (omega arith)
      refl refl (omega arith) (omega arith)

within_validity_wraps_example :
    within_validity (pos (300 * second)) (1000 * second) (signed_at 900 10_000_000_000) ≡ true
within_validity_wraps_example =
    within_validity_wraps (300 * second) (1000 * second) 900 10_000_000_000
      (signed_at 900 10_000_000_000) refl refl (omega arith) (omega arith) (omega arith)
      (omega arith)
