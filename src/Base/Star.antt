-- ===== src/Base/Star.antt =====
-- The steps of a relation, one after the other.
use Prim.Native.Nat.{ℕ, suc, ◌+◌}
use mathlib.Core.Path.{◌≡◌}
use native.Mathlib.Omega.{arith}

pub data Star {ℓ κ} {A : Type ℓ} (R : A → A → Type κ) : A → A → Type (ℓ ⊔ κ) where
  here : {a : A} → Star R a a
  next : {a b c : A} → R a b → Star R b c → Star R a c

module _ {ℓ κ} {A : Type ℓ} {R : A → A → Type κ} where
  pub Star-keeps {ν} :
      (P : A → Type ν) → ((a b : A) → R a b → P a → P b) → {a b : A} → Star R a b → P a → P b
  Star-keeps P keeps here p = p
  Star-keeps P keeps (next r rest) p = Star-keeps P keeps rest (keeps _ _ r p)

  pub Star-trans : {a b c : A} → Star R a b → Star R b c → Star R a c
  Star-trans here rest = rest
  Star-trans (next r steps) rest = next r (Star-trans steps rest)

  -- how many steps there are
  abbrev pub count : {a b : A} → Star R a b → ℕ
  count here = 0
  count (next r rest) = suc (count rest)

  -- A size that each step makes smaller by one counts the steps.
  pub count-size :
      (size : A → ℕ)
      → ((a b : A) → R a b → suc (size b) ≡ size a)
      → {a b : A} (steps : Star R a b) → count steps + size b ≡ size a
  count-size size smaller {a} {b} here = omega arith
  count-size size smaller {a} {b} (next r rest) =
      let fewer = count-size size smaller rest in let one = smaller _ _ r in omega arith
