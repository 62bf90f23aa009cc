-- ===== src/Base/OneLine.antt =====
-- Texts without a newline.
use Prim.Native.Nat.{ℕ}
use mathlib.Core.Path.{◌≡◌, refl}
use mathlib.Core.Bool.{Bool, true, not}
use mathlib.Core.List.{[], ◌∷◌, ◌++◌}
use native.Mathlib.Omega.{arith}
use robotsyes.Base.Tests.{◌==◌}
use robotsyes.Base.Lists.{all}
use robotsyes.Base.Strings.{Bytes}

abbrev pub in_line : ℕ → Bool
in_line c = not (c == 10)

-- There is no newline in the text.
abbrev pub IsOneLine : Bytes → Type 0
IsOneLine s = all in_line s ≡ true

pub IsOneLine-append : (s t : Bytes) → IsOneLine s → IsOneLine t → IsOneLine (s ++ t)
IsOneLine-append [] t hs ht = ht
IsOneLine-append (c ∷ s) t hs ht = let rest = IsOneLine-append s t in ground (arith, rest)

-- The first line of a text, and what follows it.
pub lines_injective :
    (s s' t t' : Bytes)
    → IsOneLine s
    → IsOneLine s'
    → s ++ (10 ∷ t) ≡ s' ++ (10 ∷ t')
    → (s ≡ s') × (t ≡ t')
lines_injective [] [] t t' h h' e = (refl, cc)
lines_injective [] (c ∷ s') t t' h h' e = absurd (ground arith)
lines_injective (c ∷ s) [] t t' h h' e = absurd (ground arith)
lines_injective (c ∷ s) (c' ∷ s') t t' h h' e =
    let (same, rest) = lines_injective s s' t t' (ground arith) (ground arith) (cc) in (cc, rest)
