-- ===== src/Base/Strings.antt =====
-- Go strings as lists of bytes, and the functions of package strings that the program calls.
use Prim.Native.Nat.{ℕ, ◌+◌}
use Prim.Native.Char.{code}
use Prim.Native.String.{String}
use mathlib.Core.Path.{◌≡◌, refl, ap, ◌∙◌}
use mathlib.Core.Logic.{◌↔◌, inl, inr}
use mathlib.Core.Bool.{Bool, true, false, ◌&&◌, ◌||◌}
use mathlib.Core.List.{List, [], ◌∷◌, ◌++◌, reverse}
use mathlib.Core.Option.{Option, none, some}
use native.Mathlib.Omega.{arith}
use robotsyes.Base.Tests.{◌==◌, leb, if◌then◌else◌, Bool-cases}

abbrev pub Bytes : Type 0
Bytes = List ℕ

-- The code points of a literal: its bytes, as every literal here is ASCII.
abbrev pub codes : String → Bytes
codes String.[] = []
codes (String.◌∷◌ c s) = code c ∷ codes s

-- `a == b` on strings.
unfoldable pub equal : Bytes → Bytes → Bool
equal [] [] = true
equal (x ∷ a) (y ∷ b) = x == y && equal a b
equal _ _ = false

pub equal_iff : (s t : Bytes) → (equal s t ≡ true) ↔ (s ≡ t)
unfolding equal
equal_iff [] [] = ground arith
equal_iff [] (d ∷ t) = ground arith
equal_iff (c ∷ s) [] = ground arith
equal_iff (c ∷ s) (d ∷ t) = let rest = equal_iff s t in ground (arith, rest)

pub equal_refl : (a : Bytes) → equal a a ≡ true
equal_refl a = (equal_iff a a).1 refl

-- strings.CutPrefix, and strings.HasPrefix and strings.TrimPrefix by it.
unfoldable pub cut_prefix : Bytes → Bytes → Option Bytes
cut_prefix [] s = some s
cut_prefix (x ∷ p) [] = none
cut_prefix (x ∷ p) (y ∷ s) = let rest = cut_prefix p s in if x == y then rest else none

unfoldable pub has_prefix : Bytes → Bytes → Bool
unfolding cut_prefix
has_prefix p s = elim (cut_prefix p s) [ none ↦ false | some _ ↦ true ]

unfoldable pub trim_prefix : Bytes → Bytes → Bytes
unfolding cut_prefix
trim_prefix p s = elim (cut_prefix p s) [ none ↦ s | some rest ↦ rest ]

-- strings.HasSuffix and strings.TrimSuffix.
unfoldable pub has_suffix : Bytes → Bytes → Bool
unfolding has_prefix
has_suffix p s = has_prefix (reverse p) (reverse s)

unfoldable pub trim_suffix : Bytes → Bytes → Bytes
unfolding trim_prefix
trim_suffix p s = reverse (trim_prefix (reverse p) (reverse s))

-- strings.Cut at a one-byte separator: what is before and after the first one.
unfoldable pub cut : ℕ → Bytes → Option (Bytes × Bytes)
cut sep [] = none
cut sep (c ∷ s) =
    let rest : Option (Bytes × Bytes) = elim (cut sep s) [
      | none ↦ none
      | some (a, b) ↦ some (c ∷ a, b)
    ] in
    if c == sep then some ([], s) else rest

-- strings.Split at a one-byte separator.
abbrev cons_head : ℕ → List Bytes → List Bytes
cons_head c [] = (c ∷ []) ∷ []
cons_head c (p ∷ ps) = (c ∷ p) ∷ ps

unfoldable pub split : ℕ → Bytes → List Bytes
split sep [] = [] ∷ []
split sep (c ∷ s) = let rest = split sep s in if c == sep then [] ∷ rest else cons_head c rest

-- strings.Join with a one-byte separator.
unfoldable pub join : ℕ → List Bytes → Bytes
join sep [] = []
join sep (p ∷ []) = p
join sep (p ∷ q ∷ ps) = p ++ (sep ∷ join sep (q ∷ ps))

join-cons_head : (sep c : ℕ) (ps : List Bytes) → join sep (cons_head c ps) ≡ c ∷ join sep ps
unfolding join
join-cons_head sep c [] = refl
join-cons_head sep c (p ∷ []) = refl
join-cons_head sep c (p ∷ q ∷ ps) = refl

split-cons : (sep : ℕ) (s : Bytes) → (p : Bytes) × (ps : List Bytes) × (split sep s ≡ p ∷ ps)
unfolding split
split-cons sep [] = ([], [], refl)
split-cons sep (c ∷ s) =
    let (p, ps, rest) = split-cons sep s in
    elim (Bool-cases (c == sep)) [
      | inl at ↦ ([], split sep s, rw at refl)
      | inr not_at ↦ (c ∷ p, ps, rw (not_at, rest) refl)
    ]

join-nil : (sep : ℕ) (s : Bytes) → join sep ([] ∷ split sep s) ≡ sep ∷ join sep (split sep s)
unfolding join
join-nil sep s = let (p, ps, parts) = split-cons sep s in rw (parts, join) refl

pub join-split : (sep : ℕ) (s : Bytes) → join sep (split sep s) ≡ s
unfolding join split
join-split sep [] = refl
join-split sep (c ∷ s) = elim (Bool-cases (c == sep)) [
  | inl at ↦ rw at (join-nil sep s ∙ ground (arith, join-split sep s))
  | inr not_at ↦ rw not_at (join-cons_head sep c (split sep s) ∙ ap (λ t. c ∷ t) (join-split sep s))
]

-- strings.TrimLeft, strings.TrimRight and strings.Trim, by a test on the byte.
unfoldable pub trim_left : (ℕ → Bool) → Bytes → Bytes
trim_left p [] = []
trim_left p (c ∷ s) = let rest = trim_left p s in if p c then rest else c ∷ s

unfoldable pub trim_right : (ℕ → Bool) → Bytes → Bytes
unfolding trim_left
trim_right p s = reverse (trim_left p (reverse s))

unfoldable pub trim : (ℕ → Bool) → Bytes → Bytes
unfolding trim_left trim_right
trim p s = trim_right p (trim_left p s)

-- ASCII white space, which strings.TrimSpace drops at both ends.
abbrev pub is_space : ℕ → Bool
is_space c = c == 32 || (leb 9 c && leb c 13)

unfoldable pub trim_space : Bytes → Bytes
unfolding trim
trim_space = trim is_space

-- strings.ToLower and strings.EqualFold on ASCII text.
abbrev pub lower_byte : ℕ → ℕ
lower_byte c = if leb b'A' c && leb c b'Z' then c + 32 else c

unfoldable pub to_lower : Bytes → Bytes
to_lower [] = []
to_lower (c ∷ s) = lower_byte c ∷ to_lower s

unfoldable pub equal_fold : Bytes → Bytes → Bool
unfolding to_lower equal
equal_fold a b = equal (to_lower a) (to_lower b)
