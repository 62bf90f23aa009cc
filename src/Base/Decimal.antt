-- ===== src/Base/Decimal.antt =====
-- fmt's verb %d.
use Prim.Native.Nat.{ℕ, zero, suc, ◌+◌, ◌/◌, ◌%◌, ◌≤◌}
use mathlib.Core.Path.{◌≡◌, refl}
use mathlib.Core.Logic.{inl, inr}
use mathlib.Core.List.{[], ◌∷◌}
use native.Mathlib.Omega.{arith}
use robotsyes.Base.Tests.{ltb, if◌then◌else◌, Bool-cases}
use robotsyes.Base.Lists.{All}
use robotsyes.Base.Strings.{Bytes}
use robotsyes.Base.Int.{ℤ, pos, negsuc}

-- the digits of a number before those that are there, with as many steps as the first argument
unfoldable pub digits_before : ℕ → ℕ → Bytes → Bytes
digits_before zero n acc = acc
digits_before (suc fuel) n acc =
    let more = digits_before fuel (n / 10) ((b'0' + n % 10) ∷ acc) in
    if ltb n 10 then (b'0' + n) ∷ acc else more

unfoldable pub decimal : ℕ → Bytes
decimal n = digits_before (suc n) n []

unfoldable pub decimal_ℤ : ℤ → Bytes
decimal_ℤ (pos n) = decimal n
decimal_ℤ (negsuc n) = b'-' ∷ decimal (suc n)

abbrev pub IsDigit : ℕ → Type 0
IsDigit c = (48 ≤ c) × (c ≤ 57)

digits_before-IsDigit :
    (fuel n : ℕ) (acc : Bytes) → All IsDigit acc → All IsDigit (digits_before fuel n acc)
unfolding digits_before
digits_before-IsDigit zero n acc h = h
digits_before-IsDigit (suc fuel) n acc h = elim (Bool-cases (ltb n 10)) [
  | inl last ↦ rw last ((ground arith, ground arith), h)
  | inr more ↦
      rw more (
        digits_before-IsDigit fuel (n / 10) ((b'0' + n % 10) ∷ acc) ((omega arith, omega arith), h))
]

pub decimal-IsDigit : (n : ℕ) → All IsDigit (decimal n)
unfolding decimal
decimal-IsDigit n = digits_before-IsDigit (suc n) n [] tt

-- There is a digit.
digits_before-cons :
    (fuel n d : ℕ) (acc : Bytes) → (c : ℕ) × (s : Bytes) × (digits_before fuel n (d ∷ acc) ≡ c ∷ s)
unfolding digits_before
digits_before-cons zero n d acc = (d, acc, refl)
digits_before-cons (suc fuel) n d acc = elim (Bool-cases (ltb n 10)) [
  | inl last ↦ (b'0' + n, d ∷ acc, rw last refl)
  | inr more ↦
      let (c, s, is) = digits_before-cons fuel (n / 10) (b'0' + n % 10) (d ∷ acc) in
      (c, s, rw (more, is) refl)
]

pub decimal-cons : (n : ℕ) → (c : ℕ) × (s : Bytes) × (decimal n ≡ c ∷ s)
unfolding decimal digits_before
decimal-cons n = elim (Bool-cases (ltb n 10)) [
  | inl last ↦ (b'0' + n, [], rw last refl)
  | inr more ↦
      let (c, s, is) = digits_before-cons n (n / 10) (b'0' + n % 10) [] in
      (c, s, rw (more, is) refl)
]
