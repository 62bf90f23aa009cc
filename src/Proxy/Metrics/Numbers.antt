-- ===== src/Proxy/Metrics/Numbers.antt =====
-- fmt's %d and strconv.ParseInt: a number that is printed is read back.
use robotsyes.Base.{
  ℕ, zero, suc, ◌+◌, ◌-◌, ◌*◌, ◌/◌, ◌%◌, ◌<◌, Bytes, some, [], ◌∷◌, ◌≡◌, inl, inr, refl, ◌∙◌, arith,
  ltb, Bool-cases,
}
use robotsyes.Base.Int.{ℤ, pos, negsuc, IsInt64}
use robotsyes.Base.Decimal.{
  digits_before, decimal, decimal_ℤ, IsDigit, decimal-IsDigit, decimal-cons,
}
use robotsyes.Identity.SignatureInput.{digits_value, parse_digits, parse_int}

digits_value-digit :
    (a d : ℕ) (acc : Bytes)
    → d < 10
    → digits_value a ((b'0' + d) ∷ acc) ≡ digits_value (a * 10 + d) acc
unfolding digits_value
digits_value-digit a d acc small =
    let same : b'0' + d - b'0' ≡ d = omega arith in rw same (ground arith)

-- The digits of a number spell it.
digits_value-digits :
    (fuel n : ℕ) (acc : Bytes)
    → n < fuel
    → digits_value 0 (digits_before fuel n acc) ≡ digits_value n acc
unfolding digits_before
digits_value-digits zero n acc h = absurd (omega arith)
digits_value-digits (suc fuel) n acc h = elim (Bool-cases (ltb n 10)) [
  | inl last ↦
      let same : 0 * 10 + n ≡ n = omega arith in
      rw last (digits_value-digit 0 n acc (ground arith) ∙ rw same refl)
  | inr more ↦
      let same : n / 10 * 10 + n % 10 ≡ n = omega arith in
      rw more (
        digits_value-digits fuel (n / 10) ((b'0' + n % 10) ∷ acc) (ground arith)
        ∙ (digits_value-digit (n / 10) (n % 10) acc (omega arith) ∙ rw same refl))
]

parse_digits-cons : (s t : Bytes) (c : ℕ) → s ≡ c ∷ t → parse_digits s ≡ digits_value 0 s
unfolding parse_digits
parse_digits-cons s t c is = rw is refl

parse_digits-decimal : (n : ℕ) → parse_digits (decimal n) ≡ some n
unfolding decimal digits_value
parse_digits-decimal n =
    let (c, t, is) = decimal-cons n in
    parse_digits-cons (decimal n) t c is ∙ digits_value-digits (suc n) n [] (omega arith)

-- A number that is printed is read back.
pub parse_int-decimal : (z : ℤ) → IsInt64 z → parse_int (decimal_ℤ z) ≡ some z
unfolding parse_int decimal_ℤ
parse_int-decimal (pos n) h =
    let (c, t, is) = decimal-cons n in
    let first : IsDigit c = (rw is at (decimal-IsDigit n)).0 in
    let spells : parse_digits (c ∷ t) ≡ some n = rw is at (parse_digits-decimal n) in
    rw is (ground (arith, spells))
parse_int-decimal (negsuc n) h = ground (arith, parse_digits-decimal (suc n))
