-- ===== src/Identity/Freshness.antt =====
-- internal/identity/signed.go: the age and the validity of a signature. The wall clock is the
-- argument `wall`, in nanoseconds since 1970. A duration is an int64 of nanoseconds: its
-- subtraction of times saturates, and its negation and multiplication wrap, as in package time.
use robotsyes.Base.{
  ℕ, ◌+◌, ◌-◌, ◌*◌, ◌/◌, ◌≤◌, ◌<◌, Bool, true, false, ◌≡◌, ◌↔◌, arith, if◌then◌else◌,
}
use robotsyes.Base.Int.{ℤ, pos, negsuc, ◌+ℤ◌, ◌-ℤ◌, ◌*ℤ◌, leb_ℤ, ltb_ℤ, wrap64, two_63, two_64}
use robotsyes.Identity.SignatureInput.{SigParams}

abbrev pub second : ℕ
second = 1_000_000_000

-- the seconds from the zero of package time to 1970
abbrev pub unix_to_internal : ℕ
unix_to_internal = 62_135_596_800

-- `time.Unix(created, 0)`, in seconds from the zero of package time
unfoldable pub time_unix : ℤ → ℤ
unfolding ◌+ℤ◌ wrap64
time_unix created = wrap64 (created +ℤ pos unix_to_internal)

unfoldable pub saturate64 : ℤ → ℤ
saturate64 d =
    if ltb_ℤ (pos (two_63 - 1)) d
    then pos (two_63 - 1)
    else if ltb_ℤ d (negsuc (two_63 - 1))
    then negsuc (two_63 - 1)
    else d

-- `time.Since(t)`
unfoldable pub time_since : ℕ → ℤ → ℤ
unfolding saturate64 ◌-ℤ◌ ◌*ℤ◌
time_since wall t = saturate64 (pos (wall + unix_to_internal * second) -ℤ t *ℤ pos second)

unfoldable pub negate64 : ℤ → ℤ
unfolding wrap64 ◌-ℤ◌
negate64 d = wrap64 (pos 0 -ℤ d)

unfoldable pub within_skew : ℤ → ℕ → ℤ → Bool
unfolding time_unix time_since negate64
within_skew max_skew wall created =
    if leb_ℤ max_skew (pos 0)
    then true
    else (let age = time_since wall (time_unix created) in
        leb_ℤ (if ltb_ℤ age (pos 0) then negate64 age else age) max_skew)

-- `time.Duration(p.expires-p.created) * time.Second`
unfoldable pub validity_window : ℤ → ℤ → ℤ
unfolding wrap64 ◌-ℤ◌ ◌*ℤ◌
validity_window created expires = wrap64 (wrap64 (expires -ℤ created) *ℤ pos second)

unfoldable pub within_validity : ℤ → ℕ → SigParams → Bool
unfolding validity_window
within_validity max_validity wall p =
    if ltb_ℤ p.expires (pos (wall / second))
    then false
    else if leb_ℤ max_validity (pos 0)
    then true
    else leb_ℤ (validity_window p.created p.expires) max_validity

-- For times within 292 years of 1970 and a positive `max_skew`, a signature is fresh exactly if its
-- creation is at most `max_skew` before or after the present.
pub within_skew_exact :
    (m wall c : ℕ)
    → 1 ≤ m
    → wall < two_63
    → c * second < two_63
    → (within_skew (pos m) wall (pos c) ≡ true)
      ↔ ((wall ≤ c * second + m) × (c * second ≤ wall + m))
unfolding within_skew
within_skew_exact m wall c positive small_wall small_created =
    (λ h. ground arith, λ h. ground arith)

-- A creation time more than 292 years ahead, of which package time can represent the seconds, is
-- accepted as fresh: the age saturates at the least duration, whose negation wraps to itself.
pub within_skew_far_future :
    (m wall c : ℕ)
    → wall + two_63 ≤ c * second
    → c + unix_to_internal < two_63
    → within_skew (pos m) wall (pos c) ≡ true
unfolding within_skew
within_skew_far_future m wall c far representable = ground arith

-- For times within 292 years of 1970 and a positive `max_validity`, a signature is valid exactly if
-- it has not expired and expires at most `max_validity` after its creation.
pub within_validity_exact :
    (m wall c e : ℕ) (p : SigParams)
    → 1 ≤ m
    → p.created ≡ pos c
    → p.expires ≡ pos e
    → c * second < two_63
    → e * second < two_63
    → (within_validity (pos m) wall p ≡ true)
      ↔ ((wall / second ≤ e) × (e * second ≤ c * second + m))
unfolding within_validity
within_validity_exact m wall c e p positive pc pe small_created small_expires =
    (λ h. ground arith, λ h. ground arith)

-- A window of more than 292 and less than 584 years that has not expired is accepted: its length in
-- nanoseconds wraps to a negative duration.
pub within_validity_wraps :
    (m wall c e : ℕ) (p : SigParams)
    → p.created ≡ pos c
    → p.expires ≡ pos e
    → e < two_63
    → wall / second ≤ e
    → c * second + two_63 ≤ e * second
    → e * second < c * second + two_64
    → within_validity (pos m) wall p ≡ true
unfolding within_validity
within_validity_wraps m wall c e p pc pe representable live long short = ground arith
