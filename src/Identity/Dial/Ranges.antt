-- ===== src/Identity/Dial/Ranges.antt =====
-- internal/identity/signed.go: the addresses that are not dialed, as ranges.
use robotsyes.Base.{ℕ, ◌+◌, ◌*◌, ◌≤◌, ◌<◌, true, [], ◌∷◌, ◌≡◌, ◌↔◌, ◌⊎◌, arith, equal}
use robotsyes.Identity.Dial.{
  to4, at, is_loopback, is_private, is_link_local_unicast, is_link_local_multicast, is_unspecified,
  is_multicast, is_disallowed_target,
}

-- An IPv4 address as a number.
abbrev pub address_number : ℕ → ℕ → ℕ → ℕ → ℕ
address_number a b c d = ((a * 256 + b) * 256 + c) * 256 + d

-- 0.0.0.0, 10.0.0.0/8, 127.0.0.0/8, 169.254.0.0/16, 172.16.0.0/12, 192.168.0.0/16, 224.0.0.0/4
abbrev pub InRange : ℕ → Type 0
InRange n =
    (n ≡ 0)
    ⊎ ((167772160 ≤ n) × (n < 184549376))
    ⊎ ((2130706432 ≤ n) × (n < 2147483648))
    ⊎ ((2851995648 ≤ n) × (n < 2852061184))
    ⊎ ((2886729728 ≤ n) × (n < 2887778304))
    ⊎ ((3232235520 ≤ n) × (n < 3232301056))
    ⊎ ((3758096384 ≤ n) × (n < 4026531840))

abbrev IsByte : ℕ → Type 0
IsByte n = n < 256

-- An IPv4 address is disallowed exactly if its number is 0 or lies in one of the blocks 10.0.0.0/8,
-- 127.0.0.0/8, 169.254.0.0/16, 172.16.0.0/12, 192.168.0.0/16 and 224.0.0.0/4.
pub is_disallowed_target_v4 :
    (a b c d : ℕ)
    → IsByte a
    → IsByte b
    → IsByte c
    → IsByte d
    → (is_disallowed_target (a ∷ b ∷ c ∷ d ∷ []) ≡ true) ↔ InRange (address_number a b c d)
unfolding is_disallowed_target is_loopback is_private is_link_local_unicast is_link_local_multicast
    is_unspecified is_multicast to4 at equal
is_disallowed_target_v4 a b c d ha hb hc hd = ground arith
