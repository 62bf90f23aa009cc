-- ===== src/Identity/Dial.antt =====
-- internal/identity/signed.go: the dialer of the card fetches. A net.IP is its 4 or 16 bytes, and
-- the tests on it are those of package net; the resolver, the connection and the splitting of an
-- address are the record `Network`.
pub mod Guarded
pub mod Ranges
use robotsyes.Base.{
  ℕ, zero, suc, ◌/◌, ◌%◌, Bytes, Bool, true, false, not, ◌&&◌, ◌||◌, Option, none, some, List, [],
  ◌∷◌, ◌++◌, equal, length, take, drop, ◌==◌, leb, if◌then◌else◌,
}

abbrev pub zeros : ℕ → Bytes
zeros zero = []
zeros (suc n) = 0 ∷ zeros n

abbrev pub v4_prefix : Bytes
v4_prefix = zeros 10 ++ (255 ∷ 255 ∷ [])

-- `IP.To4`: the IPv4 address that an address is, mapped or not
unfoldable pub to4 : Bytes → Option Bytes
to4 ip =
    if length ip == 4
    then some ip
    else (if length ip == 16 && equal (take 12 ip) v4_prefix then some (drop 12 ip) else none)

-- a byte of an address that is long enough
unfoldable pub at : ℕ → Bytes → ℕ
at n [] = 0
at zero (c ∷ ip) = c
at (suc n) (c ∷ ip) = at n ip

unfoldable pub is_loopback : Bytes → Bool
is_loopback ip = elim (to4 ip) [ some v4 ↦ at 0 v4 == 127 | none ↦ equal ip (zeros 15 ++ (1 ∷ [])) ]

unfoldable pub is_private : Bytes → Bool
is_private ip = elim (to4 ip) [
  | some v4 ↦
      at 0 v4 == 10 || (at 0 v4 == 172 && at 1 v4 / 16 == 1) || (at 0 v4 == 192 && at 1 v4 == 168)
  | none ↦ length ip == 16 && at 0 ip / 2 == 126
]

unfoldable pub is_link_local_unicast : Bytes → Bool
is_link_local_unicast ip = elim (to4 ip) [
  | some v4 ↦ at 0 v4 == 169 && at 1 v4 == 254
  | none ↦ length ip == 16 && at 0 ip == 254 && at 1 ip / 64 == 2
]

unfoldable pub is_link_local_multicast : Bytes → Bool
is_link_local_multicast ip = elim (to4 ip) [
  | some v4 ↦ at 0 v4 == 224 && at 1 v4 == 0 && at 2 v4 == 0
  | none ↦ length ip == 16 && at 0 ip == 255 && at 1 ip % 16 == 2
]

unfoldable pub is_unspecified : Bytes → Bool
is_unspecified ip = elim (to4 ip) [ some v4 ↦ equal v4 (zeros 4) | none ↦ equal ip (zeros 16) ]

unfoldable pub is_multicast : Bytes → Bool
is_multicast ip = elim (to4 ip) [
  | some v4 ↦ at 0 v4 / 16 == 14
  | none ↦ length ip == 16 && at 0 ip == 255
]

-- `isDisallowedTarget`
unfoldable pub is_disallowed_target : Bytes → Bool
is_disallowed_target ip =
    is_loopback ip
    || is_private ip
    || is_link_local_unicast ip
    || is_link_local_multicast ip
    || is_unspecified ip
    || is_multicast ip

pub record Network (C : Type 0) : Type 0 where
  pub split_host_port : Bytes → Option (Bytes × Bytes)
  pub lookup_ip : Bytes → Option (List Bytes)
  -- `Dialer.DialContext` to an address and a port
  pub connect : Bytes → Bytes → Option C

pub data Dialed (C : Type 0) : Type 0 where
  bad_address lookup_failed refused : Dialed C
  -- the address and the port that were dialed, and the connection or the dialer's error
  tried : Bytes → Bytes → Option C → Dialed C

module _ {C : Type 0} (net : Network C) where
  -- the loop of `safeDialContext`
  unfoldable pub dial_first : Bytes → List Bytes → Dialed C
  dial_first port [] = refused
  dial_first port (ip ∷ ips) =
      let rest = dial_first port ips in
      if is_disallowed_target ip then rest else tried ip port (net.connect ip port)

  unfoldable pub safe_dial_context : Bytes → Dialed C
  safe_dial_context addr = elim (net.split_host_port addr) [
    | none ↦ bad_address
    | some (host, port) ↦ elim (net.lookup_ip host) [
      | none ↦ lookup_failed
      | some ips ↦ dial_first port ips
    ]
  ]
