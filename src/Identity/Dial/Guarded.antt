-- ===== src/Identity/Dial/Guarded.antt =====
-- internal/identity/signed.go: which addresses the dialer connects to.
use robotsyes.Base.{
  Bytes, true, false, none, some, List, [], ◌∷◌, ◌++◌, ◌≡◌, ◌⊎◌, inl, inr, refl, ap, All,
  Bool-cases, Option-cases,
}
use robotsyes.Identity.Dial.{
  is_disallowed_target, Network, Dialed, bad_address, lookup_failed, refused, tried, dial_first,
  safe_dial_context,
}

abbrev pub Disallowed : Bytes → Type 0
Disallowed ip = is_disallowed_target ip ≡ true

-- The first address that is allowed is the one that is dialed, and no other.
abbrev pub DialsFirst : {C : Type 0} → Network C → Bytes → List Bytes → Dialed C → Type 0
DialsFirst net port ips (tried ip port' conn) =
    (before : List Bytes) × (after : List Bytes) × (ips ≡ before ++ (ip ∷ after))
    × All Disallowed before
    × (is_disallowed_target ip ≡ false)
    × (port' ≡ port)
    × (conn ≡ net.connect ip port)
DialsFirst net port ips refused = All Disallowed ips
DialsFirst net port ips bad_address = ⊥
DialsFirst net port ips lookup_failed = ⊥

module _ {C : Type 0} (net : Network C) where
  skipped :
      (port ip : Bytes) (ips : List Bytes) (d : Dialed C)
      → Disallowed ip
      → DialsFirst net port ips d
      → DialsFirst net port (ip ∷ ips) d
  skipped port ip ips (tried ip' port' conn) no_target
        (before, after, split, each, allowed, same, is) =
      (ip ∷ before, after, ap (λ x. ip ∷ x) split, (no_target, each), allowed, same, is)
  skipped port ip ips refused no_target each = (no_target, each)
  skipped port ip ips bad_address no_target h = absurd h
  skipped port ip ips lookup_failed no_target h = absurd h

  dial_first-DialsFirst :
      (port : Bytes) (ips : List Bytes) → DialsFirst net port ips (dial_first net port ips)
  unfolding dial_first
  dial_first-DialsFirst port [] = tt
  dial_first-DialsFirst port (ip ∷ ips) = elim (Bool-cases (is_disallowed_target ip)) [
    | inl no_target ↦
        rw (no_target, dial_first)
          (skipped port ip ips (dial_first net port ips) no_target (dial_first-DialsFirst port ips))
    | inr allowed ↦ rw (allowed, dial_first) ([], ips, refl, tt, allowed, refl, refl)
  ]

  -- What the dialer does for an address.
  abbrev pub Guards : Bytes → Dialed C → Type 0
  Guards addr d =
      ((net.split_host_port addr ≡ none) × (d ≡ bad_address))
      ⊎ ((host : Bytes) × (port : Bytes) × (net.split_host_port addr ≡ some (host, port))
          × (((net.lookup_ip host ≡ none) × (d ≡ lookup_failed))
              ⊎ ((ips : List Bytes) × (net.lookup_ip host ≡ some ips) × DialsFirst net port ips d)))

  -- The dialer fails on an address that it cannot split and on a host that it cannot resolve.
  -- Otherwise it dials the first of the resolved addresses that is allowed, at the given port and
  -- no other, or refuses if each of them is disallowed.
  pub safe_dial_context-Guards : (addr : Bytes) → Guards addr (safe_dial_context net addr)
  unfolding safe_dial_context
  safe_dial_context-Guards addr = elim (Option-cases (net.split_host_port addr)) [
    | inl malformed ↦ inl (malformed, rw (malformed, safe_dial_context) refl)
    | inr ((host, port), parts) ↦ elim (Option-cases (net.lookup_ip host)) [
      | inl unknown ↦
          inr (host, port, parts, inl (unknown, rw (parts, safe_dial_context) (rw unknown refl)))
      | inr (ips, found) ↦ inr (
        host,
        port,
        parts,
        inr (ips, found, rw (parts, safe_dial_context) (rw found (dial_first-DialsFirst port ips))),
      )
    ]
  ]
