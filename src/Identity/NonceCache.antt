-- ===== src/Identity/NonceCache.antt =====
-- internal/identity/noncecache.go: the record of the nonces already seen. Each call reads the
-- clock, which is the argument `now`, in nanoseconds of the monotonic clock.
pub mod Laws
pub mod Replay
use robotsyes.Base.{ℕ, ◌+◌, Bytes, Bool, true, false, none, some, length, ltb, if◌then◌else◌}
use robotsyes.Base.Int.{ℤ, positive_or}
use robotsyes.Recency
use robotsyes.Recency.{Recency, fresh, element, move_to_front, push, evict_over}

abbrev pub default_max_entries : ℕ
default_max_entries = 10000

pub record Entry : Type 0 where
  pub nonce : Bytes
  pub seen_at : ℕ

pub record NonceCache : Type 0 where
  pub ttl : ℕ
  pub max_entries : ℕ
  pub cache : Recency Entry

abbrev pub nonce_of : Entry → Bytes
nonce_of e = e.nonce

-- `newNonceCache`
unfoldable pub new : ℤ → ℕ → NonceCache
new max_entries ttl = record {
  ttl = ttl;
  max_entries = positive_or max_entries default_max_entries;
  cache = fresh;
}

unfoldable pub remove_element : Recency.Element Entry → Recency Entry → Recency Entry
remove_element = Recency.remove_element nonce_of

-- the part of `seen` behind the lookup: insert at the front, and evict past the capacity
unfoldable pub insert : ℕ → Bytes → NonceCache → Recency Entry → NonceCache
insert now nonce c cache =
    let entry : Entry = record { nonce = nonce; seen_at = now } in
    record c { cache = evict_over nonce_of c.max_entries (push nonce entry cache) }

-- `time.Since(entry.seen) < c.ttl`
abbrev pub is_live : ℕ → ℕ → Entry → Bool
is_live ttl now e = ltb now (e.seen_at + ttl)

unfoldable pub seen : ℕ → Bytes → NonceCache → NonceCache × Bool
seen now nonce c = elim (element nonce c.cache) [
  | some (el, entry) ↦
      if is_live c.ttl now entry
      then (record c { cache = record (c.cache) { order = move_to_front el c.cache.order } }, true)
      else (insert now nonce c (remove_element (el, entry) c.cache), false)
  | none ↦ (insert now nonce c c.cache, false)
]

unfoldable pub len : NonceCache → ℕ
len c = length c.cache.order
