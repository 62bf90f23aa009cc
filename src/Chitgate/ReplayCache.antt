-- ===== src/Chitgate/ReplayCache.antt =====
-- internal/paymentgate/chitgate/replaycache.go: the record of the payment nonces that are reserved
-- or spent. Each call that reads the clock takes it as the argument `now`, in nanoseconds of the
-- monotonic clock.
pub mod Laws
pub mod Spent
pub mod Once
use robotsyes.Base.{ℕ, ◌+◌, ◌*◌, Bytes, Bool, true, false, none, some, length, ltb, if◌then◌else◌}
use robotsyes.Base.Int.{ℤ, positive_or}
use robotsyes.Recency
use robotsyes.Recency.{Recency, fresh, element, move_to_front, set_value, push, evict_over}

abbrev pub default_max_entries : ℕ
default_max_entries = 10000

-- five minutes
abbrev pub default_ttl : ℕ
default_ttl = 5 * 60 * 1_000_000_000

pub record Entry : Type 0 where
  pub nonce : Bytes
  pub seen_at : ℕ
  pub committed : Bool

pub record ReplayCache : Type 0 where
  pub ttl : ℕ
  pub max_entries : ℕ
  pub cache : Recency Entry

abbrev pub nonce_of : Entry → Bytes
nonce_of e = e.nonce

-- `newReplayCache`
unfoldable pub new : ℤ → ℤ → ReplayCache
new max_entries ttl = record {
  ttl = positive_or ttl default_ttl;
  max_entries = positive_or max_entries default_max_entries;
  cache = fresh;
}

unfoldable pub remove_element : Recency.Element Entry → Recency Entry → Recency Entry
remove_element = Recency.remove_element nonce_of

unfoldable pub evict_if_over_capacity : ReplayCache → ReplayCache
evict_if_over_capacity c = record c { cache = evict_over nonce_of c.max_entries c.cache }

abbrev pub push_entry : Entry → ReplayCache → Recency Entry → ReplayCache
push_entry entry c cache =
    evict_if_over_capacity (record c { cache = push entry.nonce entry cache })

abbrev pub is_live : ℕ → ℕ → Entry → Bool
is_live ttl now e = ltb now (e.seen_at + ttl)

abbrev pub reserved : ℕ → Bytes → Entry
reserved now nonce = record { nonce = nonce; seen_at = now; committed = false }

unfoldable pub reserve : ℕ → Bytes → ReplayCache → ReplayCache × Bool
reserve now nonce c = elim (element nonce c.cache) [
  | some (el, entry) ↦
      if is_live c.ttl now entry
      then (record c { cache = record (c.cache) { order = move_to_front el c.cache.order } }, false)
      else (push_entry (reserved now nonce) c (remove_element (el, entry) c.cache), true)
  | none ↦ (push_entry (reserved now nonce) c c.cache, true)
]

abbrev pub spent : ℕ → Bytes → Entry
spent now nonce = record { nonce = nonce; seen_at = now; committed = true }

unfoldable pub commit : ℕ → Bytes → ReplayCache → ReplayCache
commit now nonce c = elim (element nonce c.cache) [
  | some (el, entry) ↦ record c {
    cache = record (c.cache) {
      order = move_to_front el (set_value el (record entry { committed = true }) c.cache.order);
    };
  }
  | none ↦ push_entry (spent now nonce) c c.cache
]

unfoldable pub release : Bytes → ReplayCache → ReplayCache
release nonce c = elim (element nonce c.cache) [
  | some (el, entry) ↦
      if entry.committed then c else record c { cache = remove_element (el, entry) c.cache }
  | none ↦ c
]

unfoldable pub len : ReplayCache → ℕ
len c = length c.cache.order
