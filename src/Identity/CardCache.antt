-- ===== src/Identity/CardCache.antt =====
-- internal/identity/cardcache.go: the cache of fetched cards. Each call reads the clock, which is
-- the argument `now`, in nanoseconds of the monotonic clock.
pub mod Laws
pub mod Runs
use robotsyes.Base.{ℕ, ◌+◌, Bytes, Bool, Option, none, some, length, leb, if◌then◌else◌}
use robotsyes.Base.Int.{ℤ, positive_or}
use robotsyes.Recency
use robotsyes.Recency.{Recency, fresh, element, move_to_front, set_value, push, evict_over}
use robotsyes.Identity.Card.{Card}

abbrev pub default_max_entries : ℕ
default_max_entries = 10000

pub record Entry : Type 0 where
  pub key : Bytes
  pub card : Card
  pub fetched : ℕ

pub record CardCache : Type 0 where
  pub ttl : ℕ
  pub max_entries : ℕ
  pub cache : Recency Entry

abbrev pub key_of : Entry → Bytes
key_of e = e.key

-- `newCardCache`
unfoldable pub new : ℤ → ℕ → CardCache
new max_entries ttl = record {
  ttl = ttl;
  max_entries = positive_or max_entries default_max_entries;
  cache = fresh;
}

unfoldable pub remove_element : Recency.Element Entry → Recency Entry → Recency Entry
remove_element = Recency.remove_element key_of

-- `time.Since(entry.fetched) >= c.ttl`, on a clock that does not run backwards
abbrev pub is_stale : ℕ → CardCache → Entry → Bool
is_stale now c e = leb (e.fetched + c.ttl) now

unfoldable pub get : ℕ → Bytes → CardCache → CardCache × Option Card
get now key c = elim (element key c.cache) [
  | none ↦ (c, none)
  | some (el, entry) ↦
      if is_stale now c entry
      then (record c { cache = remove_element (el, entry) c.cache }, none)
      else (
        record c { cache = record (c.cache) { order = move_to_front el c.cache.order } },
        some entry.card,
      )
]

unfoldable pub put : ℕ → Bytes → Card → CardCache → CardCache
put now key card c = elim (element key c.cache) [
  | some (el, entry) ↦
      let entry' = record entry { card = card; fetched = now } in
      record c {
        cache = record (c.cache) { order = move_to_front el (set_value el entry' c.cache.order) };
      }
  | none ↦
      let entry : Entry = record { key = key; card = card; fetched = now } in
      record c { cache = evict_over key_of c.max_entries (push key entry c.cache) }
]

unfoldable pub len : CardCache → ℕ
len c = length c.cache.order
