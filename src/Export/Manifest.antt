-- ===== src/Export/Manifest.antt =====
-- internal/export/manifest.go: the listing of a bundle. The hexadecimal digits of crypto/sha256's
-- sum and sort.Slice are the record `Hashing`.
pub mod Order
use robotsyes.Base.{
  ℕ, zero, suc, ◌/◌, Bytes, Bool, true, false, ◌&&◌, ◌||◌, List, [], ◌∷◌, ◌++◌, codes, length, map,
  ltb, ◌==◌,
}
use robotsyes.Base.Int.{ℤ, pos, negsuc}
use robotsyes.Export.Sitemap.{Page}

pub record ManifestEntry : Type 0 where
  pub path : Bytes
  pub hash : Bytes
  pub bytes : ℕ

pub record Manifest : Type 0 where
  pub generated_at : ℕ
  pub ttl_seconds : ℤ
  pub count : ℕ
  pub bundle_hash : Bytes
  pub pages : List ManifestEntry

pub record Hashing : Type 0 where
  pub sha256_hex : Bytes → Bytes
  pub sort_slice : (ManifestEntry → ManifestEntry → Bool) → List ManifestEntry → List ManifestEntry

-- `a < b` on strings
unfoldable pub less : Bytes → Bytes → Bool
less [] [] = false
less [] (y ∷ b) = true
less (x ∷ a) [] = false
less (x ∷ a) (y ∷ b) = let rest = less a b in ltb x y || (x == y && rest)

unfoldable pub path_less : ManifestEntry → ManifestEntry → Bool
path_less a b = less a.path b.path

abbrev second : ℕ
second = 1000000000

-- `int(ttl / time.Second)`, which drops the fraction on either side of 0
unfoldable pub seconds : ℤ → ℤ
seconds (pos n) = pos (n / second)
seconds (negsuc n) = elim (suc n / second) [ zero ↦ pos 0 | suc k ↦ negsuc k ]

-- what the hash of the bundle is computed over
unfoldable pub hashed : List ManifestEntry → Bytes
hashed [] = []
hashed (e ∷ entries) = e.path ++ e.hash ++ hashed entries

-- the zero value
abbrev pub no_manifest : Manifest
no_manifest = record {
  generated_at = 0;
  ttl_seconds = pos 0;
  count = 0;
  bundle_hash = [];
  pages = [];
}

module _ (h : Hashing) where
  unfoldable pub entry : Page → ManifestEntry
  entry p = record {
    path = p.path;
    hash = codes "sha256:" ++ h.sha256_hex p.markdown;
    bytes = length p.markdown;
  }

  unfoldable pub sorted_entries : List Page → List ManifestEntry
  sorted_entries pages = h.sort_slice path_less (map entry pages)

  unfoldable pub build_manifest : List Page → ℕ → ℤ → Manifest
  build_manifest pages built_at ttl =
      let entries = sorted_entries pages in
      record {
        generated_at = built_at;
        ttl_seconds = seconds ttl;
        count = length entries;
        bundle_hash = codes "sha256:" ++ h.sha256_hex (hashed entries);
        pages = entries;
      }
