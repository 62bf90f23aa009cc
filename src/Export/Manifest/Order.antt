-- ===== src/Export/Manifest/Order.antt =====
-- internal/export/manifest.go: the manifest does not depend on the order of the pages.
use mathlib.Core.List.{
  Perm, Pairwise, Pairwise-cons, rel_of_Pairwise-cons, Pairwise-map, perm-cons, mem-cons,
}
use mathlib.Core.List.Perm
use mathlib.Core.List.Pairwise
use mathlib.Core.Logic.Or
use robotsyes.Base.{
  ℕ, Bytes, true, false, List, [], ◌∷◌, ◌≡◌, ◌≢◌, inl, inr, refl, sym, arith, map, Bool-cases,
}
use robotsyes.Base.Int.{ℤ}
use robotsyes.Export.Sitemap.{Page}
use robotsyes.Export.Manifest.{
  ManifestEntry, Hashing, less, path_less, entry, sorted_entries, build_manifest,
}

pub less_irrefl : (a : Bytes) → less a a ≡ false
unfolding less
less_irrefl [] = refl
less_irrefl (x ∷ a) = ground (arith, less_irrefl a)

pub less_asymm : (a b : Bytes) → less a b ≡ true → less b a ≡ false
unfolding less
less_asymm [] [] h = refl
less_asymm [] (y ∷ b) h = refl
less_asymm (x ∷ a) [] h = ground arith
less_asymm (x ∷ a) (y ∷ b) h = ground (arith, less_asymm a b)

pub less_trans : (a b c : Bytes) → less a b ≡ true → less b c ≡ true → less a c ≡ true
unfolding less
less_trans [] [] c h k = k
less_trans [] (y ∷ b) [] h k = k
less_trans [] (y ∷ b) (z ∷ c) h k = refl
less_trans (x ∷ a) [] c h k = ground arith
less_trans (x ∷ a) (y ∷ b) [] h k = k
less_trans (x ∷ a) (y ∷ b) (z ∷ c) h k = ground (arith, less_trans a b c)

pub less_total : (a b : Bytes) → less a b ≡ false → less b a ≡ false → a ≡ b
unfolding less
less_total [] [] h k = refl
less_total [] (y ∷ b) h k = absurd (ground arith)
less_total (x ∷ a) [] h k = absurd (ground arith)
less_total (x ∷ a) (y ∷ b) h k = ground (arith, less_total a b)

-- What sort.Slice does, as the package says: it permutes the entries so that they ascend.
pub record IsSort (h : Hashing) : Type 0 where
  pub permutes : (entries : List ManifestEntry) → Perm (h.sort_slice path_less entries) entries
  pub ascends :
      (entries : List ManifestEntry)
      → Pairwise (λ a b. path_less b a ≡ false) (h.sort_slice path_less entries)

abbrev Strict : List ManifestEntry → Type 0
Strict = Pairwise (λ a b. path_less a b ≡ true)

abbrev HasOwnPaths : List ManifestEntry → Type 0
HasOwnPaths = Pairwise (λ a b. a.path ≢ b.path)

apart_symm : (a b : Bytes) → a ≢ b → b ≢ a
apart_symm a b apart e = apart (sym e)

path_less_strict :
    (a b : ManifestEntry) → path_less b a ≡ false → a.path ≢ b.path → path_less a b ≡ true
unfolding path_less
path_less_strict a b h apart = elim (Bool-cases (less a.path b.path)) [
  | inl below ↦ below
  | inr level ↦ absurd (apart (less_total a.path b.path level h))
]

head_unique :
    (x y : ManifestEntry) (xs ys : List ManifestEntry)
    → Strict (x ∷ xs)
    → Strict (y ∷ ys)
    → Perm (x ∷ xs) (y ∷ ys)
    → x ≡ y
unfolding path_less
head_unique x y xs ys hx hy p =
    let set : IsProp (x ≡ y) = hlevel in
    Or.elim set (mem-cons.0 ((Perm.mem_iff p).0 (mem-cons.1 (Or.inl refl)))) (λ e. e)
      (λ x_later.
        Or.elim set (mem-cons.0 ((Perm.mem_iff p).1 (mem-cons.1 (Or.inl refl)))) (λ e. sym e)
          (λ y_later.
            let below = rel_of_Pairwise-cons hy x_later in
            let above = rel_of_Pairwise-cons hx y_later in
            absurd (ground (arith, less_asymm x.path y.path))))

Strict-unique : (xs ys : List ManifestEntry) → Strict xs → Strict ys → Perm xs ys → xs ≡ ys
Strict-unique [] ys hx hy p = Perm.nil-eq p
Strict-unique (x ∷ xs) [] hx hy p = Perm.eq-nil p
Strict-unique (x ∷ xs) (y ∷ ys) hx hy p =
    let same = head_unique x y xs ys hx hy p in
    let rest =
      Strict-unique xs ys (Pairwise-cons.0 hx).1 (Pairwise-cons.0 hy).1
        ((perm-cons y).0 (rw same at p)) in
    rw (same, rest) refl

module _ (h : Hashing) (sort : IsSort h) where
  sorted_entries-Strict :
      (pages : List Page)
      → Pairwise (λ a b. a.path ≢ b.path) pages
      → Strict (sorted_entries h pages)
  unfolding sorted_entries entry
  sorted_entries-Strict pages apart =
      let entries = map (entry h) pages in
      let own : HasOwnPaths entries =
        (Pairwise-map {R = λ (a : ManifestEntry) (b : ManifestEntry). a.path ≢ b.path} (hlevel)
            (entry h)).1
          apart in
      let kept : HasOwnPaths (sorted_entries h pages) =
        Perm.pairwise {R = λ (a : ManifestEntry) (b : ManifestEntry). a.path ≢ b.path} (hlevel)
          (λ (a : ManifestEntry) (b : ManifestEntry). apart_symm a.path b.path)
          (Perm.symm (sort.permutes entries)) own in
      Pairwise.imp₂ path_less_strict (sort.ascends entries) kept

  -- For a sort that permutes and orders as sort.Slice does, the entries, the hash and the count of
  -- a manifest do not depend on the order of the pages, nor on the time and the time to live, if no
  -- two pages have the same path.
  pub build_manifest-perm :
      (pages pages' : List Page) (t t' : ℕ) (ttl ttl' : ℤ)
      → Pairwise (λ a b. a.path ≢ b.path) pages
      → Perm pages pages'
      → ((build_manifest h pages t ttl).pages ≡ (build_manifest h pages' t' ttl').pages)
        × ((build_manifest h pages t ttl).bundle_hash
            ≡ (build_manifest h pages' t' ttl').bundle_hash)
        × ((build_manifest h pages t ttl).count ≡ (build_manifest h pages' t' ttl').count)
  unfolding build_manifest sorted_entries
  build_manifest-perm pages pages' t t' ttl ttl' apart p =
      let distinct' : Pairwise (λ a b. a.path ≢ b.path) pages' =
        Perm.pairwise {R = λ (a : Page) (b : Page). a.path ≢ b.path} (hlevel)
          (λ (a : Page) (b : Page). apart_symm a.path b.path) p apart in
      let entries = Perm.map (entry h) p in
      let whole =
        Perm.trans (sort.permutes (map (entry h) pages))
          (Perm.trans entries (Perm.symm (sort.permutes (map (entry h) pages')))) in
      let same : sorted_entries h pages ≡ sorted_entries h pages' =
        Strict-unique (sorted_entries h pages) (sorted_entries h pages')
          (sorted_entries-Strict pages apart) (sorted_entries-Strict pages' distinct') whole in
      rw same (refl, refl, refl)
