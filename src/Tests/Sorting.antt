-- ===== src/Tests/Sorting.antt =====
-- A sort that does what sort.Slice promises, and the manifest of pages in two orders.
use mathlib.Core.List.{Perm, Pairwise, Pairwise-cons, mem-cons, not-mem-nil}
use mathlib.Core.List.Perm
use mathlib.Core.Logic.Or
use robotsyes.Base.{
  Bytes, Bool, false, List, [], ◌∷◌, ◌++◌, append_assoc, ap, ◌∙◌, ◌≡◌, ◌≢◌, inl, inr, sym, arith,
  codes, equal, equal_iff, Bool-cases, if◌then◌else◌,
}
use robotsyes.Base.Int.{pos}
use robotsyes.Export.Sitemap.{Page}
use robotsyes.Export.Manifest.{ManifestEntry, Hashing, less, path_less, hashed, build_manifest}
use robotsyes.Export.Manifest.Order.{
  IsSort, less_asymm, less_trans, less_total, build_manifest-perm,
}

abbrev insert :
    (ManifestEntry → ManifestEntry → Bool) → ManifestEntry → List ManifestEntry → List ManifestEntry
insert lt x [] = x ∷ []
insert lt x (y ∷ ys) = let rest = insert lt x ys in if lt y x then y ∷ rest else x ∷ y ∷ ys

abbrev sort : (ManifestEntry → ManifestEntry → Bool) → List ManifestEntry → List ManifestEntry
sort lt [] = []
sort lt (x ∷ xs) = insert lt x (sort lt xs)

insert-perm :
    (lt : ManifestEntry → ManifestEntry → Bool) (x : ManifestEntry) (ys : List ManifestEntry)
    → Perm (insert lt x ys) (x ∷ ys)
insert-perm lt x [] = Perm.refl (x ∷ [])
insert-perm lt x (y ∷ ys) = elim (Bool-cases (lt y x)) [
  | inr first ↦ rw first (Perm.refl (x ∷ y ∷ ys))
  | inl later ↦ rw later (Perm.trans (Perm.cons y (insert-perm lt x ys)) (Perm.swap x y ys))
]

sort-perm :
    (lt : ManifestEntry → ManifestEntry → Bool) (xs : List ManifestEntry) → Perm (sort lt xs) xs
sort-perm lt [] = Perm.refl []
sort-perm lt (x ∷ xs) = Perm.trans (insert-perm lt x (sort lt xs)) (Perm.cons x (sort-perm lt xs))

abbrev Ascends : List ManifestEntry → Type 0
Ascends = Pairwise (λ a b. path_less b a ≡ false)

-- What comes after the one that comes after is not before.
not_less_trans : (a b c : Bytes) → less b a ≡ false → less c b ≡ false → less c a ≡ false
not_less_trans a b c h k = elim (Bool-cases (less c a)) [
  | inr ok ↦ ok
  | inl bad ↦ elim (Bool-cases (less a b)) [
    | inl before ↦ absurd (ground (arith, less_trans c a b))
    | inr level ↦
        let same : a ≡ b = less_total a b level h in absurd (ground (arith, rw (sym same) at k))
  ]
]

insert-Ascends :
    (x : ManifestEntry) (ys : List ManifestEntry) → Ascends ys → Ascends (insert path_less x ys)
unfolding path_less
insert-Ascends x [] h = Pairwise-cons.1 (λ b m. absurd (not-mem-nil m), h)
insert-Ascends x (y ∷ ys) h = elim (Bool-cases (path_less y x)) [
  | inl later ↦ rw later (
      Pairwise-cons.1 (
        λ b m.
            let set : IsProp (path_less b y ≡ false) = hlevel in
            Or.elim set (mem-cons.0 ((Perm.mem_iff (insert-perm path_less x ys)).0 m))
              (λ e. rw e (less_asymm y.path x.path later)) (λ m'. (Pairwise-cons.0 h).0 b m'),
        insert-Ascends x ys (Pairwise-cons.0 h).1,
      ))
  | inr first ↦ rw first (
      Pairwise-cons.1 (
        λ b m.
            let set : IsProp (path_less b x ≡ false) = hlevel in
            Or.elim set (mem-cons.0 m) (λ e. rw e first)
              (λ m'. not_less_trans x.path y.path b.path first ((Pairwise-cons.0 h).0 b m')),
        h,
      ))
]

sort-Ascends : (xs : List ManifestEntry) → Ascends (sort path_less xs)
sort-Ascends [] = Pairwise.nil
sort-Ascends (x ∷ xs) = insert-Ascends x (sort path_less xs) (sort-Ascends xs)

abbrev hashing : Hashing
hashing = record { sha256_hex = λ s. s; sort_slice = sort }

hashing-IsSort : IsSort hashing
hashing-IsSort = record { permutes = sort-perm path_less; ascends = sort-Ascends }

abbrev a : Page
a = record { path = codes "/a"; markdown = codes "x" }

abbrev b : Page
b = record { path = codes "/b"; markdown = codes "y" }

a_not_b : a.path ≢ b.path
unfolding equal
a_not_b h = absurd (ground (arith, (equal_iff a.path b.path).1 h))

own_paths : Pairwise (λ p q. p.path ≢ q.path) (a ∷ b ∷ [])
own_paths = Pairwise-cons.1 (
  λ p m.
      let set : IsProp (a.path ≢ p.path) = hlevel in
      Or.elim set (mem-cons.0 m) (λ e. rw e a_not_b) (λ m'. absurd (not-mem-nil m')),
  Pairwise-cons.1 (λ p m. absurd (not-mem-nil m), Pairwise.nil),
)

build_manifest-perm_example :
    ((build_manifest hashing (a ∷ b ∷ []) 1 (pos 5)).pages
      ≡ (build_manifest hashing (b ∷ a ∷ []) 2 (pos 6)).pages)
    × ((build_manifest hashing (a ∷ b ∷ []) 1 (pos 5)).bundle_hash
        ≡ (build_manifest hashing (b ∷ a ∷ []) 2 (pos 6)).bundle_hash)
    × ((build_manifest hashing (a ∷ b ∷ []) 1 (pos 5)).count
        ≡ (build_manifest hashing (b ∷ a ∷ []) 2 (pos 6)).count)
build_manifest-perm_example =
    build_manifest-perm hashing hashing-IsSort (a ∷ b ∷ []) (b ∷ a ∷ []) 1 2 (pos 5) (pos 6)
      own_paths (Perm.swap b a [])

regroup : (s t u v : Bytes) → s ++ ((t ++ u) ++ v) ≡ ((s ++ t) ++ u) ++ v
regroup s t u v = sym (ap (λ x. x ++ v) (append_assoc s t u) ∙ append_assoc s (t ++ u) v)

-- Two entries are hashed as one entry whose path is the first one's path, its hash and the second
-- one's path.
hashed-merged :
    (e f : ManifestEntry)
    → hashed (e ∷ f ∷ []) ≡ hashed (record f { path = e.path ++ e.hash ++ f.path } ∷ [])
unfolding hashed
hashed-merged e f = regroup (e.path ++ e.hash) f.path f.hash []
