-- ===== src/Base/Lists.antt =====
-- Lists measured by native numbers, under the library's names.
use Prim.Native.Nat.{ℕ, zero, suc, ◌+◌, ◌≤◌}
use mathlib.Core.Path.{◌≡◌, refl, ap}
use mathlib.Core.Bool.{Bool, true, ◌&&◌}
use mathlib.Core.List.{List, [], ◌∷◌, ◌++◌}
use native.Mathlib.Omega.{arith}

module _ {ℓ} {A : Type ℓ} where
  abbrev pub length : List A → ℕ
  length [] = 0
  length (x ∷ xs) = suc (length xs)

  abbrev pub take : ℕ → List A → List A
  take zero ys = []
  take (suc m) [] = []
  take (suc m) (y ∷ ys) = y ∷ take m ys

  abbrev pub drop : ℕ → List A → List A
  drop zero xs = xs
  drop (suc n) [] = []
  drop (suc n) (x ∷ xs) = drop n xs

  pub length-append : (xs ys : List A) → length (xs ++ ys) ≡ length xs + length ys
  length-append [] ys = omega arith
  length-append (x ∷ xs) ys = omega (arith, length-append xs ys)

  pub length-take-le : (m : ℕ) (ys : List A) → length (take m ys) ≤ m
  length-take-le zero ys = omega arith
  length-take-le (suc m) [] = omega arith
  length-take-le (suc m) (y ∷ ys) = let shorter = length-take-le m ys in omega arith

  take-nil : (m : ℕ) → take m [] ≡ []
  take-nil zero = refl
  take-nil (suc m) = refl

  pub take_of_length-le : (m : ℕ) (ys : List A) → length ys ≤ m → take m ys ≡ ys
  take_of_length-le m [] short = take-nil m
  take_of_length-le zero (y ∷ ys) short = absurd (omega arith)
  take_of_length-le (suc m) (y ∷ ys) short =
      let rest = take_of_length-le m ys (omega arith) in rw rest refl

  pub length-take_of_le : (n : ℕ) (xs : List A) → n ≤ length xs → length (take n xs) ≡ n
  length-take_of_le zero xs h = refl
  length-take_of_le (suc n) [] h = absurd (omega arith)
  length-take_of_le (suc n) (x ∷ xs) h = ap suc (length-take_of_le n xs (omega arith))

  pub length-removed :
      (before after : List A) (a : A)
      → length (before ++ (a ∷ after)) ≡ suc (length (before ++ after))
  length-removed [] after a = refl
  length-removed (x ∷ before) after a = ap suc (length-removed before after a)

  -- the sum of a weight
  abbrev pub sum_by : (A → ℕ) → List A → ℕ
  sum_by w [] = 0
  sum_by w (x ∷ xs) = w x + sum_by w xs

  pub sum_by-middle :
      (w : A → ℕ) (before : List A) (x : A) (after : List A)
      → sum_by w (before ++ (x ∷ after)) ≡ sum_by w before + w x + sum_by w after
  sum_by-middle w [] x after = omega arith
  sum_by-middle w (y ∷ before) x after = omega (arith, sum_by-middle w before x after)

  pub sum_by-replaced :
      (w : A → ℕ) (before : List A) (x x' : A) (after xs : List A)
      → xs ≡ before ++ (x ∷ after)
      → sum_by w (before ++ (x' ∷ after)) + w x ≡ sum_by w xs + w x'
  sum_by-replaced w before x x' after xs is =
      let were = sum_by-middle w before x after in
      let now = sum_by-middle w before x' after in let total = ap (sum_by w) is in omega arith

  pub sum_by-le : (v w : A → ℕ) → ((x : A) → v x ≤ w x) → (xs : List A) → sum_by v xs ≤ sum_by w xs
  sum_by-le v w le [] = omega arith
  sum_by-le v w le (x ∷ xs) = omega (arith, le x, sum_by-le v w le xs)

  pub length-sum_by : (xs : List A) → sum_by (λ x. 1) xs ≡ length xs
  length-sum_by [] = refl
  length-sum_by (x ∷ xs) = omega (arith, length-sum_by xs)

  abbrev pub all : (A → Bool) → List A → Bool
  all p [] = true
  all p (x ∷ xs) = p x && all p xs

module _ {ℓ κ} {A : Type ℓ} (P : A → Type κ) where
  abbrev pub All : List A → Type κ
  All [] = Unit
  All (x ∷ xs) = P x × All xs

  pub All-append : (xs ys : List A) → All xs → All ys → All (xs ++ ys)
  All-append [] ys _ hy = hy
  All-append (x ∷ xs) ys (px, hx) hy = (px, All-append xs ys hx hy)

  pub All-remove :
      (before after : List A) (a : A) → All (before ++ (a ∷ after)) → All (before ++ after)
  All-remove [] after a (pa, ps) = ps
  All-remove (b ∷ before) after a (pb, ps) = (pb, All-remove before after a ps)

  pub All-middle : (before after : List A) (a : A) → All (before ++ (a ∷ after)) → P a
  All-middle [] after a (pa, _) = pa
  All-middle (b ∷ before) after a (_, ps) = All-middle before after a ps

  pub All-replace :
      (before after : List A) (a a' : A)
      → All (before ++ (a ∷ after))
      → P a'
      → All (before ++ (a' ∷ after))
  All-replace [] after a a' (_, ps) p = (p, ps)
  All-replace (b ∷ before) after a a' (pb, ps) p = (pb, All-replace before after a a' ps p)

  pub All-along : (xs ys : List A) → xs ≡ ys → All xs → All ys
  All-along xs ys is h = rw is at h

  pub All-take : (n : ℕ) (xs : List A) → All xs → All (take n xs)
  All-take (suc n) (x ∷ xs) (px, h) = (px, All-take n xs h)
  All-take zero xs h = tt
  All-take (suc n) [] h = tt

module _ {ℓ κ ν} {A : Type ℓ} (P : A → Type κ) (P' : A → Type ν) where
  pub All-weaken : ((x : A) → P x → P' x) → (xs : List A) → All P xs → All P' xs
  All-weaken weaker [] h = tt
  All-weaken weaker (x ∷ xs) (px, h) = (weaker x px, All-weaken weaker xs h)
