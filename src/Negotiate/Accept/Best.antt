-- ===== src/Negotiate/Accept/Best.antt =====
-- The largest quality among the entries of an Accept header, and what asks for markdown.
use robotsyes.Base.{
  Bytes, Bool, true, false, not, ◌&&◌, ◌||◌, List, [], ◌∷◌, ◌≡◌, ◌⊎◌, inl, inr, refl, arith, equal,
  Bool-cases, if◌then◌else◌, All, all,
}
use robotsyes.Negotiate.Accept.{Quality, markdown_type, html_type, any_type, max_q}

abbrev pub any {ℓ} : {A : Type ℓ} → (A → Bool) → List A → Bool
any p [] = false
any p (x ∷ xs) = p x || any p xs

pub any_with {ℓ κ} :
    {A : Type ℓ} (P : A → Type κ) (p : A → Bool) (xs : List A)
    → All P xs
    → any p xs ≡ true
    → (x : A) × (p x ≡ true) × P x
any_with P p [] _ h = absurd (ground arith)
any_with P p (x ∷ xs) (px, rest) h = elim (Bool-cases (p x)) [
  | inl hit ↦ (x, hit, px)
  | inr miss ↦ any_with P p xs rest (ground arith)
]

pub any_of_all {ℓ} :
    {A : Type ℓ} (s p : A → Bool) (xs : List A)
    → all (λ x. not (s x) || not (p x)) xs ≡ true
    → any (λ x. s x && p x) xs ≡ false
any_of_all s p [] h = refl
any_of_all s p (x ∷ xs) h = let rest = any_of_all s p xs in ground arith

abbrev pub is_markdown : Bytes → Bool
is_markdown m = equal m markdown_type

abbrev pub is_html : Bytes → Bool
is_html m = equal m html_type || equal m any_type

module _ {Q : Type 0} (qs : Quality Q) where
  -- What the order on float64 gives, where `number` tells the values that are no NaN.
  pub record IsOrder (number : Q → Bool) : Type 0 where
    pub irreflexive : (a : Q) → qs.gt a a ≡ false
    pub transitive : (a b c : Q) → qs.gt a b ≡ true → qs.gt b c ≡ true → qs.gt a c ≡ true
    pub cotransitive :
        (a b c : Q) → number b ≡ true → qs.gt a c ≡ true → qs.gt a b ≡ false → qs.gt b c ≡ true
    pub gt_number : (a b : Q) → qs.gt a b ≡ true → number a ≡ true
    pub minus_one_number : number qs.minus_one ≡ true
    pub minus_one_below : qs.gt qs.minus_one qs.zero ≡ false
    pub le_zero : (a : Q) → number a ≡ true → qs.le a qs.zero ≡ not (qs.gt a qs.zero)
    pub ge_not_gt : (a b : Q) → number a ≡ true → number b ≡ true → qs.ge a b ≡ not (qs.gt b a)

  -- The header's entries ask for markdown: one of them is for markdown with a positive quality,
  -- and none that is for HTML or for anything has a larger one.
  abbrev pub asks_for_markdown : List (Bytes × Q) → Bool
  asks_for_markdown es =
      any
        (λ e.
          is_markdown e.0
          && (qs.gt e.1 qs.zero && all (λ h. not (is_html h.0) || not (qs.gt h.1 e.1)) es))
        es

  -- the largest of the qualities from `acc` on that `sel` picks
  unfoldable pub best : (Bytes → Bool) → Q → List (Bytes × Q) → Q
  best sel acc [] = acc
  best sel acc (e ∷ es) = best sel (if sel e.0 then max_q qs acc e.1 else acc) es

  pub best-any :
      (sel : Bytes → Bool) (p : Q → Bool) (acc : Q) (es : List (Bytes × Q))
      → p (best sel acc es) ≡ true
      → (p acc ≡ true) ⊎ (any (λ e. sel e.0 && p e.1) es ≡ true)
  unfolding best max_q
  best-any sel p acc [] h = inl h
  best-any sel p acc (e ∷ es) h =
      elim (best-any sel p (if sel e.0 then max_q qs acc e.1 else acc) es h) [
        | inr later ↦ inr (ground arith)
        | inl now ↦ elim (Bool-cases (sel e.0)) [
          | inr other ↦ inl (rw other at now)
          | inl picked ↦ elim (Bool-cases (qs.gt e.1 acc)) [
            | inl larger ↦ inr (ground arith)
            | inr smaller ↦ inl (ground arith)
          ]
        ]
      ]

  module _ (number : Q → Bool) (order : IsOrder number) (sel : Bytes → Bool) where
    max_q_keeps : (x acc q : Q) → qs.gt x acc ≡ false → qs.gt x (max_q qs acc q) ≡ false
    unfolding max_q
    max_q_keeps x acc q h = elim (Bool-cases (qs.gt q acc)) [
      | inr smaller ↦ ground arith
      | inl larger ↦ elim (Bool-cases (qs.gt x q)) [
        | inr fine ↦ ground arith
        | inl above ↦ absurd (ground (arith, order.transitive x q acc above larger))
      ]
    ]

    max_q_bounds : (acc q : Q) → qs.gt q (max_q qs acc q) ≡ false
    unfolding max_q
    max_q_bounds acc q = ground (arith, order.irreflexive q)

    best_keeps :
        (x acc : Q) (es : List (Bytes × Q))
        → qs.gt x acc ≡ false
        → qs.gt x (best sel acc es) ≡ false
    unfolding best
    best_keeps x acc [] h = h
    best_keeps x acc (e ∷ es) h = elim (Bool-cases (sel e.0)) [
      | inr other ↦ rw other (best_keeps x acc es h)
      | inl picked ↦ rw picked (best_keeps x (max_q qs acc e.1) es (max_q_keeps x acc e.1 h))
    ]

    pub best_bounds :
        (acc : Q) (es : List (Bytes × Q))
        → All (λ e. sel e.0 ≡ true → qs.gt e.1 (best sel acc es) ≡ false) es
    unfolding best
    best_bounds acc [] = tt
    best_bounds acc (e ∷ es) = (
      λ picked. rw picked (best_keeps e.1 (max_q qs acc e.1) es (max_q_bounds acc e.1)),
      best_bounds (if sel e.0 then max_q qs acc e.1 else acc) es,
    )

    pub best_number :
        (acc : Q) (es : List (Bytes × Q)) → number acc ≡ true → number (best sel acc es) ≡ true
    unfolding best max_q
    best_number acc [] h = h
    best_number acc (e ∷ es) h = elim (Bool-cases (sel e.0)) [
      | inr other ↦ rw other (best_number acc es h)
      | inl picked ↦ elim (Bool-cases (qs.gt e.1 acc)) [
        | inr smaller ↦ rw (picked, smaller) (best_number acc es h)
        | inl larger ↦ rw (picked, larger) (best_number e.1 es (order.gt_number e.1 acc larger))
      ]
    ]
