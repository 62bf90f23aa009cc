-- ===== src/Negotiate/Accept/Preference.antt =====
-- What it takes for an Accept header to ask for markdown.
use robotsyes.Base.{
  Bytes, Bool, true, false, not, ◌&&◌, ◌||◌, List, [], ◌∷◌, ◌≡◌, inl, inr, refl, sym, ap, ◌∙◌,
  arith, equal, equal_iff, split, Bool-cases, if◌then◌else◌, All, all, map,
}
use robotsyes.Negotiate.Accept.{
  Quality, AcceptQualities, markdown_type, html_type, any_type, max_q, observe, observe_all,
  nothing_seen, prefers_markdown, parse_accept_entry, wants_markdown,
}
use robotsyes.Negotiate.Accept.Best.{
  any_with, any_of_all, is_markdown, is_html, IsOrder, asks_for_markdown, best, best-any,
  best_bounds, best_number,
}

module _ {Q : Type 0} (qs : Quality Q) where
  module _ (number : Q → Bool) (order : IsOrder qs number) (es : List (Bytes × Q)) where
    abbrev totals : AcceptQualities Q
    totals = record {
      markdown = best qs is_markdown qs.minus_one es;
      html = best qs is_html qs.minus_one es;
    }

    totals_numbers : (number totals.markdown ≡ true) × (number totals.html ≡ true)
    totals_numbers = (
      best_number qs number order is_markdown qs.minus_one es order.minus_one_number,
      best_number qs number order is_html qs.minus_one es order.minus_one_number,
    )

    -- the test on the totals, by the strict order
    prefers_markdown_lem :
        prefers_markdown qs totals
        ≡ (qs.gt totals.markdown qs.zero && not (qs.gt totals.html totals.markdown))
    unfolding prefers_markdown
    prefers_markdown_lem =
        let (m, h) = totals_numbers in
        ground
          (arith, order.le_zero totals.markdown m, order.ge_not_gt totals.markdown totals.html m h)

    no_larger_html :
        (x : Q)
        → qs.gt totals.html x ≡ false
        → (hs : List (Bytes × Q)) → All (λ e. is_html e.0 ≡ true → qs.gt e.1 totals.html ≡ false) hs
        → all (λ h. not (is_html h.0) || not (qs.gt h.1 x)) hs ≡ true
    no_larger_html x low [] bounds = refl
    no_larger_html x low (h ∷ hs) (first, bounds) =
        let rest = no_larger_html x low hs bounds in
        elim (Bool-cases (is_html h.0)) [
          | inr other ↦ rw (other, rest) refl
          | inl picked ↦ elim (Bool-cases (qs.gt h.1 x)) [
            | inr fine ↦ rw (picked, fine, rest) refl
            | inl above ↦ absurd (
                ground (
                  arith,
                  order.cotransitive h.1 totals.html x totals_numbers.1 above (first picked),
                ))
          ]
        ]

    asks_of_prefers :
        qs.gt totals.markdown qs.zero ≡ true
        → qs.gt totals.html totals.markdown ≡ false
        → asks_for_markdown qs es ≡ true
    asks_of_prefers positive highest =
        let good : Q → Bool =
          λ x. qs.gt x qs.zero && all (λ h. not (is_html h.0) || not (qs.gt h.1 x)) es in
        let none_larger =
          no_larger_html totals.markdown highest es
            (best_bounds qs number order is_html qs.minus_one es) in
        elim (best-any qs is_markdown good qs.minus_one es (rw (positive, none_larger) refl)) [
          | inr asked ↦ asked
          | inl low ↦ absurd (ground (arith, order.minus_one_below))
        ]

    html_below :
        (x : Q)
        → qs.gt x qs.zero ≡ true
        → all (λ h. not (is_html h.0) || not (qs.gt h.1 x)) es ≡ true
        → qs.gt totals.html x ≡ false
    html_below x positive low = elim (Bool-cases (qs.gt totals.html x)) [
      | inr fine ↦ fine
      | inl above ↦ elim (best-any qs is_html (λ q. qs.gt q x) qs.minus_one es above) [
        | inl least ↦ absurd (
            ground (
              arith,
              order.transitive qs.minus_one x qs.zero least positive,
              order.minus_one_below,
            ))
        | inr some_above ↦
            absurd (ground (arith, any_of_all (λ h. is_html h.0) (λ h. qs.gt h.1 x) es low))
      ]
    ]

    prefers_of_asks :
        asks_for_markdown qs es ≡ true
        → (qs.gt totals.markdown qs.zero && not (qs.gt totals.html totals.markdown)) ≡ true
    prefers_of_asks asked =
        let (e, wanted, bound) =
          any_with (λ e. is_markdown e.0 ≡ true → qs.gt e.1 totals.markdown ≡ false) _ es
            (best_bounds qs number order is_markdown qs.minus_one es) asked in
        let marked : is_markdown e.0 ≡ true = ground arith in
        let positive : qs.gt e.1 qs.zero ≡ true = ground arith in
        let low : all (λ h. not (is_html h.0) || not (qs.gt h.1 e.1)) es ≡ true = ground arith in
        let (m, h) = totals_numbers in
        let up = order.cotransitive e.1 totals.markdown qs.zero m positive (bound marked) in
        elim (Bool-cases (qs.gt totals.html totals.markdown)) [
          | inr highest ↦ rw (up, highest) refl
          | inl above ↦ absurd (
              ground (
                arith,
                html_below e.1 positive low,
                bound marked,
                order.cotransitive totals.html e.1 totals.markdown
                    (order.gt_number e.1 qs.zero positive) above (html_below e.1 positive low),
              ))
        ]

    prefers_iff_asks : prefers_markdown qs totals ≡ asks_for_markdown qs es
    prefers_iff_asks = elim (Bool-cases (asks_for_markdown qs es)) [
      | inl asked ↦ prefers_markdown_lem ∙ prefers_of_asks asked ∙ sym asked
      | inr refused ↦
          elim (Bool-cases
            (qs.gt totals.markdown qs.zero && not (qs.gt totals.html totals.markdown))) [
              | inr not_preferred ↦ prefers_markdown_lem ∙ not_preferred ∙ sym refused
              | inl preferred ↦
                  absurd (ground (arith, asks_of_prefers (ground arith) (ground arith)))
            ]
    ]

  entries : List Bytes → List (Bytes × Q)
  entries parts = map (parse_accept_entry qs) parts

  not_html : (m : Bytes) → is_markdown m ≡ true → is_html m ≡ false
  unfolding equal
  not_html m h = rw ((equal_iff m markdown_type).0 h) refl

  observe_fields :
      (a : AcceptQualities Q) (e : Bytes × Q)
      → observe qs a e ≡ record {
        markdown = if is_markdown e.0 then max_q qs a.markdown e.1 else a.markdown;
        html = if is_html e.0 then max_q qs a.html e.1 else a.html;
      }
  unfolding observe
  observe_fields a e = elim (Bool-cases (equal e.0 markdown_type)) [
    | inl marked ↦ let other = not_html e.0 marked in rw (marked, other, observe) refl
    | inr unmarked ↦ elim (Bool-cases (equal e.0 html_type)) [
      | inl page ↦ rw (unmarked, page, observe) refl
      | inr no_page ↦ elim (Bool-cases (equal e.0 any_type)) [
        | inl anything ↦ rw (unmarked, no_page, anything, observe) refl
        | inr nothing ↦ rw (unmarked, no_page, nothing, observe) refl
      ]
    ]
  ]

  observe_all_totals :
      (a : AcceptQualities Q) (parts : List Bytes)
      → observe_all qs a parts ≡ record {
        markdown = best qs is_markdown a.markdown (entries parts);
        html = best qs is_html a.html (entries parts);
      }
  unfolding observe_all observe best entries
  observe_all_totals a [] = refl
  observe_all_totals a (p ∷ parts) =
      observe_all_totals (observe qs a (parse_accept_entry qs p)) parts
      ∙ ap
          (λ b. record {
            markdown = best qs is_markdown b.markdown (entries parts);
            html = best qs is_html b.html (entries parts);
          })
          (observe_fields a (parse_accept_entry qs p))

  -- Over qualities that are ordered as float64 is, a header asks for markdown exactly if it is not
  -- empty and one of its entries is for markdown with a positive quality that no entry for HTML or
  -- for anything exceeds.
  pub wants_markdown_lem :
      (number : Q → Bool) (accept : Bytes)
      → IsOrder qs number
      → wants_markdown qs accept ≡ (
          if equal accept []
          then false
          else asks_for_markdown qs (map (parse_accept_entry qs) (split b',' accept)))
  unfolding wants_markdown entries
  wants_markdown_lem number accept order = elim (Bool-cases (equal accept [])) [
    | inl empty ↦ ground arith
    | inr shown ↦
        rw (shown, wants_markdown)
          (ap (prefers_markdown qs) (observe_all_totals (nothing_seen qs) (split b',' accept))
            ∙ prefers_iff_asks number order (entries (split b',' accept)))
  ]
