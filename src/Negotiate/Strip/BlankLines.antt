-- ===== src/Negotiate/Strip/BlankLines.antt =====
-- What the stripped view keeps of the lines of a page.
use robotsyes.Base.{
  ℕ, ◌+◌, Bytes, Bool, true, false, not, ◌&&◌, List, [], ◌∷◌, ◌≡◌, refl, arith, ltb, if◌then◌else◌,
  map,
}
use robotsyes.Negotiate.Strip.{trim_line, is_blank_line, keep_lines}

-- No blank line follows another, nor comes first if a blank line went before.
abbrev pub single_spaced : Bool → List Bytes → Bool
single_spaced blank_before [] = true
single_spaced blank_before (l ∷ ls) =
    let after_blank = single_spaced true ls in
    let after_text = single_spaced false ls in
    if is_blank_line l then not blank_before && after_blank else after_text

-- The lines that are not blank, without the blanks at their ends.
abbrev pub texts : List Bytes → List Bytes
texts [] = []
texts (l ∷ ls) = let rest = texts ls in if is_blank_line l then rest else l ∷ rest

keep_lines_spaced :
    (blank : ℕ) (ls : List Bytes) → single_spaced (ltb 0 blank) (keep_lines blank ls) ≡ true
unfolding keep_lines
keep_lines_spaced blank [] = refl
keep_lines_spaced blank (l ∷ ls) =
    let after_blank = keep_lines_spaced (blank + 1) ls in
    let after_text = keep_lines_spaced 0 ls in ground arith

texts-keep_lines :
    (blank : ℕ) (ls : List Bytes) → texts (keep_lines blank ls) ≡ texts (map trim_line ls)
unfolding keep_lines
texts-keep_lines blank [] = refl
texts-keep_lines blank (l ∷ ls) =
    let after_blank = texts-keep_lines (blank + 1) ls in
    let after_text = texts-keep_lines 0 ls in ground arith

-- Of the lines of a page, the stripped view keeps those that are not blank, in their order and
-- without the blanks at their ends, and at most one blank line between two of them.
pub keep_lines_lem :
    (ls : List Bytes)
    → (single_spaced false (keep_lines 0 ls) ≡ true)
      × (texts (keep_lines 0 ls) ≡ texts (map trim_line ls))
keep_lines_lem ls = (keep_lines_spaced 0 ls, texts-keep_lines 0 ls)
