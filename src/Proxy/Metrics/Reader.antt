-- ===== src/Proxy/Metrics/Reader.antt =====
-- internal/proxy/metrics.go: the lines of the page of the metrics, as they are read.
use robotsyes.Base.{
  ℕ, suc, Bytes, Bool, true, false, not, ◌&&◌, Option, none, some, List, [], ◌∷◌, ◌++◌, ◌≡◌, inl,
  inr, refl, ◌∙◌, ap, arith, codes, All, all, split, cut, has_prefix, cut_prefix, ltb, ◌==◌,
  if◌then◌else◌, Bool-cases,
}
use robotsyes.Base.OneLine.{in_line, IsOneLine-append}
use robotsyes.Base.Int.{ℤ, pos, negsuc, IsInt64, signed64, two_63}
use robotsyes.Base.Decimal.{decimal, decimal_ℤ, IsDigit, decimal-IsDigit}
use robotsyes.Identity.SignatureInput.{parse_int}
use robotsyes.Proxy.Metrics.Numbers.{parse_int-decimal}
use robotsyes.Metrics.{Counter, value}
use robotsyes.Proxy.Metrics.Page.{newline, Line, text, sample, print, print_lines}

-- A reader of the page: the name and the number of every line that is not a comment.
unfoldable pub read_line : Bytes → Option (Bytes × ℤ)
read_line s = if has_prefix (codes "#") s then none else elim (cut b' ' s) [
  | none ↦ none
  | some (name, t) ↦ elim (parse_int t) [ none ↦ none | some n ↦ some (name, n) ]
]

unfoldable pub read_lines : List Bytes → List (Bytes × ℤ)
read_lines [] = []
read_lines (s ∷ ss) =
    let rest = read_lines ss in elim (read_line s) [ none ↦ rest | some entry ↦ entry ∷ rest ]

unfoldable pub scrape : Bytes → List (Bytes × ℤ)
scrape page = read_lines (split newline page)

abbrev in_name : ℕ → Bool
in_name c = not (c == newline) && not (c == b' ')

-- A comment, or a name that can be told from its number.
abbrev pub IsReadable : Line → Type 0
IsReadable (text s) = (has_prefix (codes "#") s && all in_line s) ≡ true
IsReadable (sample name n) =
    ((not (has_prefix (codes "#") (name ++ (b' ' ∷ []))) && all in_name name) ≡ true) × IsInt64 n

-- The samples among the lines of a page.
unfoldable pub samples : List Line → List (Bytes × ℤ)
samples [] = []
samples (text s ∷ ls) = samples ls
samples (sample name n ∷ ls) = (name, n) ∷ samples ls

split-line :
    (s t : Bytes) → all in_line s ≡ true → split newline (s ++ (newline ∷ t)) ≡ s ∷ split newline t
unfolding split
split-line [] t h = refl
split-line (c ∷ s) t h =
    let rest = split-line s t (ground arith) in
    let off : (c == newline) ≡ false = ground arith in rw (off, rest) refl

cut-name :
    (name t : Bytes) → all in_name name ≡ true → cut b' ' (name ++ (b' ' ∷ t)) ≡ some (name, t)
unfolding cut
cut-name [] t h = refl
cut-name (c ∷ name) t h =
    let rest = cut-name name t (ground arith) in
    let off : (c == b' ') ≡ false = ground arith in rw (off, rest) refl

name_in_line : (name : Bytes) → all in_name name ≡ true → all in_line name ≡ true
name_in_line [] h = refl
name_in_line (c ∷ name) h = let rest = name_in_line name (ground arith) in ground (arith, rest)

digits_in_line : (s : Bytes) → All IsDigit s → all in_line s ≡ true
digits_in_line [] h = refl
digits_in_line (c ∷ s) ((low, high), h) = let rest = digits_in_line s h in ground (arith, rest)

decimal_in_line : (z : ℤ) → all in_line (decimal_ℤ z) ≡ true
unfolding decimal_ℤ
decimal_in_line (pos n) = digits_in_line (decimal n) (decimal-IsDigit n)
decimal_in_line (negsuc n) = digits_in_line (decimal (suc n)) (decimal-IsDigit (suc n))

-- Whether a line is a comment does not depend on the number in it.
has_prefix-name :
    (name t : Bytes)
    → has_prefix (codes "#") (name ++ (b' ' ∷ t)) ≡ has_prefix (codes "#") (name ++ (b' ' ∷ []))
unfolding has_prefix cut_prefix
has_prefix-name [] t = refl
has_prefix-name (c ∷ name) t = ground arith

print-in_line : (l : Line) → IsReadable l → all in_line (print l) ≡ true
unfolding print
print-in_line (text s) h = ground arith
print-in_line (sample name n) (h, _) =
    IsOneLine-append name (b' ' ∷ decimal_ℤ n) (name_in_line name (ground arith))
      (ground (arith, decimal_in_line n))

read_line-sample :
    (name : Bytes) (n : ℤ)
    → IsReadable (sample name n)
    → read_line (print (sample name n)) ≡ some (name, n)
unfolding read_line print
read_line-sample name n (h, small) =
    let no_comment : has_prefix (codes "#") (name ++ (b' ' ∷ decimal_ℤ n)) ≡ false =
      has_prefix-name name (decimal_ℤ n) ∙ ground arith in
    rw (no_comment, cut-name name (decimal_ℤ n) (ground arith), parse_int-decimal n small) refl

read_line-text : (s : Bytes) → IsReadable (text s) → read_line (print (text s)) ≡ none
unfolding read_line print
read_line-text s h = ground arith

read_lines-skipped :
    (s : Bytes) (ss : List Bytes) → read_line s ≡ none → read_lines (s ∷ ss) ≡ read_lines ss
unfolding read_lines
read_lines-skipped s ss h = rw (h, read_lines) refl

read_lines-kept :
    (s : Bytes) (ss : List Bytes) (e : Bytes × ℤ)
    → read_line s ≡ some e
    → read_lines (s ∷ ss) ≡ e ∷ read_lines ss
unfolding read_lines
read_lines-kept s ss e h = rw (h, read_lines) refl

nothing_left : read_lines (split newline []) ≡ []
unfolding read_lines split read_line has_prefix cut_prefix cut
nothing_left = refl

pub read_lines-print :
    (ls : List Line) → All IsReadable ls → read_lines (split newline (print_lines ls)) ≡ samples ls
unfolding print_lines samples
read_lines-print [] h = nothing_left
read_lines-print (text s ∷ ls) (ok, h) =
    ap read_lines (split-line (print (text s)) (print_lines ls) (print-in_line (text s) ok))
    ∙ (read_lines-skipped (print (text s)) (split newline (print_lines ls)) (read_line-text s ok)
        ∙ read_lines-print ls h)
read_lines-print (sample name n ∷ ls) (ok, h) =
    ap read_lines
      (split-line (print (sample name n)) (print_lines ls) (print-in_line (sample name n) ok))
    ∙ (read_lines-kept (print (sample name n)) (split newline (print_lines ls)) (name, n)
          (read_line-sample name n ok)
        ∙ ap (λ x. (name, n) ∷ x) (read_lines-print ls h))

pub value-IsInt64 : (c : Counter) → IsInt64 (value c)
unfolding value signed64
value-IsInt64 c = elim (Bool-cases (ltb c.bits two_63)) [
  | inl low ↦ rw low (ground arith, ground arith)
  | inr high ↦ rw high (ground arith, ground arith)
]
