-- ===== src/Negotiate/Strip.antt =====
-- internal/negotiate/negotiate.go: the stripped view of a page. `html.Parse` is the argument
-- `parse_html`; a tree has the nodes that the converter tells apart, and the atoms that it names.
pub mod BlankLines
pub mod Dropped
use robotsyes.Base.{
  ℕ, zero, suc, Bytes, Bool, Option, none, some, List, [], ◌∷◌, ◌++◌, codes, equal, split, join,
  trim, trim_left, trim_right, trim_space, length, ◌==◌, ltb, ◌||◌, ◌+◌, if◌then◌else◌,
}

pub data Atom : Type 0 where
  script style nav header footer aside noscript svg iframe form button : Atom
  h1 h2 h3 h4 h5 h6 : Atom
  p div section article main : Atom
  br li a strong b em i code_tag pre other_atom : Atom

mutual
  -- an element with its attributes, a text, and a node of another type
  pub data Node : Type 0 where
    element : Atom → List (Bytes × Bytes) → Nodes → Node
    text : Bytes → Node
    other_node : Nodes → Node

  pub data Nodes : Type 0 where
    no_nodes : Nodes
    node : Node → Nodes → Nodes

unfoldable pub attr : Bytes → List (Bytes × Bytes) → Bytes
attr key [] = []
attr key ((k, v) ∷ attrs) = let rest = attr key attrs in if equal k key then v else rest

-- " \t\n\r"
abbrev pub is_blank : ℕ → Bool
is_blank c = c == 32 || (c == 9 || (c == 10 || c == 13))

unfoldable pub render_text : Bytes → Bytes
render_text s =
    let trimmed = trim_space s in
    if equal trimmed []
    then (if equal s [] then [] else codes " ")
    else (if length (trim_left is_blank s) == length s then [] else codes " ")
      ++ (trimmed ++ codes " ")

unfoldable pub repeat : ℕ → ℕ → Bytes
repeat c zero = []
repeat c (suc n) = c ∷ repeat c n

abbrev pub blank_line : Bytes
blank_line = 10 ∷ 10 ∷ []

unfoldable pub render_heading : ℕ → Bytes → Bytes
render_heading level inner =
    blank_line ++ (repeat b'#' level ++ (codes " " ++ (inner ++ blank_line)))

abbrev pub block : Bytes → Bytes
block inner = blank_line ++ (inner ++ blank_line)

abbrev pub enclose : Bytes → Bytes → Bytes
enclose mark inner = mark ++ (trim_space inner ++ mark)

-- what `renderNode` writes for an element, over what it writes for the children
unfoldable pub render_element : Atom → List (Bytes × Bytes) → Bytes → Bytes
render_element atom attrs inner = elim atom [
  | script ↦ []
  | style ↦ []
  | nav ↦ []
  | header ↦ []
  | footer ↦ []
  | aside ↦ []
  | noscript ↦ []
  | svg ↦ []
  | iframe ↦ []
  | form ↦ []
  | button ↦ []
  | h1 ↦ render_heading 1 inner
  | h2 ↦ render_heading 2 inner
  | h3 ↦ render_heading 3 inner
  | h4 ↦ render_heading 4 inner
  | h5 ↦ render_heading 5 inner
  | h6 ↦ render_heading 6 inner
  | p ↦ block inner
  | div ↦ block inner
  | section ↦ block inner
  | article ↦ block inner
  | main ↦ block inner
  | br ↦ 10 ∷ []
  | li ↦ (10 ∷ codes "- ") ++ inner
  | a ↦ codes "[" ++ (trim_space inner ++ (codes "](" ++ (attr (codes "href") attrs ++ codes ")")))
  | strong ↦ enclose (codes "**") inner
  | b ↦ enclose (codes "**") inner
  | em ↦ enclose (codes "_") inner
  | i ↦ enclose (codes "_") inner
  | code_tag ↦ enclose (codes "`") inner
  | pre ↦ (10 ∷ 10 ∷ codes "```") ++ (10 ∷ (inner ++ ((10 ∷ codes "```") ++ blank_line)))
  | other_atom ↦ inner
]

unfoldable mutual
  pub render_node : Node → Bytes
  render_node (element atom attrs children) = render_element atom attrs (render_children children)
  render_node (text s) = render_text s
  render_node (other_node children) = render_children children

  pub render_children : Nodes → Bytes
  render_children no_nodes = []
  render_children (node n ns) = render_node n ++ render_children ns

-- `strings.TrimRight(l, " \t")`, and the test for a blank line
unfoldable pub trim_line : Bytes → Bytes
trim_line l = trim_right (λ c. c == 32 || c == 9) l

unfoldable pub is_blank_line : Bytes → Bool
is_blank_line l = equal (trim_space l) []

-- the loop of `collapseBlankLines`, with the count of the blank lines before
unfoldable pub keep_lines : ℕ → List Bytes → List Bytes
keep_lines blank [] = []
keep_lines blank (l ∷ ls) =
    let trimmed = trim_line l in
    let after_blank = keep_lines (blank + 1) ls in
    let after_text = keep_lines 0 ls in
    if is_blank_line trimmed
    then (if ltb 1 (blank + 1) then after_blank else trimmed ∷ after_blank)
    else trimmed ∷ after_text

unfoldable pub collapse_blank_lines : Bytes → Bytes
collapse_blank_lines s = trim (λ c. c == 10) (join 10 (keep_lines 0 (split 10 s))) ++ (10 ∷ [])

unfoldable pub strip : (Bytes → Option Node) → Bytes → Option Bytes
strip parse_html html_src = elim (parse_html html_src) [
  | none ↦ none
  | some doc ↦ some (collapse_blank_lines (render_node doc))
]
