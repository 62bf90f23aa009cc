-- ===== src/Negotiate/Strip/Dropped.antt =====
-- internal/negotiate/negotiate.go: what the stripped view leaves out.
use robotsyes.Base.{
  Bytes, Bool, true, false, Option, some, List, [], ◌∷◌, ◌++◌, ◌≡◌, refl, ap, ◌∙◌, arith, codes,
  equal, inl, inr, Bool-cases, Option-cases, if◌then◌else◌,
}
use mathlib.Core.Option
use robotsyes.Negotiate.Strip.{
  Atom, script, style, nav, header, footer, aside, noscript, svg, iframe, form, button, a, Node,
  Nodes, element, text, other_node, no_nodes, node, attr, render_element, render_node,
  render_children, strip, collapse_blank_lines,
}

-- The elements that are not content.
abbrev pub is_dropped : Atom → Bool
is_dropped script = true
is_dropped style = true
is_dropped nav = true
is_dropped header = true
is_dropped footer = true
is_dropped aside = true
is_dropped noscript = true
is_dropped svg = true
is_dropped iframe = true
is_dropped form = true
is_dropped button = true
is_dropped atom = false

-- Of the attributes, the address of a link.
abbrev pub kept : Atom → List (Bytes × Bytes) → List (Bytes × Bytes)
kept a attrs = (codes "href", attr (codes "href") attrs) ∷ []
kept atom attrs = []

abbrev pub is_content : Node → Bool
is_content (element atom attrs children) = if is_dropped atom then false else true
is_content other = true

-- The page without those elements and attributes.
unfoldable mutual
  pub pruned : Node → Node
  pruned (element atom attrs children) = element atom (kept atom attrs) (pruned_children children)
  pruned (text s) = text s
  pruned (other_node children) = other_node (pruned_children children)

  pub pruned_children : Nodes → Nodes
  pruned_children no_nodes = no_nodes
  pruned_children (node n ns) =
      if is_content n then node (pruned n) (pruned_children ns) else pruned_children ns

render_element-kept :
    (atom : Atom) (attrs : List (Bytes × Bytes)) (inner : Bytes)
    → render_element atom (kept atom attrs) inner ≡ render_element atom attrs inner
unfolding render_element attr equal
render_element-kept a attrs inner = refl
render_element-kept atom attrs inner = refl

render_element-dropped :
    (atom : Atom) (attrs : List (Bytes × Bytes)) (inner : Bytes)
    → is_dropped atom ≡ true
    → render_element atom attrs inner ≡ []
unfolding render_element
render_element-dropped script attrs inner h = refl
render_element-dropped style attrs inner h = refl
render_element-dropped nav attrs inner h = refl
render_element-dropped header attrs inner h = refl
render_element-dropped footer attrs inner h = refl
render_element-dropped aside attrs inner h = refl
render_element-dropped noscript attrs inner h = refl
render_element-dropped svg attrs inner h = refl
render_element-dropped iframe attrs inner h = refl
render_element-dropped form attrs inner h = refl
render_element-dropped button attrs inner h = refl
render_element-dropped atom attrs inner h = absurd (cc)

unseen : (n : Node) → is_content n ≡ false → render_node n ≡ []
unfolding render_node
unseen (element atom attrs children) h =
    render_element-dropped atom attrs (render_children children) (ground arith)
unseen (text s) h = absurd (cc)
unseen (other_node children) h = absurd (cc)

mutual
  unfolding pruned pruned_children render_node render_children

  render_node-pruned : (n : Node) → render_node (pruned n) ≡ render_node n
  render_node-pruned (element atom attrs children) =
      render_element-kept atom attrs (render_children (pruned_children children))
      ∙ ap (render_element atom attrs) (render_children-pruned children)
  render_node-pruned (text s) = refl
  render_node-pruned (other_node children) = render_children-pruned children

  render_children-pruned : (ns : Nodes) → render_children (pruned_children ns) ≡ render_children ns
  render_children-pruned no_nodes = refl
  render_children-pruned (node n ns) = elim (Bool-cases (is_content n)) [
    | inl content ↦
        let here = render_node-pruned n in
        let rest = render_children-pruned ns in
        rw content (
          ap (λ s. s ++ render_children (pruned_children ns)) here
          ∙ ap (λ s. render_node n ++ s) rest)
    | inr dropped ↦
        let nothing = unseen n dropped in
        let rest = render_children-pruned ns in rw (dropped, nothing) rest
  ]

-- The stripped view of a page is the view of the page without its scripts, styles, navigation and
-- the other elements that are not content, and without attributes other than the address of a link.
pub strip-pruned :
    (parse_html : Bytes → Option Node) (src : Bytes)
    → strip (λ s. Option.map pruned (parse_html s)) src ≡ strip parse_html src
unfolding strip
strip-pruned parse_html src = elim (Option-cases (parse_html src)) [
  | inl malformed ↦ rw (malformed, strip) refl
  | inr (doc, parsed) ↦
      let same = render_node-pruned doc in
      rw (parsed, strip) (ap (λ view. some (collapse_blank_lines view)) same)
]
