-- ===== src/Tests/Views.antt =====
-- The stripped view of a page with a script.
use robotsyes.Base.{Bytes, Option, some, [], ◌∷◌, ◌≡◌, codes}
use mathlib.Core.Option
use robotsyes.Negotiate.Strip.{Node, element, text, other_node, no_nodes, node, script, p, a, strip}
use robotsyes.Negotiate.Strip.Dropped.{pruned, strip-pruned}

-- a script, and a paragraph with a link that has a title
abbrev page : Node
page = other_node (
    node (element script [] (node (text (codes "track()")) no_nodes)) (
      node
        (element p [] (
          node
            (element a ((codes "title", codes "x") ∷ (codes "href", codes "/y") ∷ [])
              (node (text (codes "more")) no_nodes))
            no_nodes))
        no_nodes))

abbrev parse : Bytes → Option Node
parse s = some page

strip-pruned_example :
    strip (λ s. Option.map pruned (parse s)) (codes "page") ≡ strip parse (codes "page")
strip-pruned_example = strip-pruned parse (codes "page")
