-- ===== src/Tests/Documents.antt =====
-- The configuration, the fetches and the negotiation of content at concrete inputs.
use robotsyes.Base.{
  Bytes, Bool, true, false, Option, some, List, [], ◌∷◌, ◌≡◌, ◌↔◌, refl, codes, arith, equal, split,
  map, if◌then◌else◌, not,
}
use robotsyes.Config.{Config, default, load, loaded}
use robotsyes.Config.Loading.{IsRunnable, load_iff}
use robotsyes.Httpx.{Response}
use robotsyes.Negotiate.Accept.{Quality, wants_markdown, parse_accept_entry}
use robotsyes.Negotiate.Accept.Best.{IsOrder, asks_for_markdown}
use robotsyes.Negotiate.Accept.Preference.{wants_markdown_lem}
use robotsyes.Negotiate.Strip.{keep_lines, trim_line}
use robotsyes.Negotiate.Strip.BlankLines.{single_spaced, texts, keep_lines_lem}

abbrev read_file : Bytes → Option Bytes
read_file path = some (codes "origin: x")

abbrev unmarshal : Bytes → Config → Option Config
unmarshal data_read cfg = some (record cfg { origin = codes "x" })

load_iff_example :
    (load read_file unmarshal (codes "robotsyes.yaml")
      ≡ loaded (record default { origin = codes "x" }))
    ↔ ((found : Bytes) × (read_file (codes "robotsyes.yaml") ≡ some found)
        × (unmarshal found default ≡ some (record default { origin = codes "x" }))
        × IsRunnable (record default { origin = codes "x" }))
load_iff_example =
    load_iff read_file unmarshal (codes "robotsyes.yaml") (record default { origin = codes "x" })

abbrev response : Response
response = record { status = 200; body = codes "page"; broken = false }

abbrev get : Bytes → Option Response
get url = some response

abbrev gt : Bool → Bool → Bool
gt a b = if a then not b else false

-- qualities in which every number is 1 or 0
abbrev quality : Quality Bool
quality = record {
  parse_float = λ s. some true;
  gt = gt;
  le = λ a b. not (gt a b);
  ge = λ a b. not (gt b a);
  one = true;
  zero = false;
  minus_one = false;
}

irreflexive : (a : Bool) → gt a a ≡ false
irreflexive true = refl
irreflexive false = refl

quality-IsOrder : IsOrder quality (λ a. true)
quality-IsOrder = record {
  irreflexive = irreflexive;
  transitive = λ a b c h k. ground arith;
  cotransitive = λ a b c n h k. ground arith;
  gt_number = λ a b h. refl;
  minus_one_number = refl;
  minus_one_below = refl;
  le_zero = λ a n. refl;
  ge_not_gt = λ a b n m. refl;
}

abbrev accept : Bytes
accept = codes "text/html,text/markdown;q=1"

wants_markdown_lem_example : wants_markdown quality accept ≡ (
    if equal accept []
    then false
    else asks_for_markdown quality (map (parse_accept_entry quality) (split b',' accept)))
wants_markdown_lem_example = wants_markdown_lem quality (λ a. true) accept quality-IsOrder

abbrev lines : List Bytes
lines = codes "a  " ∷ [] ∷ [] ∷ codes "b" ∷ []

keep_lines_lem_example :
    (single_spaced false (keep_lines 0 lines) ≡ true)
    × (texts (keep_lines 0 lines) ≡ texts (map trim_line lines))
keep_lines_lem_example = keep_lines_lem lines
