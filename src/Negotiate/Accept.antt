-- ===== src/Negotiate/Accept.antt =====
-- internal/negotiate/negotiate.go: the preference that an Accept header states. The quality values
-- are the source's float64 and strconv.ParseFloat, which the record `Quality` stands for.
pub mod Best
pub mod Preference
use robotsyes.Base.{
  Bytes, Bool, true, false, Option, none, some, List, [], ◌∷◌, codes, equal, split, trim_space,
  to_lower, cut_prefix, if◌then◌else◌,
}

pub record Quality (Q : Type 0) : Type 0 where
  pub parse_float : Bytes → Option Q
  -- `a > b`, `a <= b` and `a >= b`
  pub gt : Q → Q → Bool
  pub le : Q → Q → Bool
  pub ge : Q → Q → Bool
  pub one : Q
  pub zero : Q
  pub minus_one : Q

abbrev pub markdown_type : Bytes
markdown_type = codes "text/markdown"

abbrev pub html_type : Bytes
html_type = codes "text/html"

abbrev pub any_type : Bytes
any_type = codes "*/*"

pub record AcceptQualities (Q : Type 0) : Type 0 where
  pub markdown : Q
  pub html : Q

module _ {Q : Type 0} (qs : Quality Q) where
  unfoldable pub max_q : Q → Q → Q
  max_q a b = if qs.gt b a then b else a

  unfoldable pub observe : AcceptQualities Q → Bytes × Q → AcceptQualities Q
  observe a (media_type, q) =
      if equal media_type markdown_type
      then record a { markdown = max_q a.markdown q }
      else (if equal media_type html_type
          then record a { html = max_q a.html q }
          else (if equal media_type any_type then record a { html = max_q a.html q } else a))

  -- the quality after one parameter of an entry
  unfoldable pub read_parameter : Q → Bytes → Q
  read_parameter q p = elim (cut_prefix (codes "q=") (trim_space p)) [
    | none ↦ q
    | some v ↦ elim (qs.parse_float v) [ none ↦ q | some parsed ↦ parsed ]
  ]

  unfoldable pub read_parameters : Q → List Bytes → Q
  read_parameters q [] = q
  read_parameters q (p ∷ ps) = read_parameters (read_parameter q p) ps

  unfoldable pub parse_accept_entry : Bytes → Bytes × Q
  parse_accept_entry part = elim (split b';' part) [
    | [] ↦ ([], qs.one)
    | seg ∷ params ↦ (to_lower (trim_space seg), read_parameters qs.one params)
  ]

  unfoldable pub observe_all : AcceptQualities Q → List Bytes → AcceptQualities Q
  observe_all a [] = a
  observe_all a (part ∷ parts) = observe_all (observe a (parse_accept_entry part)) parts

  abbrev pub nothing_seen : AcceptQualities Q
  nothing_seen = record { markdown = qs.minus_one; html = qs.minus_one }

  -- the test of `WantsMarkdown` on the totals
  unfoldable pub prefers_markdown : AcceptQualities Q → Bool
  prefers_markdown a = if qs.le a.markdown qs.zero then false else qs.ge a.markdown a.html

  unfoldable pub wants_markdown : Bytes → Bool
  wants_markdown accept =
      if equal accept []
      then false
      else prefers_markdown (observe_all nothing_seen (split b',' accept))

  unfoldable pub all_any : List Bytes → Bool
  all_any [] = true
  all_any (part ∷ parts) =
      let rest = all_any parts in if equal (parse_accept_entry part).0 any_type then rest else false

  unfoldable pub expresses_no_preference : Bytes → Bool
  expresses_no_preference accept =
      let trimmed = trim_space accept in
      if equal trimmed [] then true else all_any (split b',' trimmed)
