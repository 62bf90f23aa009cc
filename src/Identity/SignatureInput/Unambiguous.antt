-- ===== src/Identity/SignatureInput/Unambiguous.antt =====
-- internal/identity/signed.go: what a signature base says, it says of one request only.
use robotsyes.Base.{
  ℕ, Bytes, true, false, some, [], ◌∷◌, ◌++◌, ◌≡◌, ◌⊎◌, inl, inr, refl, sym, ap, ◌∙◌, arith, codes,
  equal, to_lower, Bool-cases, if◌then◌else◌,
}
use mathlib.Core.List.{append_cancel_left, append_assoc}
use robotsyes.Base.OneLine.{IsOneLine, IsOneLine-append, lines_injective}
use robotsyes.Identity.{Request}
use robotsyes.Identity.SignatureInput.{SigParams, parse_signature_input, agent_line, signature_base}
use robotsyes.Identity.SignatureInput.Raw.{raw-determines}

to_lower-IsOneLine : (s : Bytes) → IsOneLine s → IsOneLine (to_lower s)
unfolding to_lower
to_lower-IsOneLine [] h = refl
to_lower-IsOneLine (c ∷ s) h = let rest = to_lower-IsOneLine s in ground (arith, rest)

rebracket :
    (s t u rest : Bytes) → (s ++ (t ++ (u ++ (10 ∷ [])))) ++ rest ≡ (s ++ (t ++ u)) ++ (10 ∷ rest)
rebracket s t u rest = simp append_assoc

abbrev second : Bytes → ℕ
second [] = 0
second (c ∷ []) = 0
second (c ∷ d ∷ s) = d

abbrev params_line : Bytes → Bytes
params_line raw = codes "\"@signature-params\": " ++ raw

module _ (quote : Bytes → Bytes) (quote-IsOneLine : (s : Bytes) → IsOneLine (quote s))
    (quote_injective : (s t : Bytes) → quote s ≡ quote t → s ≡ t) where
  component : SigParams → Bytes
  component p =
      if equal p.agent_label []
      then codes "\"signature-agent\""
      else codes "\"signature-agent\";key=" ++ quote p.agent_label

  -- the line of the agent without its newline
  agent_text : Bytes → SigParams → Bytes
  agent_text url p = component p ++ (codes ": " ++ quote url)

  component-IsOneLine : (p : SigParams) → IsOneLine (component p)
  unfolding component
  component-IsOneLine p = elim (Bool-cases (equal p.agent_label [])) [
    | inl unlabelled ↦ rw unlabelled refl
    | inr labelled ↦ rw labelled (quote-IsOneLine p.agent_label)
  ]

  agent_text-IsOneLine : (url : Bytes) (p : SigParams) → IsOneLine (agent_text url p)
  unfolding agent_text
  agent_text-IsOneLine url p =
      IsOneLine-append (component p) _ (component-IsOneLine p) (quote-IsOneLine url)

  agent_line-covered :
      (url rest : Bytes) (p : SigParams)
      → p.covers_signature_agent ≡ true
      → agent_line quote url p ++ rest ≡ agent_text url p ++ (10 ∷ rest)
  unfolding agent_line agent_text component
  agent_line-covered url rest p covers =
      rw covers (rebracket (component p) (codes ": ") (quote url) rest)

  agent_line-uncovered :
      (url : Bytes) (p : SigParams) → p.covers_signature_agent ≡ false → agent_line quote url p ≡ []
  unfolding agent_line
  agent_line-uncovered url p bare = rw bare refl

  second-agent_text : (url rest : Bytes) (p : SigParams) → second (agent_text url p ++ rest) ≡ b's'
  unfolding agent_text component
  second-agent_text url rest p = elim (Bool-cases (equal p.agent_label [])) [
    | inl unlabelled ↦ rw unlabelled refl
    | inr labelled ↦ rw labelled refl
  ]

  -- what follows the line of the host
  abbrev tail_of : Bytes → SigParams → Bytes
  tail_of url p = agent_line quote url p ++ params_line p.raw

  tail_covered :
      (url : Bytes) (p : SigParams)
      → p.covers_signature_agent ≡ true
      → tail_of url p ≡ agent_text url p ++ (10 ∷ params_line p.raw)
  tail_covered url p covers = agent_line-covered url (params_line p.raw) p covers

  tail_bare :
      (url : Bytes) (p : SigParams)
      → p.covers_signature_agent ≡ false
      → tail_of url p ≡ params_line p.raw
  tail_bare url p bare = ap (λ l. l ++ params_line p.raw) (agent_line-uncovered url p bare)

  covered-ne-bare :
      (url : Bytes) (p p' : SigParams)
      → agent_text url p ++ (10 ∷ params_line p.raw) ≡ params_line p'.raw
      → ⊥
  covered-ne-bare url p p' e =
      let text = second-agent_text url (10 ∷ params_line p.raw) p in
      let params = ap second e in absurd (omega arith)

  tails_injective :
      (url url' : Bytes) (p p' : SigParams)
      → tail_of url p ≡ tail_of url' p'
      → (p.raw ≡ p'.raw)
        × ((p.covers_signature_agent ≡ false) ⊎ (agent_text url p ≡ agent_text url' p'))
  tails_injective url url' p p' e = elim (Bool-cases p.covers_signature_agent) [
    | inl covers ↦ elim (Bool-cases p'.covers_signature_agent) [
      | inl covers' ↦
          let (texts, params) =
            lines_injective (agent_text url p) (agent_text url' p') _ _ (agent_text-IsOneLine url p)
              (agent_text-IsOneLine url' p')
              (sym (tail_covered url p covers) ∙ (e ∙ tail_covered url' p' covers')) in
          (append_cancel_left (params_line []) _ _ params, inr texts)
      | inr bare' ↦ absurd (
          covered-ne-bare url p p'
            (sym (tail_covered url p covers) ∙ (e ∙ tail_bare url' p' bare')))
    ]
    | inr bare ↦ elim (Bool-cases p'.covers_signature_agent) [
      | inl covers' ↦ absurd (
          covered-ne-bare url' p' p
            (sym (tail_covered url' p' covers') ∙ (sym e ∙ tail_bare url p bare)))
      | inr bare' ↦ (
        append_cancel_left (params_line []) _ _
            (sym (tail_bare url p bare) ∙ (e ∙ tail_bare url' p' bare')),
        inl bare,
      )
    ]
  ]

  agent_text_url :
      (url url' : Bytes) (p : SigParams) → agent_text url p ≡ agent_text url' p → url ≡ url'
  unfolding agent_text
  agent_text_url url url' p e =
      quote_injective url url'
        (append_cancel_left (codes ": ") _ _ (append_cancel_left (component p) _ _ e))

  -- A signature base says one thing only: if two requests whose Signature-Input headers parse have
  -- the same base, then they have the same host up to case, the same parameters (the covered
  -- components, the times, the key id and the nonce among them) and, where the agent is covered,
  -- the same agent URL. The hosts hold no newline, and the quotation of package fmt is one line
  -- from which the text can be read back.
  pub signature_base_injective :
      (r r' : Request) (url url' s s' : Bytes) (p p' : SigParams)
      → IsOneLine r.host
      → IsOneLine r'.host
      → parse_signature_input s ≡ some p
      → parse_signature_input s' ≡ some p'
      → signature_base quote r url p ≡ signature_base quote r' url' p'
      → (to_lower r.host ≡ to_lower r'.host)
        × (p ≡ p')
        × ((p.covers_signature_agent ≡ false) ⊎ (url ≡ url'))
  unfolding signature_base
  signature_base_injective r r' url url' s s' p p' one one' parsed parsed' e =
      let (hosts, tails) =
        lines_injective (to_lower r.host) (to_lower r'.host) (tail_of url p) (tail_of url' p')
          (to_lower-IsOneLine r.host one) (to_lower-IsOneLine r'.host one')
          (append_cancel_left (codes "\"@authority\": ") _ _ e) in
      let (raws, texts) = tails_injective url url' p p' tails in
      let same = raw-determines s s' p p' parsed parsed' raws in
      (
        hosts,
        same,
        elim texts [
          | inl bare ↦ inl bare
          | inr text ↦ inr (agent_text_url url url' p (text ∙ ap (agent_text url') (sym same)))
        ],
      )
