-- ===== src/Identity/SignatureInput/Raw.antt =====
-- internal/identity/signed.go: the parameters of a signature are those that its raw text spells.
use robotsyes.Base.{
  Bytes, Option, some, ◌≡◌, inl, inr, sym, ap, ◌∙◌, arith, cut, trim_space, Option-cases, ◌>>=◌,
}
use robotsyes.Identity.SignatureInput.{
  SigParams, split_list, parse_component_list, parse_signature_params, parse_signature_input,
}

-- `parseSignatureInput` behind the label.
parse_rest : Bytes → Option SigParams
parse_rest rest = do
  (components, tail) ← split_list rest
  p ← parse_component_list components
  q ← parse_signature_params tail p
  some (record q { raw = rest })

parse_rest-raw : (rest : Bytes) (p : SigParams) → parse_rest rest ≡ some p → p.raw ≡ rest
unfolding parse_rest
parse_rest-raw rest p h = elim (Option-cases (split_list rest)) [
  | inl none_ ↦ absurd (ground arith)
  | inr ((components, tail), found) ↦ elim (Option-cases (parse_component_list components)) [
    | inl none_ ↦ absurd (ground arith)
    | inr (p', listed) ↦ elim (Option-cases (parse_signature_params tail p')) [
      | inl none_ ↦ absurd (ground arith)
      | inr (q, named) ↦ ground arith
    ]
  ]
]

parsed_again :
    (s : Bytes) (p : SigParams) → parse_signature_input s ≡ some p → parse_rest p.raw ≡ some p
unfolding parse_signature_input parse_rest
parsed_again s p h = elim (Option-cases (cut b'=' (trim_space s))) [
  | inl none_ ↦ absurd (ground arith)
  | inr ((label, after), found) ↦
      let is : parse_rest (trim_space after) ≡ some p = rw (found, parse_signature_input) at h in
      ap parse_rest (parse_rest-raw (trim_space after) p is) ∙ is
]

-- The parameters are those that the text of the parameters spells.
pub raw-determines :
    (s s' : Bytes) (p p' : SigParams)
    → parse_signature_input s ≡ some p
    → parse_signature_input s' ≡ some p'
    → p.raw ≡ p'.raw
    → p ≡ p'
raw-determines s s' p p' h h' same =
    let e : some p ≡ some p' =
      sym (parsed_again s p h) ∙ (ap parse_rest same ∙ parsed_again s' p' h') in
    cc
