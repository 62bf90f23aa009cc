-- ===== src/Identity/SignatureInput.antt =====
-- internal/identity/signed.go: the reader of Signature-Input, and the signature base.
pub mod Raw
pub mod Unambiguous
use robotsyes.Base.{
  ℕ, zero, suc, ◌+◌, ◌-◌, ◌*◌, Bytes, String, Bool, true, false, not, ◌&&◌, Option, none, some,
  List, [], ◌∷◌, ◌++◌, codes, equal, cut, has_prefix, trim_prefix, has_suffix, trim_suffix, split,
  trim, trim_space, to_lower, leb, ltb, ◌==◌, if◌then◌else◌, ◌>>=◌,
}
use robotsyes.Base.Assoc
use robotsyes.Base.Assoc.{Assoc}
use robotsyes.Base.Int.{ℤ, pos, negsuc, two_63}
use robotsyes.Identity.{Request}

pub record SigParams : Type 0 where
  pub covers_signature_agent : Bool
  pub agent_label : Bytes
  pub created : ℤ
  pub expires : ℤ
  pub key_id : Bytes
  pub nonce : Bytes
  pub raw : Bytes

-- `sigParams{}`
abbrev pub no_params : SigParams
no_params = record {
  covers_signature_agent = false;
  agent_label = [];
  created = pos 0;
  expires = pos 0;
  key_id = [];
  nonce = [];
  raw = [];
}

-- `strconv.ParseInt(s, 10, 64)`: the number that the digits spell, if there are any
unfoldable pub digits_value : ℕ → Bytes → Option ℕ
digits_value n [] = some n
digits_value n (c ∷ s) =
    let rest = digits_value (n * 10 + (c - b'0')) s in
    if leb b'0' c && leb c b'9' then rest else none

unfoldable pub parse_digits : Bytes → Option ℕ
unfolding digits_value
parse_digits [] = none
parse_digits (c ∷ s) = digits_value 0 (c ∷ s)

-- -n, for n ≤ 2^63
abbrev negative : ℕ → ℤ
negative zero = pos 0
negative (suc n) = negsuc n

unfoldable pub parse_int : Bytes → Option ℤ
unfolding parse_digits
parse_int [] = none
parse_int (c ∷ s) =
    if c == b'-'
    then (do n ← parse_digits s; if leb n two_63 then some (negative n) else none)
    else if c == b'+'
    then (do n ← parse_digits s; if ltb n two_63 then some (pos n) else none)
    else (do n ← parse_digits (c ∷ s); if ltb n two_63 then some (pos n) else none)

unfoldable pub authority_only : Bytes
authority_only = codes "\"@authority\""

unfoldable pub authority_and_agent : Bytes
authority_and_agent = codes "\"@authority\" \"signature-agent\""

unfoldable pub labelled_prefix : Bytes
unfolding authority_and_agent
labelled_prefix = authority_and_agent ++ codes ";key=\""

unfoldable pub quote_mark : Bytes
quote_mark = codes "\""

unfoldable pub parse_component_list : Bytes → Option SigParams
parse_component_list s =
    if equal s authority_only
    then some no_params
    else if equal s authority_and_agent
    then some (record no_params { covers_signature_agent = true })
    else if has_prefix labelled_prefix s && has_suffix quote_mark s
    then (let label = trim_suffix quote_mark (trim_prefix labelled_prefix s) in
        if equal label []
        then none
        else some (record no_params { covers_signature_agent = true; agent_label = label }))
    else none

-- the loop of `parseSignatureParams`: a later parameter of the same name wins
unfoldable pub collect_params : List Bytes → Assoc Bytes → Assoc Bytes
collect_params [] params = params
collect_params (part ∷ parts) params = collect_params parts (elim (cut b'=' (trim_space part)) [
  | none ↦ params
  | some (name, val) ↦ Assoc.put name (trim (λ c. c == b'"') val) params
])

-- `params[name]`, which is empty for a missing name
unfoldable pub param : String → Assoc Bytes → Bytes
param name params = elim (Assoc.get (codes name) params) [ none ↦ [] | some v ↦ v ]

abbrev pub signature_input_header : Bytes
signature_input_header = codes "Signature-Input"

abbrev pub signature_header : Bytes
signature_header = codes "Signature"

unfoldable pub wba_algorithm : Bytes
wba_algorithm = codes "ed25519"

unfoldable pub wba_tag : Bytes
wba_tag = codes "web-bot-auth"

unfoldable pub has_required : Bytes → Bytes → Assoc Bytes → Bool
has_required key_id nonce params =
    not (equal key_id [])
    && (not (equal nonce [])
        && (equal (param "alg" params) wba_algorithm && equal (param "tag" params) wba_tag))

unfoldable pub parse_signature_params : Bytes → SigParams → Option SigParams
parse_signature_params s p =
    let params = collect_params (split b';' s) [] in
    do
      created ← parse_int (param "created" params)
      expires ← parse_int (param "expires" params)
      let key_id = param "keyid" params
      let nonce = param "nonce" params
      if has_required key_id nonce params
          then some
              (record p { created = created; expires = expires; key_id = key_id; nonce = nonce })
          else none

-- `rest[1:closeParen]` and `rest[closeParen+1:]`, for a text that begins with a parenthesis
unfoldable pub split_list : Bytes → Option (Bytes × Bytes)
split_list [] = none
split_list (c ∷ s) = if c == b'(' then cut b')' s else none

unfoldable pub parse_signature_input : Bytes → Option SigParams
parse_signature_input s = do
  (label, after) ← cut b'=' (trim_space s)
  let rest = trim_space after
  (components, tail) ← split_list rest
  p ← parse_component_list components
  q ← parse_signature_params tail p
  some (record q { raw = rest })

-- `signatureBase`; `quote` is the verb %q of package fmt
unfoldable pub agent_line : (Bytes → Bytes) → Bytes → SigParams → Bytes
agent_line quote agent_url p =
    if p.covers_signature_agent
    then (if equal p.agent_label []
        then codes "\"signature-agent\""
        else codes "\"signature-agent\";key=" ++ quote p.agent_label)
      ++ (codes ": " ++ (quote agent_url ++ codes "\n"))
    else []

unfoldable pub signature_base : (Bytes → Bytes) → Request → Bytes → SigParams → Bytes
signature_base quote r agent_url p =
    codes "\"@authority\": "
    ++ (to_lower r.host
        ++ (codes "\n"
            ++ (agent_line quote agent_url p ++ (codes "\"@signature-params\": " ++ p.raw))))
