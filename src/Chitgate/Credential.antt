-- ===== src/Chitgate/Credential.antt =====
-- internal/paymentgate/chitgate/chitgate.go: the check of a credential, and the nonce and the
-- payer that it carries.
use robotsyes.Base.{
  ℕ, Bytes, Bool, false, ◌&&◌, ◌||◌, Option, none, some, List, [], ◌∷◌, codes, equal, leb, ◌==◌,
  length, if◌then◌else◌, all,
}
use robotsyes.Chitgate.Rail.{Chit, Json, object, string, Members, no_members, member}

unfoldable pub is_hex_digit : ℕ → Bool
is_hex_digit b =
    (leb b'0' b && leb b b'9') || ((leb b'a' b && leb b b'f') || (leb b'A' b && leb b b'F'))

-- `isHexAddress`: the length, the prefix, and the digits from the third byte on
unfoldable pub is_hex_address : Bytes → Bool
is_hex_address (a ∷ x ∷ digits) =
    length (a ∷ x ∷ digits) == 42 && (a == b'0' && (x == b'x' && all is_hex_digit digits))
is_hex_address _ = false

-- the JSON decoding of a nonce: the value of a key, of an object and of a string
unfoldable pub field : Bytes → Members → Option Json
field k no_members = none
field k (member j v o) = let rest = field k o in if equal j k then some v else rest

unfoldable pub as_object : Option Json → Option (Members)
as_object (some (object o)) = some o
as_object _ = none

unfoldable pub as_string : Option Json → Bytes
as_string (some (string s)) = s
as_string _ = []

-- `decodeCredentialJSON`: the first decoder that yields an object
unfoldable pub first_object :
    (Bytes → Option (Members)) → List (Bytes → Option Bytes) → Bytes → Option (Members)
first_object parse [] credential = none
first_object parse (decode ∷ decoders) credential =
    let rest = first_object parse decoders credential in
    elim (decode credential) [
      | none ↦ rest
      | some raw ↦ elim (parse raw) [ none ↦ rest | some o ↦ some o ]
    ]

module _ {Amount : Type 0} (chit : Chit Amount) where
  unfoldable pub credential_decoders : List (Bytes → Option Bytes)
  credential_decoders = chit.base64_std ∷ chit.base64_raw_url ∷ (λ s. some s) ∷ []

  unfoldable pub decode_credential_json : Bytes → Option (Members)
  decode_credential_json = first_object chit.parse_object credential_decoders

  -- `decodeX402Nonce`
  unfoldable pub decode_x402_nonce : Bytes → Option Bytes
  decode_x402_nonce credential = elim (decode_credential_json credential) [
    | none ↦ none
    | some payload ↦ elim (as_object (field (codes "payload") payload)) [
      | none ↦ none
      | some inner ↦ elim (as_object (field (codes "authorization") inner)) [
        | none ↦ none
        | some auth ↦
            let nonce = as_string (field (codes "nonce") auth) in
            if equal nonce [] then none else some nonce
      ]
    ]
  ]

  -- `validateCredential`: the payer and the nonce
  unfoldable pub validate_credential : Bytes → Option (Bytes × Bytes)
  validate_credential credential = elim (chit.extract_payer credential) [
    | none ↦ none
    | some payer ↦
        if is_hex_address payer
        then (elim (decode_x402_nonce credential) [
          | none ↦ none
          | some nonce ↦ some (payer, nonce)
        ])
        else none
  ]
