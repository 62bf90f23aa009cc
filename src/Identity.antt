-- ===== src/Identity.antt =====
-- internal/identity/identity.go: the tiers, the identity that a verifier grants, and the verifiers
-- that check no signature. The caches, the cards and the signature check are the modules below.
pub mod Card
pub mod CardCache
pub mod NonceCache
pub mod SignatureInput
pub mod Freshness
pub mod Dial
pub mod Signed
use robotsyes.Base.{
  ℕ, Bytes, Bool, false, ◌&&◌, Option, none, some, [], ◌∷◌, codes, equal, cut, length, leb, ◌==◌,
  if◌then◌else◌,
}

pub data Tier : Type 0 where
  unverified declared verified : Tier

-- the string that a tier is in the source
unfoldable pub tier_name : Tier → Bytes
tier_name unverified = codes "unverified"
tier_name declared = codes "declared"
tier_name verified = codes "verified"

pub record Identity : Type 0 where
  pub tier : Tier
  pub agent_id : Bytes

-- What the program reads of a request; `header` is `r.Header.Get`.
pub record Request : Type 0 where
  pub host : Bytes
  pub path : Bytes
  pub remote_addr : Bytes
  pub header : Bytes → Bytes

abbrev pub anonymous : Identity
anonymous = record { tier = unverified; agent_id = [] }

-- `NoopVerifier`
unfoldable pub noop_verify : Request → Identity
noop_verify r = anonymous

unfoldable pub signature_agent_header : Bytes
signature_agent_header = codes "Signature-Agent"

-- `v[len(v)-1] == '"'`
abbrev last_is : ℕ → Bytes → Bool
last_is b [] = false
last_is b (c ∷ []) = c == b
last_is b (c ∷ d ∷ s) = last_is b (d ∷ s)

-- `v[:len(v)-1]`
abbrev but_last : Bytes → Bytes
but_last [] = []
but_last (c ∷ []) = []
but_last (c ∷ d ∷ s) = c ∷ but_last (d ∷ s)

abbrev first_is : ℕ → Bytes → Bool
first_is b [] = false
first_is b (c ∷ s) = c == b

abbrev rest_of : Bytes → Bytes
rest_of [] = []
rest_of (c ∷ s) = s

-- the part behind `<label>=`, if a quote follows it
unfoldable pub drop_label : Bytes → Bytes
unfolding cut
drop_label v = elim (cut b'=' v) [
  | none ↦ v
  | some (label, rest) ↦ if first_is b'"' rest then rest else v
]

unfoldable pub unquote : Bytes → Bytes
unquote v =
    if leb 2 (length v) && (first_is b'"' v && last_is b'"' v) then but_last (rest_of v) else v

unfoldable pub unquote_signature_agent : Bytes → Option Bytes
unfolding drop_label unquote
unquote_signature_agent v = if equal v [] then none else some (unquote (drop_label v))

-- `DeclaredVerifier`
unfoldable pub declared_verify : Request → Identity
declared_verify r = elim (unquote_signature_agent (r.header signature_agent_header)) [
  | none ↦ anonymous
  | some id ↦ record { tier = declared; agent_id = id }
]
