-- ===== src/Tests/Signing.antt =====
-- The signature base of two requests for one host.
use robotsyes.Base.{
  ℕ, ◌+◌, Bytes, true, false, some, List, [], ◌∷◌, ◌≡◌, ◌⊎◌, refl, arith, codes, map, to_lower,
}
use robotsyes.Base.OneLine.{IsOneLine}
use robotsyes.Identity.{Request}
use robotsyes.Identity.SignatureInput.{signature_base}
use robotsyes.Identity.SignatureInput.Unambiguous.{signature_base_injective}
use robotsyes.Tests.Signatures.{request, params, sig_input, parsed}

-- a quotation without newlines that can be read back
abbrev quote : Bytes → Bytes
quote s = map (λ (c : ℕ). c + 11) s

quote-IsOneLine : (s : Bytes) → IsOneLine (quote s)
quote-IsOneLine [] = refl
quote-IsOneLine (c ∷ s) = let rest = quote-IsOneLine s in ground arith

quote_injective : (s t : Bytes) → quote s ≡ quote t → s ≡ t
quote_injective [] [] e = refl
quote_injective [] (d ∷ t) e = absurd (ground arith)
quote_injective (c ∷ s) [] e = absurd (ground arith)
quote_injective (c ∷ s) (d ∷ t) e =
    let rest : quote s ≡ quote t = cc in let same : s ≡ t = quote_injective s t rest in ground arith

-- the same host in capitals
abbrev loud : Request
loud = record request { host = codes "H" }

abbrev url : Bytes
url = codes "https://agent.example"

same_base : signature_base quote request url params ≡ signature_base quote loud url params
unfolding signature_base to_lower
same_base = refl

signature_base_injective_example :
    (to_lower request.host ≡ to_lower loud.host)
    × (params ≡ params)
    × ((params.covers_signature_agent ≡ false) ⊎ (url ≡ url))
unfolding robotsyes.Base.equal
signature_base_injective_example =
    signature_base_injective quote quote-IsOneLine quote_injective request loud url url sig_input
      sig_input params params refl refl parsed parsed same_base
