-- ===== src/Proxy/Server/Content.antt =====
-- internal/proxy/proxy.go: what the handler serves behind the limiter.
use robotsyes.Base.{
  Bytes, refl, true, false, none, some, [], ◌∷◌, codes, ◌≡◌, ◌≢◌, ◌↔◌, ◌⊎◌, ◌∙◌, ap, inl, inr,
  arith, Bool-cases, Option-cases,
}
use robotsyes.Identity.{Tier, unverified, declared, verified}
use robotsyes.Negotiate.Accept.{wants_markdown, expresses_no_preference}
use robotsyes.Proxy.Reply.{Incoming, Gate, Reply, from_upstream}
use robotsyes.Proxy.Server.{
  Server, Web, serve_content, serve_well_known, server_wants_markdown, serve_markdown,
}
use robotsyes.Proxy.Server.Ceiling.{is_served}

module _ {M : Type 0} where
  serve_well_known-served :
      (path : Bytes) (s : Server M) {reply : Reply}
      → serve_well_known path s ≡ some reply
      → is_served reply ≡ true
  unfolding serve_well_known
  serve_well_known-served path s h = ground arith

  module _ {Q : Type 0} (web : Web Q) (gate : Gate M) where
    serve_markdown-served :
        (r : Incoming) (s : Server M) → is_served (serve_markdown web gate r s) ≡ true
    unfolding serve_markdown
    serve_markdown-served r s = ground arith

    pub serve_content-served :
        (r : Incoming) (tier : Tier) (s : Server M)
        → is_served (serve_content web gate r tier s) ≡ true
    unfolding serve_content
    serve_content-served r tier s = elim (Option-cases (serve_well_known r.request.path s)) [
      | inl other ↦ let markdown = serve_markdown-served r s in ground arith
      | inr (reply, known) ↦ let ok = serve_well_known-served r.request.path s known in ground arith
    ]

    -- The request prefers Markdown, or has no preference and a tier above unverified.
    abbrev PrefersMarkdown : Incoming → Tier → Type 0
    PrefersMarkdown r tier =
        let accept = r.request.header (codes "Accept") in
        (wants_markdown web.quality accept ≡ true)
        ⊎ ((expresses_no_preference web.quality accept ≡ true) × (tier ≢ unverified))

    -- The reply is that of a well-known path, or else the stripped page for a request that prefers
    -- Markdown, and the origin's page for one that does not.
    abbrev pub IsContent : Incoming → Tier → Server M → Reply → Type 0
    IsContent r tier s reply =
        (serve_well_known r.request.path s ≡ some reply)
        ⊎ ((serve_well_known r.request.path s ≡ none)
            × ((PrefersMarkdown r tier × (reply ≡ serve_markdown web gate r s))
                ⊎ ((¬ PrefersMarkdown r tier)
                    × (reply ≡ from_upstream ((codes "Vary", codes "Accept") ∷ [])))))

    above_unverified :
        (tier : Tier)
        → tier ≢ unverified
        → (elim tier [ unverified ↦ false | declared ↦ true | verified ↦ true ]) ≡ true
    above_unverified unverified known = absurd (known refl)
    above_unverified declared known = refl
    above_unverified verified known = refl

    server_wants_markdown_iff :
        (r : Incoming) (tier : Tier)
        → (server_wants_markdown web gate (r.request.header (codes "Accept")) tier ≡ true)
          ↔ PrefersMarkdown r tier
    unfolding server_wants_markdown
    server_wants_markdown_iff r tier =
        let accept = r.request.header (codes "Accept") in
        elim (Bool-cases (wants_markdown web.quality accept)) [
          | inl wants ↦ (λ h. inl wants, λ p. ground arith)
          | inr not_first ↦ elim (Bool-cases (expresses_no_preference web.quality accept)) [
            | inr other ↦ (
              λ h. absurd (ground arith),
              λ p. elim p [
                | inl wants ↦ absurd (ground arith)
                | inr (none_stated, _) ↦ absurd (ground arith)
              ],
            )
            | inl none_stated ↦ (
              λ h. inr (none_stated, λ is. ground arith),
              λ p. elim p [
                | inl wants ↦ absurd (ground arith)
                | inr (_, known) ↦
                    rw (not_first, none_stated, server_wants_markdown) (above_unverified tier known)
              ],
            )
          ]
        ]

    pub serve_content-IsContent :
        (r : Incoming) (tier : Tier) (s : Server M)
        → IsContent r tier s (serve_content web gate r tier s)
    unfolding serve_content
    serve_content-IsContent r tier s = elim (Option-cases (serve_well_known r.request.path s)) [
      | inr (reply, known) ↦ inl (known ∙ ap some (ground arith))
      | inl other ↦
          elim (Bool-cases
            (server_wants_markdown web gate (r.request.header (codes "Accept")) tier)) [
              | inl wanted ↦
                  inr (other, inl ((server_wants_markdown_iff r tier).0 wanted, ground arith))
              | inr unwanted ↦ inr (
                other,
                inr (
                  λ p. absurd (ground (arith, (server_wants_markdown_iff r tier).1 p)),
                  ground arith,
                ),
              )
            ]
    ]
