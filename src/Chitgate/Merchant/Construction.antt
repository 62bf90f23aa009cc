-- ===== src/Chitgate/Merchant/Construction.antt =====
-- What a merchant that was constructed guarantees, and what it charges.
use robotsyes.Base.{
  ℕ, ◌*◌, ◌≤◌, Bytes, true, false, some, [], ◌≡◌, inl, inr, arith, refl, ap, ◌∙◌, Bool-cases,
}
use robotsyes.Base.Int.{ℤ, pos, negsuc, ◌*ℤ◌, wrap64, wrap64_of_IsInt64, leb_ℤ, pos_part}
use robotsyes.Chitgate.ReplayCache
use robotsyes.Chitgate.ReplayCache.Laws.{IsValid, new-IsValid, view}
use robotsyes.Chitgate.Rail.{Chit}
use robotsyes.Chitgate.Credential.{is_hex_address}
use robotsyes.Chitgate.Merchant.{
  Config, Merchant, new, build, mint_requirements, usdc_atomic_per_cent,
}

module _ {Amount : Type 0} (chit : Chit Amount) where
  -- A merchant pays out to a well-formed address, charges a positive price, and starts with a
  -- valid record of nonces that remembers none.
  pub record IsSound (c : Merchant) : Type 0 where
    pub payable : is_hex_address c.pay_to ≡ true
    pub positive : 1 ≤ pos_part c.price_cents
    pub valid : IsValid c.replays
    pub unspent : view c.replays ≡ []

  positive_price : (a : ℤ) → leb_ℤ a (pos 0) ≡ false → 1 ≤ pos_part a
  positive_price (pos n) h = ground arith
  positive_price (negsuc n) h = ground arith

  built :
      (cfg : Config)
      → is_hex_address cfg.payout_address ≡ true
      → leb_ℤ cfg.price_cents_per_request (pos 0) ≡ false
      → IsSound (build cfg)
        × ((build cfg).pay_to ≡ cfg.payout_address)
        × ((build cfg).price_cents ≡ cfg.price_cents_per_request)
  unfolding build
  built cfg payable priced =
      let (valid, empty, _) =
        new-IsValid (pos ReplayCache.default_max_entries) (pos ReplayCache.default_ttl) in
      (
        record {
          payable = payable;
          positive = positive_price cfg.price_cents_per_request priced;
          valid = valid;
          unspent = empty;
        },
        refl,
        refl,
      )

  pub new-build :
      (cfg : Config) {c : Merchant}
      → new chit cfg ≡ some c
      → (c ≡ build cfg)
        × (is_hex_address cfg.payout_address ≡ true)
        × (leb_ℤ cfg.price_cents_per_request (pos 0) ≡ false)
  unfolding new
  new-build cfg h = elim (Bool-cases (is_hex_address cfg.payout_address)) [
    | inr malformed ↦ absurd (ground arith)
    | inl payable ↦ elim (Bool-cases (leb_ℤ cfg.price_cents_per_request (pos 0))) [
      | inl free ↦ absurd (ground arith)
      | inr priced ↦ (ground arith, payable, priced)
    ]
  ]

  -- A merchant is constructed only with a well-formed payout address and a positive price, pays out
  -- to the configured address and charges the configured price, and starts with a valid record of
  -- nonces that remembers none.
  pub new_lem :
      (cfg : Config) (c : Merchant)
      → new chit cfg ≡ some c
      → IsSound c × (c.pay_to ≡ cfg.payout_address) × (c.price_cents ≡ cfg.price_cents_per_request)
  new_lem cfg c h = let (is, payable, priced) = new-build cfg h in rw is (built cfg payable priced)

  times_nonneg : (n : ℕ) → pos n *ℤ pos 10000 ≡ pos (n * 10000)
  unfolding ◌*ℤ◌
  times_nonneg n = ground arith

  -- The amount in a payment's requirements is the price in cents times 10000, which does not
  -- overflow for a price of at most 922337203685477 cents.
  pub minted_amount :
      (c : Merchant) (resource : Bytes) (cents : ℕ)
      → c.price_cents ≡ pos cents
      → cents ≤ 922337203685477
      → (mint_requirements chit c resource).amount ≡ chit.decimal (pos (cents * 10000))
  unfolding mint_requirements
  minted_amount c resource cents is small = ap chit.decimal (
      ap (λ p. wrap64 (p *ℤ usdc_atomic_per_cent)) is
      ∙ ap wrap64 (times_nonneg cents)
      ∙ wrap64_of_IsInt64 (pos (cents * 10000)) (omega arith, omega arith))
