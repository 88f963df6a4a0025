-- ===== src/World/Auction/Debt.antt =====
-- A listing with a negative buyout price: `create_listing` and `buyout` one after the other.
use ssh_hunt.Base.{
  Result, ℕ, suc, ◌+◌, ◌*◌, ◌-◌, ◌/◌, ◌≤◌, ◌<◌, ◌≡◌, ◌≢◌, refl, ◌∙◌, sym, ap, none, some, Option,
  Text, ok, arith,
}
use ssh_hunt.Base.Int.{ℤ, pos, negsuc, sub_ℕ, ◌<ℤ◌, ◌+ℤ◌, ◌-ℤ◌, ◌*ℤ◌, ◌≤ℤ◌}
use ssh_hunt.Base.Machine.{FitsI64, wrap_i64}
use ssh_hunt.World.State.{PlayerProfile, AuctionListing, WorldState, player_at, auction_at}
use ssh_hunt.World.Auction.{create_listing, buyout, listing_window, tax_of}
use ssh_hunt.World.Auction.Listings.{
  too_cheap, stranger, poor, limited, listed, unbid, create_listing_lem,
}
use ssh_hunt.World.Auction.Buyout.{buyout_lem}

-- The tax on a negative price is negative, rounded towards zero.
tax_of_negative :
    (n : ℕ) → suc n ≤ 1000000000000000 → tax_of (negsuc n) ≡ sub_ℕ 0 (suc n * 300 / 10000)
unfolding wrap_i64 ◌*ℤ◌
tax_of_negative n small = ground arith

-- What the seller is credited.
proceeds_of_negative :
    (n : ℕ)
    → suc n ≤ 1000000000000000
    → let debt = suc n - suc n * 300 / 10000 in
      (negsuc n -ℤ tax_of (negsuc n) ≡ sub_ℕ 0 debt) × FitsI64 (sub_ℕ 0 debt)
unfolding ◌-ℤ◌
proceeds_of_negative n small = (rw (tax_of_negative n small) ground arith, ground arith)

-- Owing less than 10^15 after the fee cannot overflow.
fits_debt :
    (v : ℤ) (k : ℕ)
    → FitsI64 v
    → pos 10 ≤ℤ v
    → k ≤ 1000000000000000
    → (FitsI64 (v -ℤ pos 10 +ℤ sub_ℕ 0 k)) × (v -ℤ pos 10 +ℤ sub_ℕ 0 k ≡ v -ℤ pos (10 + k))
unfolding ◌-ℤ◌ ◌+ℤ◌
fits_debt v k fit fee small = ground arith

module _ (fresh now seller buyer : ℕ) (item_sku : Text) (qty : ℕ) (start_price : ℤ) (n : ℕ)
    (w : WorldState) (p b : PlayerProfile) where
  abbrev call : Result Text AuctionListing × WorldState
  call = create_listing fresh now seller item_sku qty start_price (some (negsuc n)) w

  abbrev debt : ℕ
  debt = suc n - suc n * 300 / 10000

  abbrev holding : ℤ → PlayerProfile → Option PlayerProfile
  holding amount q = some (record q { wallet = amount })

  -- A listing is accepted with a negative buyout price, and the first other player who buys it out
  -- is paid that amount: the seller is left without the fee and without the amount less three
  -- percent of it, even below zero. The wallets are within an `i64`, the seller has the fee, the
  -- start price is high enough and no rate limit holds.
  pub negative_buyout_pays :
      pos 25 ≤ℤ start_price
      → (listing_window now seller w).1 < 3
      → seller ≢ buyer
      → player_at seller w ≡ some p
      → player_at buyer w ≡ some b
      → pos 10 ≤ℤ p.wallet
      → pos 0 ≤ℤ b.wallet
      → FitsI64 p.wallet
      → FitsI64 (b.wallet -ℤ negsuc n)
      → suc n ≤ 1000000000000000
      → let (r, w1) =
          create_listing fresh now seller item_sku qty start_price (some (negsuc n)) w in
        let (r', w2) = buyout buyer fresh w1 in
        (r' ≡ ok tt)
        × (auction_at fresh w2 ≡ none)
        × (player_at buyer w2 ≡ some (record b { wallet = b.wallet -ℤ negsuc n }))
        × (player_at seller w2
            ≡ some (record p { wallet = p.wallet -ℤ pos (10 + (suc n - suc n * 300 / 10000)) }))
  negative_buyout_pays floor rate ne selling buying fee rich fit fit' small =
      let same_fit : (q : PlayerProfile) → player_at seller w ≡ some q → FitsI64 q.wallet =
        λ q e. (let same : q ≡ p = cc in rw same fit) in
      elim (create_listing_lem fresh now seller item_sku qty start_price (some (negsuc n)) w
        same_fit) [
          | too_cheap low e e' ↦ absurd (omega arith)
          | stranger high unknown e e' ↦ absurd (cc)
          | poor q high at_ few e e' ↦
              let same : p ≡ q = cc in
              let below : p.wallet <ℤ pos 10 = rw same few in absurd (omega arith)
          | limited q high at_ enough many e e' ↦ absurd (omega arith)
          | listed q high at_ enough few e there paid other_listings other_players rest ↦
              let same : q ≡ p = cc in
              let (fits, sum) = fits_debt p.wallet debt fit fee (omega arith) in
              let (credited, fits_proceeds) = proceeds_of_negative n small in
              let (r, gone, bought, sold, others) =
                buyout_lem buyer fresh call.1
                  (unbid fresh now seller item_sku qty start_price (some (negsuc n)) w) (negsuc n) b
                  there refl (other_players buyer ne ∙ buying)
                  (record p { wallet = p.wallet -ℤ pos 10 })
                  (paid ∙ ap (λ x. holding (x.wallet -ℤ pos 10) x) same) (λ e. ne (sym e))
                  (omega arith) fit' (rw credited fits_proceeds) (rw credited fits) in
              (
                r,
                gone,
                bought,
                sold
                    ∙ ap (λ x. holding (p.wallet -ℤ pos 10 +ℤ x) p) credited
                    ∙ ap (λ x. holding x p) sum,
              )
        ]
