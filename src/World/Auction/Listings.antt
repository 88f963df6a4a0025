-- ===== src/World/Auction/Listings.antt =====
-- What `create_listing` does, and how many listings a window lets through.
use ssh_hunt.Base.{
  ℕ, suc, leb, inl, inr, true, false, text, Bool-cases, Option-cases, lookup-insert_same, All, ◌*◌,
  ◌+◌, ◌≤◌, ◌<◌, ◌≡◌, ◌≢◌, refl, ◌∙◌, none, some, Option, List, [], ◌∷◌, Text, err, ok, Result,
  lookup, insert, adjust, lookup-insert, lookup-adjust, lookup-adjust_other, nat_key, arith, ==_iff,
  if◌then◌else◌, ◌==◌,
}
use ssh_hunt.Base.Int.{ℤ, pos, ltb_ℤ, ◌-ℤ◌, ◌≤ℤ◌, ◌<ℤ◌}
use ssh_hunt.Base.Machine.{FitsI64, wrap_i64_fits, fits_paid}
use ssh_hunt.World.State.{
  PlayerProfile, AuctionListing, AuctionListingState, WorldState, player_at, auction_at, second,
}
use ssh_hunt.World.Auction.{create_listing, listing_window, charge, listing_fee}

module _ (fresh now seller : ℕ) (item_sku : Text) (qty : ℕ) (start_price : ℤ) (buyout : Option ℤ)
    (w : WorldState) where
  -- The listing that the arguments ask for: it ends twelve hours from now.
  abbrev pub asked_for : AuctionListing
  asked_for = record {
    listing_id = fresh;
    seller_id = seller;
    item_sku = item_sku;
    qty = qty;
    start_price = start_price;
    buyout_price = buyout;
    expires_at = now + 12 * 60 * 60 * 1000000000;
  }

  abbrev pub unbid : AuctionListingState
  unbid = record {
    listing = asked_for;
    highest_bid = none;
    highest_bidder = none;
    created_at = now;
  }

  -- What becomes of a call, in the order of the tests.
  pub data Outcome (r : Result Text AuctionListing) (w' : WorldState) : Type 0 where
    too_cheap : start_price <ℤ pos 25 → r ≡ err (text "price below floor") → w' ≡ w → Outcome r w'
    stranger :
        pos 25 ≤ℤ start_price
        → player_at seller w ≡ none
        → r ≡ err (text "unknown player")
        → w' ≡ w
        → Outcome r w'
    poor :
        (p : PlayerProfile)
        → pos 25 ≤ℤ start_price
        → player_at seller w ≡ some p
        → p.wallet <ℤ pos 10
        → r ≡ err (text "insufficient funds for listing fee")
        → w' ≡ w
        → Outcome r w'
    limited :
        (p : PlayerProfile)
        → pos 25 ≤ℤ start_price
        → player_at seller w ≡ some p
        → pos 10 ≤ℤ p.wallet
        → 3 ≤ (listing_window now seller w).1
        → r ≡ err (text "listing rate limit exceeded")
        → record w' { listing_count_window = w.listing_count_window } ≡ w
        → Outcome r w'
    listed :
        (p : PlayerProfile)
        → pos 25 ≤ℤ start_price
        → player_at seller w ≡ some p
        → pos 10 ≤ℤ p.wallet
        → (listing_window now seller w).1 < 3
        → r ≡ ok asked_for
        → auction_at fresh w' ≡ some unbid
        → player_at seller w' ≡ some (record p { wallet = p.wallet -ℤ pos 10 })
        → ((id : ℕ) → fresh ≢ id → auction_at id w' ≡ auction_at id w)
        → ((j : ℕ) → seller ≢ j → player_at j w' ≡ player_at j w)
        → record w' {
          players = w.players;
          auctions = w.auctions;
          listing_count_window = w.listing_count_window;
        }
          ≡ w
        → Outcome r w'

  abbrev answer : Result Text AuctionListing × WorldState
  answer = create_listing fresh now seller item_sku qty start_price buyout w

  floor_fails : ltb_ℤ start_price (pos 25) ≡ true → answer ≡ (err (text "price below floor"), w)
  unfolding create_listing
  floor_fails e = ground (arith, e)

  module _ (floor : ltb_ℤ start_price (pos 25) ≡ false) where
    seller_fails : player_at seller w ≡ none → answer ≡ (err (text "unknown player"), w)
    unfolding create_listing
    seller_fails e = ground (arith, floor, e)

    module _ (p : PlayerProfile) (known : player_at seller w ≡ some p) where
      funds_fail :
          ltb_ℤ p.wallet (pos 10) ≡ true
          → answer ≡ (err (text "insufficient funds for listing fee"), w)
      unfolding create_listing
      funds_fail e = ground (arith, floor, known, e)

      abbrev windowed : WorldState
      unfolding listing_window
      windowed = record w {
        listing_count_window = insert seller (listing_window now seller w) w.listing_count_window;
      }

      rate_fails :
          ltb_ℤ p.wallet (pos 10) ≡ false
          → leb 3 (listing_window now seller w).1 ≡ true
          → answer ≡ (err (text "listing rate limit exceeded"), windowed)
      unfolding create_listing
      rate_fails fee e = ground (arith, floor, known, fee, e)

      abbrev after : WorldState
      unfolding listing_window
      after = record w {
        listing_count_window =
            insert seller ((listing_window now seller w).0, suc (listing_window now seller w).1)
              (insert seller (listing_window now seller w) w.listing_count_window);
        players = adjust seller (charge listing_fee) w.players;
        auctions = insert fresh unbid w.auctions;
      }

      runs :
          ltb_ℤ p.wallet (pos 10) ≡ false
          → leb 3 (listing_window now seller w).1 ≡ false
          → answer ≡ (ok asked_for, after)
      unfolding create_listing
      runs fee rate = ground (arith, floor, known, fee, rate)

      charged :
          FitsI64 p.wallet
          → pos 10 ≤ℤ p.wallet
          → lookup seller (adjust seller (charge listing_fee) w.players)
            ≡ some (record p { wallet = p.wallet -ℤ pos 10 })
      charged fit fee =
          lookup-adjust seller (charge listing_fee) w.players known
          ∙ rw
              (wrap_i64_fits (p.wallet -ℤ listing_fee)
                (fits_paid p.wallet listing_fee fit fee (omega arith)))
              refl

      known-Outcome : FitsI64 p.wallet → Outcome answer.0 answer.1
      unfolding listing_window
      known-Outcome fit = elim (Bool-cases (ltb_ℤ p.wallet (pos 10))) [
        | inl few ↦
            rw (funds_fail few)
              (poor p (ground (arith, floor)) known (ground (arith, few)) refl refl)
        | inr fee ↦ elim (Bool-cases (leb 3 (listing_window now seller w).1)) [
          | inl many ↦ rw (rate_fails fee many) (
              limited p (ground (arith, floor)) known (ground (arith, fee)) (ground (arith, many))
                refl refl)
          | inr rate ↦ rw (runs fee rate) (
              listed p (ground (arith, floor)) known (ground (arith, fee)) (ground (arith, rate))
                refl (lookup-insert_same fresh unbid w.auctions) (charged fit (ground (arith, fee)))
                (λ id ne.
                  rw (lookup-insert fresh id unbid w.auctions) ground (arith, ==_iff fresh id))
                (λ j ne. lookup-adjust_other seller j (charge listing_fee) w.players ne) refl)
        ]
      ]

  -- A start price below 25 is refused, then an unknown seller, then one without 10 for the fee, and none
  -- of these changes anything; then a seller with three listings in the window, where only the window
  -- may change. Otherwise the listing with the arguments of the call, whatever its buyout price, stands
  -- for twelve hours without a bid, the seller has paid 10, and no other listing or player and nothing
  -- else but the windows changes. The seller's wallet is within an `i64`.
  pub create_listing_lem :
      ((p : PlayerProfile) → player_at seller w ≡ some p → FitsI64 p.wallet)
      → let (r, w') = create_listing fresh now seller item_sku qty start_price buyout w in
        Outcome r w'
  create_listing_lem fit = elim (Bool-cases (ltb_ℤ start_price (pos 25))) [
    | inl low ↦ rw (floor_fails low) (too_cheap (ground (arith, low)) refl refl)
    | inr floor ↦ elim (Option-cases (player_at seller w)) [
      | inl e ↦ rw (seller_fails floor e) (stranger (ground (arith, floor)) e refl refl)
      | inr (p, e) ↦ known-Outcome floor p e (fit p e)
    ]
  ]

-- A call of `create_listing`: the identifier and the instant it gets, and its arguments.
pub record Call : Type 0 where
  pub fresh : ℕ
  pub now : ℕ
  pub seller : ℕ
  pub item_sku : Text
  pub qty : ℕ
  pub start_price : ℤ
  pub buyout : Option ℤ

unfoldable pub make : Call → WorldState → Result Text AuctionListing × WorldState
make c = create_listing c.fresh c.now c.seller c.item_sku c.qty c.start_price c.buyout

abbrev pub made : ℕ → Call → Result Text AuctionListing → ℕ
made seller c (ok l) = if c.seller == seller then 1 else 0
made seller c (err e) = 0

-- How many listings of the seller a sequence of calls creates.
unfoldable pub count_made : ℕ → List Call → WorldState → ℕ
unfolding make
count_made seller [] w = 0
count_made seller (c ∷ cs) w = let (r, w') = make c w in made seller c r + count_made seller cs w'

module _ (seller from : ℕ) where
  -- The seller's window started at `from`, with a count of at most three.
  abbrev InWindow : ℕ → WorldState → Type 0
  InWindow count w = (lookup seller w.listing_count_window ≡ some (from, count)) × (count ≤ 3)

  -- A call 30 seconds or less after the start of the seller's window counts one more in it, if it
  -- succeeds, and never more than three.
  one_call :
      (c : Call) (w : WorldState) (count : ℕ)
      → InWindow count w
      → c.now ≤ from + 30 * second
      → let (r, w') = make c w in InWindow (made seller c r + count) w'
  unfolding make create_listing listing_window
  one_call c w count (at_, le) soon =
      let win = listing_window c.now c.seller w in
      let m = w.listing_count_window in
      ground (
        arith,
        lookup-insert c.seller seller win m,
        lookup-insert c.seller seller (win.0, suc win.1) (insert c.seller win m),
        ==_iff c.seller seller,
      )

  -- However many calls of `create_listing` come, by any sellers, at most three listings of a seller
  -- are created until 30 seconds after the start of the seller's window.
  pub at_most_three :
      (cs : List Call) (w : WorldState) (count : ℕ)
      → InWindow count w
      → All (λ c. c.now ≤ from + 30 * second) cs
      → count_made seller cs w + count ≤ 3
  unfolding count_made
  at_most_three [] w count inside soon = omega arith
  at_most_three (c ∷ cs) w count inside soon =
      let rest =
        at_most_three cs (make c w).1 (made seller c (make c w).0 + count)
          (one_call c w count inside soon.0) soon.1 in
      omega arith
