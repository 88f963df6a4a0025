-- ===== src/World/Auction/Market.antt =====
-- What every listing of the market satisfies, whatever is called.
use ssh_hunt.Base.{
  ℕ, ◌≡◌, ◌⊎◌, inl, inr, refl, sym, ◌∙◌, Bool, true, false, none, some, Option, List, [], ◌∷◌, Text,
  Dict, lookup, insert, remove, lookup-insert, lookup-remove, nat_key, arith, if◌then◌else◌, ◌==◌,
  Option-cases,
}
use mathlib.Core.Option.{some-injective}
use ssh_hunt.Base.Int.{ℤ, ◌≤ℤ◌, ◌<ℤ◌}
use ssh_hunt.World.State.{AuctionListingState, WorldState, player_at, auction_at}
use ssh_hunt.World.Auction.{place_bid, create_listing, buyout, min_price_floor, listing_window}
use ssh_hunt.World.Auction.Listings.{unbid}
use ssh_hunt.World.Auction.Bids.{to_beat, outcome}

-- The start price is at the floor, and a bid, which has a bidder, is above the start price.
pub record IsOffer (a : AuctionListingState) : Type 0 where
  pub floor : min_price_floor ≤ℤ a.listing.start_price
  pub bids :
      ((a.highest_bid ≡ none) × (a.highest_bidder ≡ none))
      ⊎ ((x : ℤ) × (k : ℕ) × (a.highest_bid ≡ some x)
          × (a.highest_bidder ≡ some k)
          × (a.listing.start_price <ℤ x))

abbrev pub IsMarket : Dict ℕ AuctionListingState → Type 0
IsMarket m = (id : ℕ) (a : AuctionListingState) → lookup id m ≡ some a → IsOffer a

insert-IsMarket :
    (id : ℕ) (a : AuctionListingState) (m : Dict ℕ AuctionListingState)
    → IsOffer a
    → IsMarket m
    → IsMarket (insert id a m)
insert-IsMarket id a m offer ok_m j b at = go (id == j) (sym (lookup-insert id j a m) ∙ at)
  where
    go : (t : Bool) → (if t then some a else lookup j m) ≡ some b → IsOffer b
    go true e = rw (sym (some-injective a b e)) offer
    go false e = ok_m j b e

remove-IsMarket : (id : ℕ) (m : Dict ℕ AuctionListingState) → IsMarket m → IsMarket (remove id m)
remove-IsMarket id m ok_m j b at = go (j == id) (sym (lookup-remove id j m) ∙ at)
  where
    go : (t : Bool) → (if t then none else lookup j m) ≡ some b → IsOffer b
    go true e = absurd (cc)
    go false e = ok_m j b e

module _ (w : WorldState) (market : IsMarket w.auctions) where
  buyout_auctions :
      (buyer id : ℕ)
      → ((buyout buyer id w).1.auctions ≡ w.auctions)
        ⊎ ((buyout buyer id w).1.auctions ≡ remove id w.auctions)
  unfolding buyout
  buyout_auctions buyer id = ground arith

  create_listing_auctions :
      (fresh now seller : ℕ) (item_sku : Text) (qty : ℕ) (start_price : ℤ) (price : Option ℤ)
      → let w' = (create_listing fresh now seller item_sku qty start_price price w).1 in
        (w'.auctions ≡ w.auctions)
        ⊎ ((min_price_floor ≤ℤ start_price)
            × (w'.auctions
                ≡ insert fresh
                    (unbid fresh now seller item_sku qty start_price price w)
                    w.auctions))
  unfolding create_listing listing_window
  create_listing_auctions fresh now seller item_sku qty start_price price = ground arith

  pub buyout-IsMarket : (buyer id : ℕ) → IsMarket (buyout buyer id w).1.auctions
  buyout-IsMarket buyer id = elim (buyout_auctions buyer id) [
    | inl e ↦ rw e market
    | inr e ↦ rw e (remove-IsMarket id w.auctions market)
  ]

  pub create_listing-IsMarket :
      (fresh now seller : ℕ) (item_sku : Text) (qty : ℕ) (start_price : ℤ) (price : Option ℤ)
      → IsMarket (create_listing fresh now seller item_sku qty start_price price w).1.auctions
  create_listing-IsMarket fresh now seller item_sku qty start_price price =
      elim (create_listing_auctions fresh now seller item_sku qty start_price price) [
        | inl e ↦ rw e market
        | inr (floor, e) ↦ rw e (
            insert-IsMarket fresh (unbid fresh now seller item_sku qty start_price price w)
              w.auctions (record { floor = floor; bids = inl (refl, refl) }) market)
      ]

  bid-IsOffer :
      (bidder : ℕ) (amount : ℤ) (a : AuctionListingState)
      → IsOffer a
      → to_beat a <ℤ amount
      → IsOffer (record a { highest_bid = some amount; highest_bidder = some bidder })
  bid-IsOffer bidder amount a o high = record {
    floor = o.floor;
    bids = inr (
      amount,
      bidder,
      refl,
      refl,
      elim o.bids [ inl (free, _) ↦ ground arith | inr (x, k, bid, _, more) ↦ ground arith ],
    );
  }

  unlisted :
      (now bidder id : ℕ) (amount : ℤ)
      → (player_at bidder w ≡ none) ⊎ (auction_at id w ≡ none)
      → (place_bid now bidder id amount w).1 ≡ w
  unfolding place_bid
  unlisted now bidder id amount missing = ground arith

  pub place_bid-IsMarket :
      (now bidder id : ℕ) (amount : ℤ) → IsMarket (place_bid now bidder id amount w).1.auctions
  place_bid-IsMarket now bidder id amount = elim (Option-cases (player_at bidder w)) [
    | inl e ↦ rw (unlisted now bidder id amount (inl e)) market
    | inr (p, known) ↦ elim (Option-cases (auction_at id w)) [
      | inl e ↦ rw (unlisted now bidder id amount (inr e)) market
      | inr (a, listed) ↦ elim (outcome now bidder id amount w p a known listed) [
        | inl (_, high, _, e) ↦ rw e (
            insert-IsMarket id _ w.auctions (bid-IsOffer bidder amount a (market id a listed) high)
              market)
        | inr (inl (_, e)) ↦ rw e market
        | inr (inr (inl (_, e))) ↦ rw e market
        | inr (inr (inr (_, e))) ↦ rw e market
      ]
    ]
  ]

-- What the market is asked.
pub data Deal : Type 0 where
  listing :
      (fresh now seller : ℕ) (item_sku : Text) (qty : ℕ) (start_price : ℤ) (price : Option ℤ) → Deal
  bidding : (now bidder id : ℕ) (amount : ℤ) → Deal
  buying : (buyer id : ℕ) → Deal

unfoldable pub deal : Deal → WorldState → WorldState
deal (listing fresh now seller item_sku qty start_price price) w =
    (create_listing fresh now seller item_sku qty start_price price w).1
deal (bidding now bidder id amount) w = (place_bid now bidder id amount w).1
deal (buying buyer id) w = (buyout buyer id w).1

unfoldable pub deal_all : List Deal → WorldState → WorldState
unfolding deal
deal_all [] w = w
deal_all (d ∷ ds) w = deal_all ds (deal d w)

deal-IsMarket : (d : Deal) (w : WorldState) → IsMarket w.auctions → IsMarket (deal d w).auctions
unfolding deal
deal-IsMarket (listing fresh now seller item_sku qty start_price price) w market =
    create_listing-IsMarket w market fresh now seller item_sku qty start_price price
deal-IsMarket (bidding now bidder id amount) w market =
    place_bid-IsMarket w market now bidder id amount
deal-IsMarket (buying buyer id) w market = buyout-IsMarket w market buyer id

-- Any calls of `create_listing`, `place_bid` and `buyout`, failed ones included, keep this of a
-- market: each start price is 25 or more, and a listing either has no bid and no bidder, or has
-- both, with the bid above the start price.
pub deal_all-IsMarket :
    (ds : List Deal) (w : WorldState) → IsMarket w.auctions → IsMarket (deal_all ds w).auctions
unfolding deal_all
deal_all-IsMarket [] w market = market
deal_all-IsMarket (d ∷ ds) w market = deal_all-IsMarket ds (deal d w) (deal-IsMarket d w market)
