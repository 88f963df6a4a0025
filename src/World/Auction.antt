-- ===== src/World/Auction.antt =====
-- ssh-hunt/crates/world/src/lib.rs: `create_listing`, `place_bid` and `buyout` of `WorldService`.
-- `now` is what `Utc::now()` returns, `fresh` what `Uuid::new_v4()` returns.
pub mod Bids
pub mod Buyout
pub mod Debt
pub mod Market
pub mod Listings
use ssh_hunt.Base.Actions.{◌>>=◌, ◌>>◌}
use ssh_hunt.Base.{
  ℕ, suc, ◌+◌, ◌-◌, ◌*◌, Bool, Option, none, some, Text, text, lookup, insert, remove, nat_key,
  ok_or, unwrap_or, Result, pure, raise_if, query, gets, modify, ltb, leb, if◌then◌else◌,
}
use mathlib.Core.Option.{get_or}
use ssh_hunt.Base.Int.{ℤ, pos, ◌+ℤ◌, ◌-ℤ◌, ◌*ℤ◌, ltb_ℤ, leb_ℤ}
use ssh_hunt.Base.Machine.{wrap_i64, quotient}
use ssh_hunt.World.State.{
  PlayerProfile, AuctionListing, AuctionListingState, WorldState, Method, second, player_at,
  auction_at, find_player, update_player,
}

abbrev pub min_price_floor : ℤ
min_price_floor = pos 25

abbrev pub listing_fee : ℤ
listing_fee = pos 10

abbrev pub max_listings_per_30_s : ℕ
max_listings_per_30_s = 3

-- The seller's window with its count, a new one when there is none or it is over.
unfoldable pub listing_window : ℕ → ℕ → WorldState → ℕ × ℕ
listing_window now seller w = elim (lookup seller w.listing_count_window) [
  | none ↦ (now, 0)
  | some (from, count) ↦ if ltb (30 * second) (now - from) then (now, 0) else (from, count)
]

abbrev pub put_window : ℕ → ℕ × ℕ → WorldState → WorldState
put_window seller window w = record w {
  listing_count_window = insert seller window w.listing_count_window;
}

abbrev pub charge : ℤ → PlayerProfile → PlayerProfile
charge amount p = record p { wallet = wrap_i64 (p.wallet -ℤ amount) }

abbrev pub credit : ℤ → PlayerProfile → PlayerProfile
credit amount p = record p { wallet = wrap_i64 (p.wallet +ℤ amount) }

abbrev pub put_auction : ℕ → AuctionListingState → WorldState → WorldState
put_auction id a w = record w { auctions = insert id a w.auctions }

abbrev pub new_listing : ℕ → ℕ → ℕ → Text → ℕ → ℤ → Option ℤ → AuctionListing
new_listing fresh now seller item_sku qty start_price buyout = record {
  listing_id = fresh;
  seller_id = seller;
  item_sku = item_sku;
  qty = qty;
  start_price = start_price;
  buyout_price = buyout;
  expires_at = now + 43200 * second;
}

unfoldable pub create_listing : ℕ → ℕ → ℕ → Text → ℕ → ℤ → Option ℤ → Method AuctionListing
unfolding listing_window
create_listing fresh now seller item_sku qty start_price buyout = do
  raise_if (ltb_ℤ start_price min_price_floor) (text "price below floor")
  player ← find_player seller (text "unknown player")
  raise_if (ltb_ℤ player.wallet listing_fee) (text "insufficient funds for listing fee")
  window ← gets (listing_window now seller)
  modify (put_window seller window)
  raise_if (leb max_listings_per_30_s window.1) (text "listing rate limit exceeded")
  modify (put_window seller (window.0, suc window.1))
  modify (update_player seller (charge listing_fee))
  let listing = new_listing fresh now seller item_sku qty start_price buyout
  modify (
      put_auction fresh
        (record { listing = listing; highest_bid = none; highest_bidder = none; created_at = now }))
  pure listing

unfoldable pub place_bid : ℕ → ℕ → ℕ → ℤ → Method (Unit {0})
place_bid now bidder listing_id amount = do
  player ← find_player bidder (text "unknown bidder")
  listing ← query (λ w. ok_or (auction_at listing_id w) (text "listing not found"))
  raise_if (ltb listing.listing.expires_at now) (text "listing expired")
  raise_if (leb_ℤ amount (get_or listing.highest_bid listing.listing.start_price))
      (text "bid too low")
  raise_if (ltb_ℤ player.wallet amount) (text "insufficient funds")
  modify (
      put_auction listing_id
        (record listing { highest_bid = some amount; highest_bidder = some bidder }))

-- `buyout * TAX_BPS / 10_000`
abbrev pub tax_of : ℤ → ℤ
tax_of price = quotient (wrap_i64 (price *ℤ pos 300)) 10000

unfoldable pub buyout : ℕ → ℕ → Method (Unit {0})
buyout buyer listing_id = do
  listing ← query (λ w. ok_or (auction_at listing_id w) (text "listing not found"))
  price ← query (λ w. ok_or listing.listing.buyout_price (text "listing has no buyout"))
  player ← find_player buyer (text "unknown buyer")
  raise_if (ltb_ℤ player.wallet price) (text "insufficient funds")
  modify (λ w. record w { auctions = remove listing_id w.auctions })
  modify (update_player buyer (charge price))
  modify (update_player listing.listing.seller_id (credit (wrap_i64 (price -ℤ tax_of price))))
