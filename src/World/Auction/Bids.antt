-- ===== src/World/Auction/Bids.antt =====
-- Bids, and what holds of every listing.
use ssh_hunt.Base.{
  ℕ, ◌≤◌, ◌<◌, ◌≡◌, ◌≢◌, ◌⊎◌, inl, inr, refl, some, text, err, ok, lookup-insert, nat_key, arith,
  ==_iff,
}
use mathlib.Core.Option.{get_or}
use ssh_hunt.Base.Int.{ℤ, ◌≤ℤ◌, ◌<ℤ◌}
use ssh_hunt.World.State.{PlayerProfile, AuctionListingState, WorldState, player_at, auction_at}
use ssh_hunt.World.Auction.{place_bid, put_auction}

-- The least that the next bid must exceed.
abbrev pub to_beat : AuctionListingState → ℤ
to_beat a = get_or a.highest_bid a.listing.start_price

module _ (now bidder id : ℕ) (amount : ℤ) (w : WorldState) (p : PlayerProfile)
    (a : AuctionListingState) (known : player_at bidder w ≡ some p)
    (listed : auction_at id w ≡ some a) where
  abbrev pub with_bid : AuctionListingState
  with_bid = record a { highest_bid = some amount; highest_bidder = some bidder }

  pub outcome :
      ((now ≤ a.listing.expires_at)
        × (to_beat a <ℤ amount)
        × (amount ≤ℤ p.wallet)
        × (place_bid now bidder id amount w ≡ (ok tt, put_auction id with_bid w)))
      ⊎ ((a.listing.expires_at < now)
          × (place_bid now bidder id amount w ≡ (err (text "listing expired"), w)))
      ⊎ ((amount ≤ℤ to_beat a) × (place_bid now bidder id amount w ≡ (err (text "bid too low"), w)))
      ⊎ ((p.wallet <ℤ amount)
          × (place_bid now bidder id amount w ≡ (err (text "insufficient funds"), w)))
  unfolding place_bid
  outcome = ground arith

  -- A bid is taken if the listing has not expired, the bid is more than the highest one (or the start
  -- price), and the bidder has it. Then it stands as the highest, and no other listing and no wallet
  -- changes: the money is not set aside. Any other bid changes nothing.
  pub place_bid_lem :
      let (r, w') = place_bid now bidder id amount w in
      ((now ≤ a.listing.expires_at)
        × (to_beat a <ℤ amount)
        × (amount ≤ℤ p.wallet)
        × (r ≡ ok tt)
        × (auction_at id w' ≡ some with_bid)
        × ((j : ℕ) → id ≢ j → auction_at j w' ≡ auction_at j w)
        × (w'.players ≡ w.players))
      ⊎ ((a.listing.expires_at < now) × (r ≡ err (text "listing expired")) × (w' ≡ w))
      ⊎ ((amount ≤ℤ to_beat a) × (r ≡ err (text "bid too low")) × (w' ≡ w))
      ⊎ ((p.wallet <ℤ amount) × (r ≡ err (text "insufficient funds")) × (w' ≡ w))
  place_bid_lem = elim outcome [
    | inl (soon, high, rich, e) ↦ rw e (
        inl (
          soon,
          high,
          rich,
          refl,
          rw (lookup-insert id id with_bid w.auctions) ground (arith, ==_iff id id),
          (λ j ne. rw (lookup-insert id j with_bid w.auctions) ground (arith, ==_iff id j)),
          refl,
        ))
    | inr (inl (late, e)) ↦ rw e (inr (inl (late, refl, refl)))
    | inr (inr (inl (low, e))) ↦ rw e (inr (inr (inl (low, refl, refl))))
    | inr (inr (inr (poor, e))) ↦ rw e (inr (inr (inr (poor, refl, refl))))
  ]
