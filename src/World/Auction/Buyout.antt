-- ===== src/World/Auction/Buyout.antt =====
-- A purchase at the buyout price, and where the money goes.
use ssh_hunt.Base.{
  ℕ, ◌≡◌, ◌≢◌, refl, ◌∙◌, sym, true, false, none, some, text, err, ok, remove, adjust,
  lookup-remove, lookup-adjust, lookup-adjust_other, nat_key, arith, ==_iff,
}
use ssh_hunt.Base.Int.{ℤ, ◌+ℤ◌, ◌-ℤ◌, ◌≤ℤ◌, ltb_ℤ}
use ssh_hunt.Base.Machine.{FitsI64, wrap_i64, wrap_i64_fits}
use ssh_hunt.World.State.{PlayerProfile, AuctionListingState, WorldState, player_at, auction_at}
use ssh_hunt.World.Auction.{buyout, charge, credit, tax_of}

module _ (buyer id : ℕ) (w : WorldState) (a : AuctionListingState) (price : ℤ) (b : PlayerProfile)
    (listed : auction_at id w ≡ some a) (priced : a.listing.buyout_price ≡ some price)
    (known : player_at buyer w ≡ some b) where
  abbrev seller : ℕ
  seller = a.listing.seller_id

  abbrev proceeds : ℤ
  proceeds = price -ℤ tax_of price

  abbrev after : WorldState
  after = record w {
    auctions = remove id w.auctions;
    players = adjust seller (credit (wrap_i64 proceeds)) (adjust buyer (charge price) w.players);
  }

  runs : ltb_ℤ b.wallet price ≡ false → buyout buyer id w ≡ (ok tt, after)
  unfolding buyout
  runs can = ground arith

  pub buyout_unaffordable :
      ltb_ℤ b.wallet price ≡ true → buyout buyer id w ≡ (err (text "insufficient funds"), w)
  unfolding buyout
  buyout_unaffordable can = ground arith

  -- A buyer who has the price of another player's listing gets it: the listing is gone, the buyer
  -- pays the price, the seller receives it less the tax, and no other player changes.
  pub buyout_lem :
      (s : PlayerProfile)
      → player_at seller w ≡ some s
      → buyer ≢ seller
      → price ≤ℤ b.wallet
      → FitsI64 (b.wallet -ℤ price)
      → FitsI64 proceeds
      → FitsI64 (s.wallet +ℤ proceeds)
      → let (r, w') = buyout buyer id w in
        (r ≡ ok tt)
        × (auction_at id w' ≡ none)
        × (player_at buyer w' ≡ some (record b { wallet = b.wallet -ℤ price }))
        × (player_at seller w' ≡ some (record s { wallet = s.wallet +ℤ proceeds }))
        × ((j : ℕ) → buyer ≢ j → seller ≢ j → player_at j w' ≡ player_at j w)
  buyout_lem s sells ne can fit1 fit2 fit3 = rw (runs (ground arith)) (
    refl,
    rw (lookup-remove id id w.auctions) ground (arith, ==_iff id id),
    lookup-adjust_other seller buyer (credit (wrap_i64 proceeds))
          (adjust buyer (charge price) w.players) (λ e. ne (sym e))
        ∙ lookup-adjust buyer (charge price) w.players known
        ∙ rw (wrap_i64_fits (b.wallet -ℤ price) fit1) refl,
    lookup-adjust seller (credit (wrap_i64 proceeds)) (adjust buyer (charge price) w.players)
          (lookup-adjust_other buyer seller (charge price) w.players ne ∙ sells)
        ∙ rw (wrap_i64_fits proceeds fit2, wrap_i64_fits (s.wallet +ℤ proceeds) fit3) refl,
    λ j nb ns.
        lookup-adjust_other seller j (credit (wrap_i64 proceeds))
          (adjust buyer (charge price) w.players) ns
        ∙ lookup-adjust_other buyer j (charge price) w.players nb,
  )
