-- ===== src/World/Tests.antt =====
-- Runs of the world on small states, and the theorems at an input.
pub mod Players
pub mod Hacks
use ssh_hunt.Base.{
  text_eq, false, ◌++◌, All, has_key, text_key, ℕ, min, ◌+◌, ◌*◌, ◌≤◌, ◌<◌, ◌≡◌, ◌≢◌, ◌⊎◌, inl, inr,
  refl, true, none, some, List, [], ◌∷◌, text, lookup, ok, err, arith, insert, adjust, remove,
  pair_key, nat_key,
}
use ssh_hunt.Base.Int.{ℤ, pos, negsuc, ◌-ℤ◌, ◌+ℤ◌, ◌*ℤ◌, ◌≤ℤ◌, ◌<ℤ◌}
use ssh_hunt.Base.Machine.{FitsI64, wrap_i64, wrap_i32}
use ssh_hunt.Base.Decimal.{show_int}
use ssh_hunt.World.State.{
  PlayerProfile, AuctionListing, AuctionListingState, DuelState, WorldState, new_player, player_at,
  auction_at, duel_at, second,
}
use ssh_hunt.World.Auction.{
  create_listing, place_bid, buyout, listing_fee, tax_of, new_listing, listing_window,
}
use ssh_hunt.World.Auction.Listings.{Outcome, create_listing_lem, at_most_three, Call, count_made}
use ssh_hunt.World.Auction.Bids.{place_bid_lem, to_beat}
use ssh_hunt.World.Auction.Buyout.{buyout_lem}
use ssh_hunt.World.Auction.Debt.{negative_buyout_pays}
use ssh_hunt.World.Auction.Market.{
  IsMarket, Deal, listing, bidding, buying, deal_all, deal_all-IsMarket,
}
use ssh_hunt.World.Daily.{claim_daily_reward}
use ssh_hunt.World.Daily.Streaks.{once_a_day, nth_reward, claim_days}
use ssh_hunt.Base.Sets.{member, insert_once}
use ssh_hunt.World.State.{net_city, redline}
use ssh_hunt.World.NetCity.{
  mode_switch, transition, keys_vault, can_access_netcity, has_starter, is_offered,
}
use ssh_hunt.World.NetCity.Gate.{may_enter, refusal, net_city_gate}
use ssh_hunt.World.State.{MissionDefinition}
use ssh_hunt.World.Missions.{complete_mission, letters_for, reward_of}
use ssh_hunt.World.Missions.Letters.{triggers}
use ssh_hunt.World.Missions.Completion.{
  IsDone, IsNew, complete_mission_lem, complete_mission_unstored,
}
use ssh_hunt.World.Duel.{attack, script, duel_action, new_duel, win, lose, byte_length}
use ssh_hunt.World.Duel.Endings.{winner_takes, IsBeaten}
use ssh_hunt.World.Duel.Length.{Move, IsStrike, play, strikes_end}

neo : PlayerProfile
unfolding new_player
neo = new_player 1 (text "0123456789") (text "neo") (text "::1")

trinity : PlayerProfile
unfolding new_player
trinity = new_player 2 (text "9876543210") (text "trinity") (text "::1")

abbrev empty : WorldState
empty = record {
  players = (1, neo) ∷ (2, trinity) ∷ [];
  players_by_username = [];
  missions = [];
  npcs = [];
  npc_combat = [];
  npc_duels = [];
  history = [];
  auctions = [];
  chats = [];
  events = [];
  duels = [];
  daily_claimed = [];
  listing_count_window = [];
}

abbrev offer : ℤ → AuctionListingState
offer price = record {
  listing = new_listing 7 0 2 (text "script.basic") 1 (pos 50) (some price);
  highest_bid = none;
  highest_bidder = none;
  created_at = 0;
}

abbrev market : ℤ → WorldState
market price = record empty { auctions = (7, offer price) ∷ [] }

listed : (price : ℤ) → auction_at 7 (market price) ≡ some (offer price)
unfolding lookup
listed price = refl

neo_there : (price : ℤ) → player_at 1 (market price) ≡ some neo
unfolding lookup
neo_there price = refl

trinity_there : (price : ℤ) → player_at 2 (market price) ≡ some trinity
unfolding lookup
trinity_there price = refl

-- What a sale at 200 leaves in the wallets.
sale : WorldState
unfolding buyout lookup adjust insert remove neo trinity wrap_i64 ◌-ℤ◌ ◌+ℤ◌ ◌*ℤ◌
sale = (buyout 1 7 (market (pos 200))).1

sold :
    (player_at 1 sale ≡ some (record neo { wallet = pos 300 }))
    × (player_at 2 sale ≡ some (record trinity { wallet = pos 694 }))
unfolding sale
sold = (refl, refl)

-- The witnesses.
buyout_lem_example :
    let (r, w') = buyout 1 7 (market (pos 200)) in
    (r ≡ ok tt)
    × (auction_at 7 w' ≡ none)
    × (player_at 1 w' ≡ some (record neo { wallet = neo.wallet -ℤ pos 200 }))
    × (player_at 2 w'
        ≡ some (record trinity { wallet = trinity.wallet +ℤ (pos 200 -ℤ tax_of (pos 200)) }))
    × ((j : ℕ) → 1 ≢ j → 2 ≢ j → player_at j w' ≡ player_at j (market (pos 200)))
unfolding neo trinity wrap_i64 ◌-ℤ◌ ◌+ℤ◌ ◌*ℤ◌
buyout_lem_example =
    buyout_lem 1 7 (market (pos 200)) (offer (pos 200)) (pos 200) neo (listed (pos 200)) refl
      (neo_there (pos 200)) trinity (trinity_there (pos 200)) (omega arith) (omega arith)
      (omega arith) (omega arith) (omega arith)

negative_buyout_pays_example :
    let (r, w1) = create_listing 9 4 2 (text "script.fast") 1 (pos 40) (some (negsuc 999)) empty in
    let (r', w2) = buyout 1 9 w1 in
    (r' ≡ ok tt)
    × (auction_at 9 w2 ≡ none)
    × (player_at 1 w2 ≡ some (record neo { wallet = neo.wallet -ℤ negsuc 999 }))
    × (player_at 2 w2 ≡ some (record trinity { wallet = trinity.wallet -ℤ pos 980 }))
unfolding listing_window lookup neo trinity ◌-ℤ◌
negative_buyout_pays_example =
    negative_buyout_pays 9 4 2 1 (text "script.fast") 1 (pos 40) 999 empty trinity neo (omega arith)
      (omega arith) (omega arith) refl refl (omega arith) (omega arith) (omega arith) (omega arith)
      (omega arith)

place_bid_lem_example :
    let w = market (pos 200) in
    let a = offer (pos 200) in
    let (r, w') = place_bid 5 1 7 (pos 80) w in
    ((5 ≤ a.listing.expires_at)
      × (to_beat a <ℤ pos 80)
      × (pos 80 ≤ℤ neo.wallet)
      × (r ≡ ok tt)
      × (auction_at 7 w' ≡ some (record a { highest_bid = some (pos 80); highest_bidder = some 1 }))
      × ((j : ℕ) → 7 ≢ j → auction_at j w' ≡ auction_at j w)
      × (w'.players ≡ w.players))
    ⊎ ((a.listing.expires_at < 5) × (r ≡ err (text "listing expired")) × (w' ≡ w))
    ⊎ ((pos 80 ≤ℤ to_beat a) × (r ≡ err (text "bid too low")) × (w' ≡ w))
    ⊎ ((neo.wallet <ℤ pos 80) × (r ≡ err (text "insufficient funds")) × (w' ≡ w))
place_bid_lem_example =
    place_bid_lem 5 1 7 (pos 80) (market (pos 200)) neo (offer (pos 200)) (neo_there (pos 200))
      (listed (pos 200))

trinity_fits : (p : PlayerProfile) → player_at 2 (market (pos 200)) ≡ some p → FitsI64 p.wallet
unfolding trinity
trinity_fits p e =
    let there : player_at 2 (market (pos 200)) ≡ some trinity = trinity_there (pos 200) in
    let same : p ≡ trinity = cc in rw same (omega arith)

create_listing_lem_example :
    let w = market (pos 200) in
    let (r, w') = create_listing 9 4 2 (text "script.fast") 1 (pos 40) none w in
    Outcome 9 4 2 (text "script.fast") 1 (pos 40) none w r w'
create_listing_lem_example =
    create_listing_lem 9 4 2 (text "script.fast") 1 (pos 40) none (market (pos 200)) trinity_fits

abbrev call : ℕ → ℕ → Call
call fresh now = record {
  fresh = fresh;
  now = now;
  seller = 2;
  item_sku = text "script.basic";
  qty = 1;
  start_price = pos 30;
  buyout = none;
}

abbrev calls : List Call
calls = call 11 1 ∷ call 12 2 ∷ call 13 3 ∷ call 14 4 ∷ []

abbrev opened : WorldState
opened = record empty { listing_count_window = (2, (1, 0)) ∷ [] }

opened_window : lookup 2 opened.listing_count_window ≡ some (1, 0)
unfolding lookup
opened_window = refl

at_most_three_example : count_made 2 calls opened + 0 ≤ 3
at_most_three_example =
    at_most_three 2 1 calls opened 0 (opened_window, omega arith)
      (omega arith, (omega arith, (omega arith, (omega arith, tt))))

empty-IsMarket : IsMarket empty.auctions
unfolding lookup
empty-IsMarket id a at = absurd (cc)

abbrev deals : List Deal
deals =
    listing 7 0 2 (text "script.basic") 1 (pos 50) (some (pos 90))
    ∷ bidding 1 1 7 (pos 60)
    ∷ buying 1 7
    ∷ []

deal_all-IsMarket_example : IsMarket (deal_all deals empty).auctions
deal_all-IsMarket_example = deal_all-IsMarket deals empty empty-IsMarket

neo_here : player_at 1 empty ≡ some neo
unfolding lookup
neo_here = refl

once_a_day_example :
    let w' = (claim_daily_reward 1 5 empty).1 in claim_daily_reward 1 6 w' ≡ (ok (pos 0), w')
once_a_day_example = once_a_day 1 5 empty neo 6 neo_here refl

abbrev at_midnight : ℕ → ℕ
at_midnight i = i * (86400 * second)

nth_reward_example :
    (claim_daily_reward 1 (at_midnight 6) (claim_days 1 at_midnight 6 empty)).0
    ≡ ok (pos (50 + 15 * min 7 7))
unfolding neo lookup
nth_reward_example =
    nth_reward 1 0 at_midnight (λ i. omega arith) empty neo neo_here refl (λ i. refl) 6

abbrev worn : DuelState
worn = record (new_duel 3 0 1 2) { right_hp = pos 10 }

abbrev arena : DuelState → WorldState
arena d = record empty { duels = (3, d) ∷ [] }

in_arena : (d : DuelState) → duel_at 3 (arena d) ≡ some d
unfolding lookup
in_arena d = refl

players_there : (player_at 1 (arena worn) ≡ some neo) × (player_at 2 (arena worn) ≡ some trinity)
unfolding lookup
players_there = (refl, refl)

winner_takes_example :
    let (r, w') = duel_action 3 1 attack 14 (arena worn) in
    (r
      ≡ ok (record {
        narrative = text "Exploit chain landed for 14 integrity damage. Duel complete.";
        ended = true;
        winner = some 1;
        loser = some 2;
      }))
    × (duel_at 3 w' ≡ none)
    × (player_at 1 w'
        ≡ some (record neo { wallet = neo.wallet +ℤ pos 40; reputation = neo.reputation +ℤ pos 3 }))
    × ((q' : PlayerProfile) × (player_at 2 w' ≡ some q') × IsBeaten trinity q')
    × ((j : ℕ) → 1 ≢ j → 2 ≢ j → player_at j w' ≡ player_at j (arena worn))
unfolding show_int wrap_i32 ◌-ℤ◌ ◌+ℤ◌ neo trinity
winner_takes_example =
    winner_takes 3 1 attack 14 (arena worn) worn (in_arena worn) 2 neo trinity (inl (refl, refl))
      (omega arith) (omega arith) players_there.0 players_there.1 refl (omega arith) (omega arith)
      (omega arith)

abbrev strike : Move
strike = record { actor = 1; action = attack; roll = 14 }

abbrev other_strike : Move
other_strike = record { actor = 2; action = script (text "scan"); roll = 0 }

strikes : (IsStrike 1 2 strike) × (IsStrike 1 2 other_strike)
unfolding byte_length
strikes = (
  record { takes_part = inl refl; strikes = refl; fair = omega arith },
  record { takes_part = inr refl; strikes = refl; fair = omega arith },
)

abbrev frail : DuelState
frail = record (new_duel 3 0 1 2) { left_hp = pos 4; right_hp = pos 7 }

strikes_end_example : duel_at 3 (play 3 (strike ∷ other_strike ∷ []) (arena frail)) ≡ none
unfolding ◌+ℤ◌
strikes_end_example =
    strikes_end 3 (strike ∷ other_strike ∷ []) (arena frail) frail (in_arena frail) (omega arith)
      (strikes.0, (strikes.1, tt)) (omega arith)

-- A player with both missions and a registered key.
trained : PlayerProfile
unfolding insert_once
trained = record neo {
  completed_missions = insert_once keys_vault (text "finder" ∷ []);
  registered_key_fingerprints = text "SHA256:a" ∷ [];
  observed_fingerprints = text "SHA256:b" ∷ text "SHA256:a" ∷ [];
}

may_enter-trained : (may_enter trained ≡ true) × (may_enter neo ≡ false)
unfolding trained neo can_access_netcity has_starter is_offered member text_eq
may_enter-trained = (refl, refl)

abbrev lobby : WorldState
lobby = record empty { players = (1, trained) ∷ [] }

trained_there : player_at 1 lobby ≡ some trained
unfolding lookup
trained_there = refl

net_city_gate_example :
    let (r, w') = mode_switch 1 net_city none lobby in
    ((may_enter trained ≡ true)
      × (r ≡ ok (transition net_city))
      × (player_at 1 w' ≡ some (record trained { mode = net_city }))
      × ((j : ℕ) → 1 ≢ j → player_at j w' ≡ player_at j lobby))
    ⊎ ((may_enter trained ≡ false) × (r ≡ err (refusal trained)) × (w' ≡ lobby))
net_city_gate_example = net_city_gate 1 none lobby trained trained_there

abbrev finder : MissionDefinition
finder = record {
  code = text "finder";
  title = text "Finder";
  required = false;
  starter = true;
  hidden = false;
  sort_order = 3;
  summary = [];
  story_beat = [];
  hint = [];
  suggested_command = [];
  validation_keywords = [];
}

abbrev school : WorldState
school = record empty { missions = (text "finder", finder) ∷ [] }

finder_known : has_key (text "finder") school.missions ≡ true
unfolding lookup text_eq
finder_known = refl

school_neo : player_at 1 school ≡ some neo
unfolding lookup
school_neo = refl

finder_fits : FitsI64 (neo.reputation +ℤ pos (reward_of (text "finder")))
unfolding neo ◌+ℤ◌ reward_of member text_eq
finder_fits = omega arith

complete_mission_lem_example :
    let (r, w') = complete_mission (λ n. n) 8 (ok tt) 1 (text "finder") school in
    (r ≡ ok tt)
    × ((q : PlayerProfile) × (player_at 1 w' ≡ some q)
        × IsDone (λ n. n) 8 1 (text "finder") school neo finder_known school_neo q
        × (q.mailbox ≡ neo.mailbox ++ letters_for (λ n. n) 8 (text "finder") 0 triggers)
        × All (IsNew 8) (letters_for (λ n. n) 8 (text "finder") 0 triggers))
    × ((j : ℕ) → 1 ≢ j → player_at j w' ≡ player_at j school)
complete_mission_lem_example =
    complete_mission_lem (λ n. n) 8 1 (text "finder") school neo finder_known school_neo finder_fits

complete_mission_unstored_example :
    let (r, w') =
      complete_mission (λ n. n) 8 (err (text "no connection")) 1 (text "finder") school in
    (r ≡ err (text "no connection"))
    × ((q : PlayerProfile) × (player_at 1 w' ≡ some q)
        × IsDone (λ n. n) 8 1 (text "finder") school neo finder_known school_neo q
        × (q.mailbox ≡ neo.mailbox))
complete_mission_unstored_example =
    complete_mission_unstored (λ n. n) 8 1 (text "finder") school neo finder_known school_neo
      (text "no connection") finder_fits
