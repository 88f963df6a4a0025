-- ===== src/World/Board.antt =====
-- ssh-hunt/crates/world/src/lib.rs: what `WorldService` shows of its state: the leaderboard, the roster,
-- the market, the events, the chat and the history.
pub mod Leaderboard
use ssh_hunt.Base.Actions.{◌>>=◌, ◌>>◌}
use ssh_hunt.Base.{
  ℕ, min, max, Bool, true, false, not, ◌&&◌, ◌||◌, Option, none, some, List, [], ◌∷◌, ◌++◌, Text,
  text, text_lt, length, take, map, filter_by, Dict, nat_key, pure, modify, ltb, leb, ◌==◌,
}
use mathlib.Core.Option.{get_or}
use mathlib.Core.List.{reverse}
use ssh_hunt.Base.Int.{ℤ, ltb_ℤ, ◌==ℤ◌}
use ssh_hunt.Base.Sort.{sort_by}
use ssh_hunt.World.Records.{HistoryEntry, ChatMessage, WorldEvent, NpcCombatState}
use ssh_hunt.World.State.{
  PlayerProfile, AuctionListingState, WorldState, Method, player_at, find_player,
}
use ssh_hunt.World.NpcDuel.{scaled_hp}

-- `HashMap::values`
abbrev pub values {ℓ} : {K V : Type ℓ} → Dict K V → List V
values m = map (λ e. e.1) m

pub record LeaderboardEntry : Type 0 where
  pub display_name : Text
  pub reputation : ℤ
  pub wallet : ℤ
  pub achievements : ℕ

abbrev pub entry_of : PlayerProfile → LeaderboardEntry
entry_of p = record {
  display_name = p.display_name;
  reputation = p.reputation;
  wallet = p.wallet;
  achievements = length p.achievements;
}

-- `a` does not come after `b`: more reputation, then more in the wallet, then more achievements, then
-- the name.
unfoldable pub ranks : LeaderboardEntry → LeaderboardEntry → Bool
ranks a b =
    ltb_ℤ b.reputation a.reputation
    || b.reputation ==ℤ a.reputation
      && (ltb_ℤ b.wallet a.wallet
          || b.wallet ==ℤ a.wallet
            && (ltb b.achievements a.achievements
                || b.achievements == a.achievements && not (text_lt b.display_name a.display_name)))

abbrev pub is_free : PlayerProfile → Bool
is_free p = not p.banned

abbrev pub free_players : WorldState → List PlayerProfile
free_players w = filter_by is_free (values w.players)

unfoldable pub leaderboard_snapshot : ℕ → WorldState → List LeaderboardEntry
leaderboard_snapshot limit w =
    take (min (max limit 1) 50) (sort_by ranks (map entry_of (free_players w)))

unfoldable pub roster : WorldState → List Text
roster w =
    sort_by (λ a b. not (text_lt b a))
      (map (λ (p : PlayerProfile). p.display_name) (free_players w))

pub record AuctionListingSnapshot : Type 0 where
  pub listing_id : ℕ
  pub seller_display : Text
  pub item_sku : Text
  pub qty : ℕ
  pub start_price : ℤ
  pub highest_bid : Option ℤ
  pub buyout_price : Option ℤ
  pub expires_at : ℕ

abbrev pub seller_display : Option PlayerProfile → Text
seller_display none = text "unknown"
seller_display (some p) = p.display_name

abbrev pub snapshot_of : WorldState → AuctionListingState → AuctionListingSnapshot
snapshot_of w a = record {
  listing_id = a.listing.listing_id;
  seller_display = seller_display (player_at a.listing.seller_id w);
  item_sku = a.listing.item_sku;
  qty = a.listing.qty;
  start_price = a.listing.start_price;
  highest_bid = a.highest_bid;
  buyout_price = a.listing.buyout_price;
  expires_at = a.listing.expires_at;
}

unfoldable pub market_snapshot : WorldState → List AuctionListingSnapshot
market_snapshot w =
    sort_by (λ (a b : AuctionListingSnapshot). leb a.expires_at b.expires_at)
      (map (snapshot_of w) (values w.auctions))

pub record WorldEventSnapshot : Type 0 where
  pub sector : Text
  pub title : Text
  pub starts_at : ℕ
  pub ends_at : ℕ
  pub active : Bool

abbrev pub event_snapshot : ℕ → WorldEvent → WorldEventSnapshot
event_snapshot now e = record {
  sector = e.sector;
  title = e.title;
  starts_at = e.starts_at;
  ends_at = e.ends_at;
  active = leb e.starts_at now && leb now e.ends_at;
}

unfoldable pub world_events_snapshot : ℕ → WorldState → List WorldEventSnapshot
world_events_snapshot now w =
    sort_by (λ (a b : WorldEventSnapshot). leb a.starts_at b.starts_at)
      (map (event_snapshot now) (filter_by (λ (e : WorldEvent). leb now e.ends_at) w.events))

unfoldable pub post_chat : ℕ → ℕ → ℕ → Text → Text → Method ChatMessage
post_chat fresh now sender channel body = do
  p ← find_player sender (text "unknown sender")
  let msg : ChatMessage = record {
    id = fresh;
    channel = channel;
    sender_display = p.display_name;
    body = body;
    sent_at = now;
  }
  modify (λ w. record w { chats = w.chats ++ msg ∷ [] })
  pure msg

unfoldable pub get_history : ℕ → WorldState → List HistoryEntry
get_history limit w = take limit (reverse w.history)

unfoldable pub list_npc_combat_states : WorldState → List (Text × Text × Text × ℕ × ℤ × ℕ)
list_npc_combat_states w =
    map
      (λ (npc : NpcCombatState). (
        npc.callsign,
        npc.current_name,
        npc.role,
        npc.generation,
        scaled_hp npc,
        npc.times_defeated,
      ))
      (values w.npc_combat)
