-- ===== src/World/State.antt =====
-- ssh-hunt/crates/world/src/lib.rs and ssh-hunt/crates/protocol/src/lib.rs: the players, what they
-- own and trade, and the state behind the lock. A `Uuid` is a number, an instant the nanoseconds
-- since 1970. A method that holds the lock throughout is one step.
use ssh_hunt.Base.{
  ℕ, ◌*◌, ◌/◌, Bool, false, Option, none, List, [], ◌++◌, ◌∷◌, Text, text, take, Dict, lookup,
  nat_key, text_key, adjust, Exec, query, ok_or,
}
use ssh_hunt.Base.Int.{ℤ, pos}
use ssh_hunt.World.Records.{
  NpcProfile, NpcCombatState, NpcDuelState, HistoryEntry, ChatMessage, WorldEvent,
}

pub data Mode : Type 0 where
  training : Mode
  net_city : Mode
  redline : Mode

pub data ExperienceTier : Type 0 where
  noob : ExperienceTier
  gud : ExperienceTier
  hardcore : ExperienceTier

pub data CombatStance : Type 0 where
  pve : CombatStance
  pvp : CombatStance

pub record MailMessage : Type 0 where
  pub id : ℕ
  pub from : Text
  pub subject : Text
  pub body : Text
  pub read : Bool
  pub received_at : ℕ

pub record PlayerProfile : Type 0 where
  pub id : ℕ
  pub username : Text
  pub remote_ip : Text
  pub display_name : Text
  pub tier : ExperienceTier
  pub mode : Mode
  pub deaths : ℕ
  pub banned : Bool
  pub wallet : ℤ
  pub streak : ℕ
  pub streak_day : Option ℕ
  pub registered_key_fingerprints : List Text
  pub observed_fingerprints : List Text
  pub completed_missions : List Text
  pub active_missions : List Text
  pub achievements : List Text
  pub reputation : ℤ
  pub daily_style_bonus_claims : ℕ
  pub last_style_bonus_day : Option ℕ
  pub private_alias : Text
  pub tutorial_step : ℕ
  pub mailbox : List MailMessage
  pub combat_stance : CombatStance
  pub campaign_chapter : ℕ
  pub campaign_step : ℕ

-- `PlayerProfile::new`, where `id` is the fresh identifier and `id_text` its display
unfoldable pub new_player : ℕ → Text → Text → Text → PlayerProfile
new_player id id_text username remote_ip = record {
  id = id;
  username = username;
  remote_ip = remote_ip;
  display_name = username ++ (b'@' ∷ remote_ip);
  tier = noob;
  mode = training;
  deaths = 0;
  banned = false;
  wallet = pos 500;
  streak = 0;
  streak_day = none;
  registered_key_fingerprints = [];
  observed_fingerprints = [];
  completed_missions = [];
  active_missions = [];
  achievements = [];
  reputation = pos 0;
  daily_style_bonus_claims = 0;
  last_style_bonus_day = none;
  private_alias = text "hunter-" ++ take 8 id_text;
  tutorial_step = 0;
  mailbox = [];
  combat_stance = pve;
  campaign_chapter = 0;
  campaign_step = 0;
}

pub record AuctionListing : Type 0 where
  pub listing_id : ℕ
  pub seller_id : ℕ
  pub item_sku : Text
  pub qty : ℕ
  pub start_price : ℤ
  pub buyout_price : Option ℤ
  pub expires_at : ℕ

pub record AuctionListingState : Type 0 where
  pub listing : AuctionListing
  pub highest_bid : Option ℤ
  pub highest_bidder : Option ℕ
  pub created_at : ℕ

pub record DuelState : Type 0 where
  pub duel_id : ℕ
  pub left : ℕ
  pub right : ℕ
  pub left_hp : ℤ
  pub right_hp : ℤ
  pub left_defending : Bool
  pub right_defending : Bool
  pub started_at : ℕ
  pub last_actor : Option ℕ

pub record MissionDefinition : Type 0 where
  pub code : Text
  pub title : Text
  pub required : Bool
  pub starter : Bool
  pub hidden : Bool
  pub sort_order : ℕ
  pub summary : Text
  pub story_beat : Text
  pub hint : Text
  pub suggested_command : Text
  pub validation_keywords : List Text

pub record WorldState : Type 0 where
  pub players : Dict ℕ PlayerProfile
  pub players_by_username : Dict Text (List ℕ)
  pub missions : Dict Text MissionDefinition
  pub npcs : List NpcProfile
  pub npc_combat : Dict Text NpcCombatState
  pub npc_duels : Dict ℕ NpcDuelState
  pub history : List HistoryEntry
  pub auctions : Dict ℕ AuctionListingState
  pub chats : List ChatMessage
  pub events : List WorldEvent
  pub duels : Dict ℕ DuelState
  pub daily_claimed : Dict (ℕ × ℕ) Bool
  pub listing_count_window : Dict ℕ (ℕ × ℕ)

-- A method of `WorldService`; its error is the text given to `anyhow!`.
abbrev pub Method : Type 0 → Type 0
Method = Exec WorldState Text

abbrev pub second : ℕ
second = 1000000000

-- `DateTime::date_naive`
abbrev pub day_of : ℕ → ℕ
day_of t = t / (86400 * second)

abbrev pub player_at : ℕ → WorldState → Option PlayerProfile
player_at id w = lookup id w.players

abbrev pub auction_at : ℕ → WorldState → Option AuctionListingState
auction_at id w = lookup id w.auctions

abbrev pub duel_at : ℕ → WorldState → Option DuelState
duel_at id w = lookup id w.duels

-- `players.get(&id)`, or the error
abbrev pub find_player : ℕ → Text → Method PlayerProfile
find_player id message = query (λ w. ok_or (player_at id w) message)

-- `if let Some(p) = players.get_mut(&id) { *p = f(p) }`
abbrev pub update_player : ℕ → (PlayerProfile → PlayerProfile) → WorldState → WorldState
update_player id f w = record w { players = adjust id f w.players }
