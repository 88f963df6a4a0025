-- ===== src/World/Records.antt =====
-- ssh-hunt/crates/world/src/lib.rs and ssh-hunt/crates/protocol/src/lib.rs: the characters of the
-- game, their duels with the players, and what is told to all. An `f32` is a number, its 32 bits.
use ssh_hunt.Base.{ℕ, Bool, List, Option, Text}
use ssh_hunt.Base.Int.{ℤ}

pub record NpcProfile : Type 0 where
  pub callsign : Text
  pub name : Text
  pub role : Text
  pub allegiance : Text
  pub status : Text
  pub bio : Text
  pub first_seen : Text

pub record NpcCombatState : Type 0 where
  pub current_name : Text
  pub callsign : Text
  pub role : Text
  pub generation : ℕ
  pub times_defeated : ℕ
  pub base_hp : ℤ
  pub damage_range : ℤ × ℤ
  pub defend_chance : ℕ
  pub script_chance : ℕ
  pub shell_challenge : Text
  pub shell_answer : Text
  pub shell_bonus_dmg : ℤ
  pub replaceable : Bool
  pub name_pool : List Text
  pub reward_wallet : ℤ
  pub reward_rep : ℤ
  pub reward_achievement : Text

pub record NpcDuelState : Type 0 where
  pub duel_id : ℕ
  pub player_id : ℕ
  pub npc_callsign : Text
  pub player_hp : ℤ
  pub npc_hp : ℤ
  pub player_defending : Bool
  pub npc_defending : Bool
  pub shell_bonus_ready : Bool
  pub started_at : ℕ

pub record HistoryEntry : Type 0 where
  pub event : Text
  pub npc_name : Text
  pub npc_role : Text
  pub generation : ℕ
  pub defeated_by : Text
  pub timestamp : ℕ

pub record ChatMessage : Type 0 where
  pub id : ℕ
  pub channel : Text
  pub sender_display : Text
  pub body : Text
  pub sent_at : ℕ

pub record WorldEvent : Type 0 where
  pub id : ℕ
  pub sector : Text
  pub title : Text
  pub starts_at : ℕ
  pub ends_at : ℕ

pub record SecretMissionConfig : Type 0 where
  pub code : Text
  pub min_reputation : ℤ
  pub required_achievement : Option Text
  pub prompt_ciphertext_b64 : Text

pub record TelegramRelayConfig : Type 0 where
  pub bot_token : Text
  pub chat_id : Text
  pub enabled : Bool

pub record HiddenOpsConfig : Type 0 where
  pub secret_mission : Option SecretMissionConfig
  pub telegram : Option TelegramRelayConfig
