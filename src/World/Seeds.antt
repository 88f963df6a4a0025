-- ===== src/World/Seeds.antt =====
-- ssh-hunt/crates/world/src/lib.rs: the world that `WorldService::new` starts with. `fresh` gives the
-- identifiers of the events.
pub mod Making
pub mod Tutorial
pub mod Starters
pub mod Insider
pub mod Investigations
pub mod Advanced
pub mod Systems
pub mod Conspiracy
pub mod Confrontations
pub mod Endgame
pub mod Crystal
pub mod Zenith
pub mod Terminus
pub mod Characters
pub mod Others
pub mod Suspects
pub mod Rivals
pub mod Bosses
pub mod Start
use ssh_hunt.Base.{
  ℕ, ◌+◌, ◌*◌, Bool, true, false, Option, none, some, List, [], ◌∷◌, ◌++◌, Text, text, text_key,
  Dict, insert, foldl,
}
use ssh_hunt.World.Records.{
  NpcProfile, NpcCombatState, WorldEvent, SecretMissionConfig, HiddenOpsConfig,
}
use ssh_hunt.World.State.{MissionDefinition, WorldState, second}
use ssh_hunt.World.Seeds.Making.{new_mission}
use ssh_hunt.World.Seeds.Tutorial.{tutorial_track, gateway_missions}
use ssh_hunt.World.Seeds.Starters.{surface_anomalies, first_introductions}
use ssh_hunt.World.Seeds.Insider.{bridge_missions, insider_thread}
use ssh_hunt.World.Seeds.Investigations.{npc_investigations}
use ssh_hunt.World.Seeds.Advanced.{advanced_missions}
use ssh_hunt.World.Seeds.Systems.{expert_chains, system_skills}
use ssh_hunt.World.Seeds.Conspiracy.{conspiracy_arc}
use ssh_hunt.World.Seeds.Confrontations.{npc_confrontations, expert_missions}
use ssh_hunt.World.Seeds.Endgame.{endgame_arc, npc_endgame}
use ssh_hunt.World.Seeds.Crystal.{crystal_discovery, crystal_introductions}
use ssh_hunt.World.Seeds.Zenith.{zenith_revelation, crystal_confrontations}
use ssh_hunt.World.Seeds.Terminus.{crystal_endgame, final_confrontations}
use ssh_hunt.World.Seeds.Characters.{early_npcs}
use ssh_hunt.World.Seeds.Others.{late_npcs}
use ssh_hunt.World.Seeds.Suspects.{early_fighters}
use ssh_hunt.World.Seeds.Rivals.{middle_fighters}
use ssh_hunt.World.Seeds.Bosses.{late_fighters}

unfoldable pub seed_missions : List MissionDefinition
seed_missions =
    tutorial_track ++ gateway_missions ++ surface_anomalies ++ first_introductions
    ++ bridge_missions ++ insider_thread ++ npc_investigations ++ advanced_missions ++ expert_chains
    ++ system_skills ++ conspiracy_arc ++ npc_confrontations ++ expert_missions ++ endgame_arc
    ++ npc_endgame ++ crystal_discovery ++ crystal_introductions ++ zenith_revelation
    ++ crystal_confrontations ++ crystal_endgame ++ final_confrontations

abbrev pub seed_npcs : List NpcProfile
seed_npcs = early_npcs ++ late_npcs

unfoldable pub seed_npc_combat : List NpcCombatState
seed_npc_combat = early_fighters ++ middle_fighters ++ late_fighters

abbrev minute : ℕ
minute = 60 * second

abbrev seed_event : ℕ → ℕ → Text → Text → ℕ → ℕ → WorldEvent
seed_event id now sector title first last = record {
  id = id;
  sector = sector;
  title = title;
  starts_at = now + first * minute;
  ends_at = now + last * minute;
}

unfoldable pub seed_events : (ℕ → ℕ) → ℕ → List WorldEvent
seed_events fresh now =
    seed_event (fresh 0) now (text "Neon Bazaar") (text "Black Ice Storm") 25 40
    ∷ seed_event (fresh 1) now (text "Ghost Rail") (text "Datavault Breach Drill") 60 80
    ∷ seed_event (fresh 2) now (text "Void Sector") (text "Firewall Cascade Failure") 90 110
    ∷ seed_event (fresh 3) now (text "Crystal Array") (text "Signal Intercept Surge") 120 145
    ∷ []

abbrev pub secret_mission_of : SecretMissionConfig → MissionDefinition
secret_mission_of secret =
    new_mission secret.code (text "Encrypted Contact Thread") false false true 999
      (text "Unlock an off-ledger contact that exists outside the public training ladder.")
      (text
        "Someone inside NetCity noticed how you move through the noise and opened a quiet backchannel.")
      (text "Hidden jobs appear only after deeper progression. Finish the visible path first.")
      (text "relay the signal is clean")

abbrev pub insert_mission :
    Dict Text MissionDefinition → MissionDefinition → Dict Text MissionDefinition
insert_mission ms m = insert m.code m ms

abbrev pub insert_npc : Dict Text NpcCombatState → NpcCombatState → Dict Text NpcCombatState
insert_npc ns npc = insert npc.callsign npc ns

abbrev pub with_secret :
    Option SecretMissionConfig → Dict Text MissionDefinition → Dict Text MissionDefinition
with_secret none ms = ms
with_secret (some secret) ms = insert secret.code (secret_mission_of secret) ms

unfoldable pub new_world : HiddenOpsConfig → (ℕ → ℕ) → ℕ → WorldState
new_world ops fresh now = record {
  players = [];
  players_by_username = [];
  missions = with_secret ops.secret_mission (foldl insert_mission [] seed_missions);
  npcs = seed_npcs;
  npc_combat = foldl insert_npc [] seed_npc_combat;
  npc_duels = [];
  history = [];
  auctions = [];
  chats = [];
  events = seed_events fresh now;
  duels = [];
  daily_claimed = [];
  listing_count_window = [];
}
