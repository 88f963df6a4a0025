-- ===== src/World/Missions/Access.antt =====
-- ssh-hunt/crates/world/src/lib.rs: the other methods on missions and mail, and the command `submit` of
-- ssh-hunt/crates/ssh_hunt_server/src/main.rs, which validates a mission and completes it. `upper` is
-- `str::to_uppercase`, and `ops` the configuration that the service holds.
pub mod Hidden
pub mod Submission
use ssh_hunt.Base.Actions.{◌>>=◌, ◌>>◌}
use ssh_hunt.Base.{
  ℕ, zero, suc, Bool, true, false, not, ◌&&◌, ◌||◌, Option, none, some, List, [], ◌∷◌, Text, text,
  text_eq, text_lt, text_key, contains_text, join, any, map, filter_by, get_elem?, Dict, lookup,
  Result, ok, err, ok_or, pure, raise, raise_if, query, lift, modify, if◌then◌else◌, ltb, ◌==◌,
}
use mathlib.Core.Option.{get_or}
use ssh_hunt.Base.Int.{ltb_ℤ}
use ssh_hunt.Base.Sets.{member, insert_once}
use ssh_hunt.Base.Sort.{sort_by}
use ssh_hunt.World.Records.{NpcProfile, SecretMissionConfig, HiddenOpsConfig}
use ssh_hunt.World.State.{
  MailMessage, MissionDefinition, PlayerProfile, WorldState, Method, player_at, find_player,
  update_player,
}
use ssh_hunt.World.Accounts.{unknown_player}
use ssh_hunt.World.Board.{values}
use ssh_hunt.World.Missions.{complete_mission}

-- The reputation and the achievement that the secret mission asks for.
unfoldable pub is_trusted : SecretMissionConfig → PlayerProfile → Bool
is_trusted secret p =
    not (ltb_ℤ p.reputation secret.min_reputation) && elim secret.required_achievement [
      | none ↦ true
      | some required ↦ member required p.achievements
    ]

unfoldable pub player_can_see_hidden : HiddenOpsConfig → WorldState → ℕ → Bool
unfolding is_trusted
player_can_see_hidden ops w player_id = elim ops.secret_mission [
  | none ↦ false
  | some secret ↦ elim (player_at player_id w) [ none ↦ false | some p ↦ is_trusted secret p ]
]

abbrev pub is_secret_of : Option SecretMissionConfig → Text → Bool
is_secret_of none code = false
is_secret_of (some cfg) code = text_eq cfg.code code

unfoldable pub is_hidden_mission_code : HiddenOpsConfig → Text → Bool
is_hidden_mission_code ops code = is_secret_of ops.secret_mission code

unfoldable pub player_has_completed_hidden_mission : HiddenOpsConfig → ℕ → WorldState → Bool
player_has_completed_hidden_mission ops player_id w = elim ops.secret_mission [
  | none ↦ false
  | some secret ↦ elim (player_at player_id w) [
    | none ↦ false
    | some p ↦ member secret.code p.completed_missions
  ]
]

abbrev pub unknown_mission : Text
unknown_mission = text "unknown mission"

abbrev pub find_mission : Text → Method MissionDefinition
find_mission code = query (λ w. ok_or (lookup code w.missions) unknown_mission)

-- `mission.hidden && !self.player_can_see_hidden(...)`
abbrev pub is_out_of_sight : HiddenOpsConfig → WorldState → ℕ → MissionDefinition → Bool
is_out_of_sight ops w player_id m = m.hidden && not (player_can_see_hidden ops w player_id)

abbrev pub refuse_hidden : HiddenOpsConfig → ℕ → MissionDefinition → Method (Unit {0})
refuse_hidden ops player_id m w = raise_if (is_out_of_sight ops w player_id m) unknown_mission w

abbrev pub accept : Text → PlayerProfile → PlayerProfile
accept code p = record p { active_missions = insert_once code p.active_missions }

unfoldable pub accept_mission : HiddenOpsConfig → ℕ → Text → Method (Unit {0})
accept_mission ops player_id code = do
  mission ← find_mission code
  refuse_hidden ops player_id mission
  find_player player_id unknown_player
  modify (update_player player_id (accept code))

unfoldable pub mission_detail_for_player : HiddenOpsConfig → ℕ → Text → Method MissionDefinition
mission_detail_for_player ops player_id code = do
  player ← find_player player_id unknown_player
  mission ← find_mission code
  refuse_hidden ops player.id mission
  pure mission

abbrev pub not_validated : Text
not_validated =
    text
      "Mission not validated — your session output is missing expected results. Run the suggested command first, then submit."

abbrev pub all_output : Dict Text Text → Text
all_output log = join b'\n' (values log)

-- Some keyword is not in the output.
unfoldable pub is_missing : Text → List Text → Bool
is_missing output keywords = any (λ k. not (contains_text k output)) keywords

-- The output of the commands, in any order, is one text.
unfoldable pub validate_mission : Text → Dict Text Text → Method (Unit {0})
unfolding is_missing
validate_mission code command_log = do
  mission ← find_mission code
  raise_if (is_missing (all_output command_log) mission.validation_keywords) not_validated

abbrev pub validated : Text → Option (Dict Text Text) → Method (Unit {0})
validated code none = pure tt
validated code (some command_log) = validate_mission code command_log

-- `submit`, with the log of the shell if there is one
unfoldable pub submit :
    (ℕ → ℕ) → ℕ → Result Text (Unit {0}) → Option (Dict Text Text) → ℕ → Text → Method (Unit {0})
submit fresh now stored command_log player_id code = do
  validated code command_log
  complete_mission fresh now stored player_id code

pub data MissionState : Type 0 where
  locked : MissionState
  available : MissionState
  active : MissionState
  completed : MissionState

pub record MissionStatus : Type 0 where
  pub code : Text
  pub title : Text
  pub state : MissionState
  pub progress : ℕ
  pub required : Bool
  pub starter : Bool
  pub summary : Text
  pub suggested_command : Text

abbrev pub mission_state : PlayerProfile → Text → MissionState
mission_state p code =
    if member code p.completed_missions
    then completed
    else if member code p.active_missions
    then active
    else available

abbrev pub status_of : PlayerProfile → MissionDefinition → MissionStatus
status_of p m = record {
  code = m.code;
  title = m.title;
  state = mission_state p m.code;
  progress = if member m.code p.completed_missions then 100 else 0;
  required = m.required;
  starter = m.starter;
  summary = m.summary;
  suggested_command = m.suggested_command;
}

abbrev pub order_of : WorldState → Text → ℕ
order_of w code = elim (lookup code w.missions) [ none ↦ 65535 | some m ↦ m.sort_order ]

-- `a` does not come after `b`.
unfoldable pub precedes : WorldState → MissionStatus → MissionStatus → Bool
precedes w a b =
    ltb (order_of w a.code) (order_of w b.code)
    || order_of w a.code == order_of w b.code && not (text_lt b.code a.code)

abbrev pub in_sight : HiddenOpsConfig → WorldState → ℕ → List MissionDefinition
in_sight ops w player_id =
    filter_by (λ (m : MissionDefinition). not (is_out_of_sight ops w player_id m))
      (values w.missions)

unfoldable pub mission_statuses : HiddenOpsConfig → ℕ → Method (List MissionStatus)
mission_statuses ops player_id = do
  player ← find_player player_id unknown_player
  query (λ w. ok (sort_by (precedes w) (map (status_of player) (in_sight ops w player_id))))

-- The character is met: the mission of the first meeting is done.
abbrev pub is_met : PlayerProfile → NpcProfile → Bool
is_met p npc = member npc.first_seen p.completed_missions

unfoldable pub visible_npcs : ℕ → Method (List NpcProfile)
visible_npcs player_id = do
  player ← find_player player_id unknown_player
  query (λ w. ok (filter_by (is_met player) w.npcs))

abbrev pub first_such {ℓ} : {A : Type ℓ} → (A → Bool) → List A → Option A
first_such p [] = none
first_such p (x ∷ l) = let rest = first_such p l in if p x then some x else rest

-- `Option::filter`
abbrev pub only_if {ℓ} : {A : Type ℓ} → (A → Bool) → Option A → Option A
only_if p none = none
only_if p (some x) = if p x then some x else none

unfoldable pub lookup_npc : (Text → Text) → ℕ → Text → Method (Option NpcProfile)
lookup_npc upper player_id callsign = do
  player ← find_player player_id unknown_player
  query (λ w. ok (
      only_if (is_met player) (
        first_such
          (λ (npc : NpcProfile).
            text_eq npc.callsign (upper callsign) || text_eq (upper npc.name) (upper callsign))
          w.npcs)))

abbrev pub hint_of : WorldState → Option Text → Option (Text × Text)
hint_of w none = none
hint_of w (some code) = elim (lookup code w.missions) [ none ↦ none | some m ↦ some (code, m.hint) ]

-- `first` is the first member in the order of the hash set.
unfoldable pub get_active_mission_hint :
    (List Text → Option Text) → ℕ → Method (Option (Text × Text))
get_active_mission_hint first player_id = do
  player ← find_player player_id unknown_player
  query (λ w. ok (hint_of w (first player.active_missions)))
