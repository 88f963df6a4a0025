-- ===== src/World/Missions.antt =====
-- ssh-hunt/crates/world/src/lib.rs: `complete_mission` and `deliver_npc_mail`. `fresh` gives the
-- identifiers of the letters, and `stored` is what the database answers, which is asked only if there
-- is one: `ok tt` without a database.
pub mod Codes
pub mod Letters
pub mod Completion
pub mod Access
use ssh_hunt.Base.Actions.{◌>>=◌, ◌>>◌}
use ssh_hunt.Base.{
  ℕ, suc, zero, Bool, true, false, not, none, some, List, [], ◌∷◌, ◌++◌, Text, text, text_eq,
  text_key, any, has_key, Result, lift, pure, raise_if, gets, modify, if◌then◌else◌,
}
use ssh_hunt.Base.Int.{pos, ◌+ℤ◌}
use ssh_hunt.Base.Machine.{wrap_i64}
use ssh_hunt.Base.Sets.{member, insert_once, discard}
use ssh_hunt.World.State.{
  MailMessage, PlayerProfile, WorldState, Method, find_player, update_player,
}
use ssh_hunt.World.NetCity.{keys_vault}
use ssh_hunt.World.Missions.Codes.{
  tutorial_codes, intermediate_codes, advanced_codes, expert_codes, legendary_codes,
}
use ssh_hunt.World.Missions.Letters.{Letter, triggers}

-- The reputation for a mission.
unfoldable pub reward_of : Text → ℕ
unfolding member
reward_of code =
    if text_eq code keys_vault
    then 15
    else if member code legendary_codes
    then 50
    else if member code expert_codes
    then 30
    else if member code advanced_codes
    then 20
    else if member code intermediate_codes
    then 15
    else if member code tutorial_codes
    then 5
    else 10

unfoldable pub complete : Text → PlayerProfile → PlayerProfile
unfolding insert_once discard reward_of
complete code p = record p {
  active_missions = discard code p.active_missions;
  completed_missions = insert_once code p.completed_missions;
  reputation = wrap_i64 (p.reputation +ℤ pos (reward_of code));
}

-- The letters for the mission, the n-th with the n-th identifier.
unfoldable pub letters_for : (ℕ → ℕ) → ℕ → Text → ℕ → List Letter → List MailMessage
letters_for fresh now code n [] = []
letters_for fresh now code n ((trigger, from, subject, body) ∷ ls) =
    let here = letters_for fresh now code (suc n) ls in
    let rest = letters_for fresh now code n ls in
    if text_eq trigger code
    then record {
      id = fresh n;
      from = from;
      subject = subject;
      body = body;
      read = false;
      received_at = now;
    }
      ∷ here
    else rest

unfoldable pub deliver_npc_mail : (ℕ → ℕ) → ℕ → Text → PlayerProfile → PlayerProfile
unfolding letters_for
deliver_npc_mail fresh now code p = record p {
  mailbox = p.mailbox ++ letters_for fresh now code 0 triggers;
}

unfoldable pub complete_mission :
    (ℕ → ℕ) → ℕ → Result Text (Unit {0}) → ℕ → Text → Method (Unit {0})
unfolding complete deliver_npc_mail
complete_mission fresh now stored player_id code = do
  known ← gets (λ w. has_key code w.missions)
  raise_if (not known) (text "unknown mission")
  find_player player_id (text "unknown player")
  modify (update_player player_id (complete code))
  lift stored
  find_player player_id (text "unknown player")
  modify (update_player player_id (deliver_npc_mail fresh now code))
