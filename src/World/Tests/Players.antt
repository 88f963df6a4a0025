-- ===== src/World/Tests/Players.antt =====
-- Logins, the leaderboard and the missions of a small world.
use ssh_hunt.Base.{
  ℕ, min, max, ◌*◌, ◌≤◌, ◌≡◌, ◌≢◌, refl, Bool, true, false, none, some, List, [], ◌∷◌, Text, text,
  text_eq, text_eq_iff, subst, if◌then◌else◌, text_key, nat_key, lookup, length, All, ok, ok_or,
  arith,
}
use mathlib.Core.Option.{some-injective}
use ssh_hunt.Base.Int.{pos, ◌+ℤ◌, ◌≤ℤ◌}
use ssh_hunt.Base.Machine.{FitsI64}
use ssh_hunt.Base.Sets.{member, insert_once}
use ssh_hunt.Base.Sort.{At, IsSorted}
use ssh_hunt.Base.View.{IsFrom, IsShown}
use ssh_hunt.World.Records.{HiddenOpsConfig}
use ssh_hunt.World.State.{
  PlayerProfile, MissionDefinition, WorldState, new_player, player_at, net_city,
}
use ssh_hunt.World.Accounts.{login, accounts_of, seen}
use ssh_hunt.World.Accounts.Logins.{HasName, IsIndexed, login_lem}
use ssh_hunt.World.Accounts.Keys.{keyless_login_enters}
use ssh_hunt.World.NetCity.{
  mode_switch, transition, keys_vault, can_access_netcity, has_starter, is_offered,
}
use ssh_hunt.World.NetCity.Gate.{may_enter}
use ssh_hunt.World.Board.{values, entry_of, is_free, ranks, leaderboard_snapshot}
use ssh_hunt.World.Board.Leaderboard.{leaderboard_lem}
use ssh_hunt.World.Missions.{reward_of}
use ssh_hunt.World.Missions.Access.{
  MissionStatus, accept_mission, mission_detail_for_player, mission_statuses, precedes, status_of,
  unknown_mission, is_missing,
}
use ssh_hunt.World.Missions.Access.Hidden.{
  is_in_sight, visible, taken, mission_statuses_lem, hidden_is_unknown,
}
use ssh_hunt.World.Missions.Access.Submission.{submissions, lacks, resubmission_pays}
use ssh_hunt.World.Seeds.{new_world}
use ssh_hunt.World.Seeds.Making.{new_mission}
use ssh_hunt.World.Seeds.Start.{IsKnown, OnlySecret, named_codes, start_lem}
use ssh_hunt.World.NpcDuel.Scaling.{IsSane}

abbrev config : HiddenOpsConfig
config = record {
  secret_mission = some (record {
    code = text "quiet";
    min_reputation = pos 100;
    required_achievement = none;
    prompt_ciphertext_b64 = [];
  });
  telegram = none;
}

neo : PlayerProfile
unfolding new_player insert_once
neo = record (new_player 1 (text "0123456789") (text "neo") (text "::1")) {
  completed_missions = insert_once keys_vault (text "finder" ∷ []);
  registered_key_fingerprints = text "SHA256:a" ∷ [];
  observed_fingerprints = text "SHA256:a" ∷ [];
}

abbrev quiet : MissionDefinition
quiet = new_mission (text "quiet") [] false false true 999 [] [] [] []

abbrev open_one : MissionDefinition
open_one = new_mission (text "finder") [] false true false 3 [] [] [] []

abbrev matrix : WorldState
matrix = record {
  players = (1, neo) ∷ [];
  players_by_username = (text "neo", 1 ∷ []) ∷ [];
  missions = (text "quiet", quiet) ∷ (text "finder", open_one) ∷ [];
  npcs = [];
  npc_combat = [];
  npc_duels = [];
  history = [];
  auctions = [];
  chats = [];
  events = [];
  duels = [];
  daily_claimed = [];
  listing_count_window = [];
}

neo_there : (player_at 1 matrix ≡ some neo) × (player_at 5 matrix ≡ none)
unfolding lookup
neo_there = (refl, refl)

neo_named : HasName (text "neo") matrix 1
unfolding lookup neo
neo_named = (neo, refl, refl)

matrix-IsIndexed : IsIndexed matrix
unfolding lookup
matrix-IsIndexed name ids e = go (text_eq (text "neo") name) (text_eq_iff (text "neo") name).0 e
  where
    go :
        (b : Bool)
        → (b ≡ true → text "neo" ≡ name)
        → (if b then some (1 ∷ []) else none) ≡ some ids
        → All (HasName name matrix) ids
    go false same h = absurd (cc)
    go true same h =
        subst (λ l. All (HasName name matrix) l) (some-injective (1 ∷ []) ids h)
          (subst (λ n. HasName n matrix 1) (same refl) neo_named, tt)

login_lem_example :
    let (r, w') =
      login 5 (text "5") (ok tt) (text "neo") (text "::2") (text "SHA256:b" ∷ []) matrix in
    (id : ℕ) × (p : PlayerProfile) × (r ≡ ok p)
    × (player_at id w' ≡ some p)
    × (p.username ≡ text "neo")
    × (p.remote_ip ≡ text "::2")
    × ((fp : Text)
        → member fp (text "SHA256:b" ∷ []) ≡ true
        → member fp p.observed_fingerprints ≡ true)
    × IsIndexed w'
    × ((j : ℕ) → id ≢ j → player_at j w' ≡ player_at j matrix)
login_lem_example =
    login_lem 5 (text "5") (text "neo") (text "::2") (text "SHA256:b" ∷ []) matrix neo_there.1
      matrix-IsIndexed

neo_first : accounts_of (text "neo") matrix ≡ 1 ∷ []
unfolding lookup text_eq
neo_first = refl

may_enter-neo : may_enter neo ≡ true
unfolding neo can_access_netcity has_starter is_offered member text_eq
may_enter-neo = refl

keyless_login_enters_example :
    let (r, w') = login 5 (text "5") (ok tt) (text "neo") (text "::9") [] matrix in
    (r ≡ ok (seen (text "neo") (text "::9") [] neo))
    × ((mode_switch 1 net_city none w').0 ≡ ok (transition net_city))
keyless_login_enters_example =
    keyless_login_enters 5 (text "5") (text "neo") (text "::9") none matrix 1 [] neo neo_first
      neo_there.0 may_enter-neo

leaderboard_lem_example :
    let out = leaderboard_snapshot 0 matrix in
    let players = values matrix.players in
    IsSorted ranks out
    × (length out ≤ min (max 0 1) 50)
    × All (IsFrom entry_of is_free players) out
    × All (IsShown entry_of is_free ranks out) players
leaderboard_lem_example = leaderboard_lem 0 matrix

mission_statuses_lem_example :
    (out : List MissionStatus) × (mission_statuses config 1 matrix ≡ (ok out, matrix))
    × IsSorted (precedes matrix) out
    × All
        (IsFrom
          (status_of neo)
          (is_in_sight config 1 matrix neo neo_there.0)
          (values matrix.missions))
        out
    × All
        (λ m. is_in_sight config 1 matrix neo neo_there.0 m ≡ true → At (status_of neo m) out)
        (values matrix.missions)
mission_statuses_lem_example = mission_statuses_lem config 1 matrix neo neo_there.0

neo_own : neo.id ≡ 1
unfolding neo
neo_own = refl

hidden_is_unknown_example :
    (mission_detail_for_player config 1 (text "quiet") matrix
      ≡ (ok_or (visible config 1 matrix neo neo_there.0 (text "quiet")) unknown_mission, matrix))
    × (accept_mission config 1 (text "quiet") matrix
        ≡ taken config 1 matrix neo neo_there.0
            (text "quiet")
            (visible config 1 matrix neo neo_there.0 (text "quiet")))
hidden_is_unknown_example = hidden_is_unknown config 1 matrix neo neo_there.0 (text "quiet") neo_own

quiet_known : lookup (text "quiet") matrix.missions ≡ some quiet
unfolding lookup text_eq
quiet_known = refl

quiet_enough : lacks (some []) quiet ≡ false
unfolding is_missing
quiet_enough = refl

quiet_fits :
    (pos 0 ≤ℤ neo.reputation) × FitsI64 (neo.reputation +ℤ pos (12 * reward_of (text "quiet")))
unfolding neo ◌+ℤ◌ reward_of member text_eq
quiet_fits = (omega arith, omega arith)

resubmission_pays_example :
    let (r, w') = submissions (λ k n. n) (λ k. k) (some []) 1 (text "quiet") 12 matrix in
    (r ≡ ok tt)
    × ((q : PlayerProfile) × (player_at 1 w' ≡ some q)
        × (q.reputation ≡ neo.reputation +ℤ pos (12 * reward_of (text "quiet"))))
resubmission_pays_example =
    resubmission_pays (λ k n. n) (λ k. k) (some []) 1 (text "quiet") quiet quiet_enough 12 neo
      matrix quiet_known neo_there.0 quiet_fits.0 quiet_fits.1

start_lem_example :
    let w = new_world config (λ n. n) 0 in
    All (IsKnown w.missions) named_codes
    × All (OnlySecret config) (values w.missions)
    × All IsSane (values w.npc_combat)
start_lem_example = start_lem config (λ n. n) 0
