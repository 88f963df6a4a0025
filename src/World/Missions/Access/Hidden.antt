-- ===== src/World/Missions/Access/Hidden.antt =====
-- Who sees a hidden mission, and what the list of the missions shows.
use ssh_hunt.Base.{
  ℕ, ◌≡◌, Bool, true, not, Option, none, some, List, Text, text_lt_trans, text_lt_asym, text_key,
  map, lookup, Result, ok, err, ok_or, All, arith,
}
use ssh_hunt.Base.Sort.{IsOrder, IsSorted, At, sort_by, sort_by-IsSorted}
use ssh_hunt.Base.View.{IsFrom, sorted_view-IsFrom, sorted_view_complete}
use ssh_hunt.World.Records.{HiddenOpsConfig}
use ssh_hunt.World.State.{MissionDefinition, PlayerProfile, WorldState, player_at, update_player}
use ssh_hunt.World.Board.{values}
use ssh_hunt.World.Missions.Access.{
  MissionStatus, unknown_mission, is_out_of_sight, accept, accept_mission,
  mission_detail_for_player, status_of, precedes, in_sight, mission_statuses, only_if,
}

precedes-IsOrder : (w : WorldState) → IsOrder (precedes w)
unfolding precedes
precedes-IsOrder w = record {
  total = λ a b e. ground (arith, text_lt_asym b.code a.code);
  trans = λ a b c e h. ground (arith, text_lt_trans a.code b.code c.code);
}

module _ (ops : HiddenOpsConfig) (id : ℕ) (w : WorldState) (p : PlayerProfile)
    (known : player_at id w ≡ some p) where
  abbrev pub is_in_sight : MissionDefinition → Bool
  is_in_sight m = not (is_out_of_sight ops w id m)

  -- The list of the missions for a known player is in order, with the status of a mission that is
  -- not hidden, or that the player may see, for each entry, and an entry for each such mission.
  -- Nothing changes.
  pub mission_statuses_lem :
      (out : List MissionStatus) × (mission_statuses ops id w ≡ (ok out, w))
      × IsSorted (precedes w) out
      × All (IsFrom (status_of p) is_in_sight (values w.missions)) out
      × All (λ m. is_in_sight m ≡ true → At (status_of p m) out) (values w.missions)
  unfolding mission_statuses
  mission_statuses_lem =
      let shown = map (status_of p) (in_sight ops w id) in
      (
        sort_by (precedes w) shown,
        ground arith,
        sort_by-IsSorted (precedes w) (precedes-IsOrder w) shown,
        sorted_view-IsFrom (status_of p) is_in_sight (precedes w) (values w.missions),
        sorted_view_complete (status_of p) is_in_sight (precedes w) (values w.missions),
      )

  -- The mission of the code, if the player may see it.
  abbrev pub visible : Text → Option MissionDefinition
  visible code = only_if is_in_sight (lookup code w.missions)

  abbrev pub taken : Text → Option MissionDefinition → Result Text (Unit {0}) × WorldState
  taken code none = (err unknown_mission, w)
  taken code (some m) = (ok tt, update_player id (accept code) w)

  -- For a known player, stored under its own identifier, the details of a mission and a place
  -- among the active ones are for the missions that the player may see. For any other the answer
  -- is that of a code without a mission, and nothing changes.
  pub hidden_is_unknown :
      (code : Text)
      → p.id ≡ id
      → (mission_detail_for_player ops id code w ≡ (ok_or (visible code) unknown_mission, w))
        × (accept_mission ops id code w ≡ taken code (visible code))
  unfolding mission_detail_for_player accept_mission
  hidden_is_unknown code own = (ground (arith), ground (arith))
