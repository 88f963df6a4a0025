-- ===== src/World/Tests/Hacks.antt =====
-- Duels with a character, at an input.
use ssh_hunt.Base.{
  ◌≡◌, refl, true, none, some, [], ◌∷◌, text, text_eq, text_key, nat_key, lookup, ok, arith, ltb,
}
use ssh_hunt.Base.Int.{pos, ◌+ℤ◌, ◌-ℤ◌, ◌≤ℤ◌, leb_ℤ}
use ssh_hunt.Base.Machine.{wrap_i32}
use ssh_hunt.World.Records.{NpcCombatState, NpcDuelState}
use ssh_hunt.World.State.{PlayerProfile, WorldState, new_player, player_at}
use ssh_hunt.World.Duel.{attack}
use ssh_hunt.World.NpcDuel.{scaled_hp, scaled_damage, npc_at, npc_duel_at, new_npc_duel}
use ssh_hunt.World.NpcDuel.Scaling.{IsSane, scaled_lem}
use ssh_hunt.World.NpcDuel.Turn.{Float32, NpcCombatResult, npc_duel_action}
use ssh_hunt.World.NpcDuel.Length.{Move, IsStrike, InSession, play, strikes_end_session}
use ssh_hunt.World.NpcDuel.Victory.{Succession, IsWon, blow, victory_lem}

abbrev dusk : NpcCombatState
dusk = record {
  current_name = text "Dusk";
  callsign = text "DSK";
  role = text "Suspect";
  generation = 1;
  times_defeated = 3;
  base_hp = pos 40;
  damage_range = (pos 8, pos 14);
  defend_chance = 1036831949;
  script_chance = 1036831949;
  shell_challenge = text "Count the lines";
  shell_answer = text "7";
  shell_bonus_dmg = pos 12;
  replaceable = true;
  name_pool = text "Dusk" ∷ text "Shade" ∷ text "Haze" ∷ [];
  reward_wallet = pos 30;
  reward_rep = pos 5;
  reward_achievement = text "Cleared the Innocent";
}

dusk-IsSane : IsSane dusk
dusk-IsSane = record {
  hp = (omega arith, omega arith);
  least = omega arith;
  range = omega arith;
  most = omega arith;
  bonus = (omega arith, omega arith);
  count = omega arith;
}

scaled_lem_example :
    (dusk.base_hp ≤ℤ scaled_hp dusk)
    × (scaled_hp dusk ≤ℤ pos 300)
    × (dusk.damage_range.0 ≤ℤ (scaled_damage dusk).0)
    × ((scaled_damage dusk).0 ≤ℤ (scaled_damage dusk).1)
    × ((scaled_damage dusk).1 ≤ℤ pos 50)
scaled_lem_example = scaled_lem dusk dusk-IsSane

-- Sums and products of bits, which the theorems do not look into.
abbrev bits : Float32
bits = record { add = λ a b. a; mul = λ a b. a; least = λ a b. a; less = ltb; of_u32 = λ n. n }

neo : PlayerProfile
unfolding new_player
neo = new_player 1 (text "0123456789") (text "neo") (text "::1")

abbrev hack : NpcDuelState
hack = new_npc_duel 9 0 1 (text "DSK") (pos 8)

abbrev alley : WorldState
alley = record {
  players = (1, neo) ∷ [];
  players_by_username = [];
  missions = [];
  npcs = [];
  npc_combat = (text "DSK", dusk) ∷ [];
  npc_duels = (9, hack) ∷ [];
  history = [];
  auctions = [];
  chats = [];
  events = [];
  duels = [];
  daily_claimed = [];
  listing_count_window = [];
}

in_alley :
    (npc_duel_at 9 alley ≡ some hack)
    × (npc_at (text "DSK") alley ≡ some dusk)
    × (player_at 1 alley ≡ some neo)
unfolding lookup text_eq
in_alley = (refl, refl, refl)

abbrev strike : Move
strike = record { action = attack; roll = 14; luck = 0; pick = λ lo hi. lo; now = 7 }

in_session : InSession bits 9 1 hack dusk alley
in_session = record {
  there = in_alley.0;
  mine = refl;
  known = in_alley.1;
  sane = dusk-IsSane;
  standing = (omega arith, omega arith);
}

strike-IsStrike : IsStrike strike
strike-IsStrike = record { strikes = refl; fair = (omega arith, omega arith) }

strikes_end_session_example : npc_duel_at 9 (play bits 9 1 (strike ∷ strike ∷ []) alley) ≡ none
strikes_end_session_example =
    strikes_end_session bits 9 1 (strike ∷ strike ∷ []) alley hack dusk in_session
      (strike-IsStrike, (strike-IsStrike, tt)) (omega arith)

over :
    leb_ℤ
      (blow bits 0 14
        (λ lo hi. lo)
        7
        9
        1
        attack
        alley
        hack
        dusk
        neo
        in_alley.0
        refl
        in_alley.1
        in_alley.2).npc_hp
      (pos 0)
    ≡ true
unfolding wrap_i32 ◌-ℤ◌ ◌+ℤ◌
over = refl

victory_lem_example :
    let (r, w') = npc_duel_action bits 0 14 (λ lo hi. lo) 7 9 1 attack alley in
    ((res : NpcCombatResult) × (r ≡ ok res) × (res.ended ≡ true) × (res.player_won ≡ true))
    × IsWon bits 0 14
        (λ lo hi. lo)
        7
        9
        1
        attack
        alley
        hack
        dusk
        neo
        in_alley.0
        refl
        in_alley.1
        in_alley.2
        w'
    × Succession bits 0 14
        (λ lo hi. lo)
        7
        9
        1
        attack
        alley
        hack
        dusk
        neo
        in_alley.0
        refl
        in_alley.1
        in_alley.2
        w'
unfolding neo ◌+ℤ◌
victory_lem_example =
    victory_lem bits 0 14 (λ lo hi. lo) 7 9 1 attack alley hack dusk neo in_alley.0 refl in_alley.1
      in_alley.2 over refl (omega arith) (omega arith) (omega arith) (omega arith)

-- The same character without names to take.
abbrev nameless : NpcCombatState
nameless = record dusk { name_pool = [] }

abbrev dead_end : WorldState
dead_end = record alley { npc_combat = (text "DSK", nameless) ∷ [] }
