-- ===== src/World/NpcDuel.antt =====
-- ssh-hunt/crates/world/src/lib.rs: duels with the characters of the game, `start_npc_duel`,
-- `npc_duel_action` and `npc_duel_solve_bonus`, and how a character grows with its defeats.
pub mod Scaling
pub mod Turn
pub mod Strikes
pub mod Length
pub mod Defeat
pub mod Rewards
pub mod Victory
use ssh_hunt.Base.Actions.{◌>>=◌, ◌>>◌}
use ssh_hunt.Base.{
  ℕ, suc, min, ◌+◌, ◌-◌, ◌*◌, ◌/◌, ◌%◌, Bool, true, false, not, ◌&&◌, Option, none, some, List, [],
  ◌∷◌, ◌++◌, Text, text, contains_text, length, get_elem?, lookup, insert, remove, adjust, map,
  text_key, nat_key, ok_or, pure, raise, raise_if, query, gets, modify, ◌==◌, leb, if◌then◌else◌,
}
use mathlib.Core.Option.{get_or}
use ssh_hunt.Base.Int.{ℤ, pos, ◌+ℤ◌, ◌-ℤ◌, ◌*ℤ◌, ltb_ℤ, leb_ℤ}
use ssh_hunt.Base.Machine.{wrap_i32, wrap_i64, quotient, remainder}
use ssh_hunt.Base.Sets.{insert_once}
use ssh_hunt.Base.Decimal.{show_int}
use ssh_hunt.World.Records.{NpcCombatState, NpcDuelState, HistoryEntry}
use ssh_hunt.World.State.{PlayerProfile, WorldState, Method, player_at, update_player}
use ssh_hunt.World.Duel.{CombatAction, attack, defend, script, softened, script_power, lose}

abbrev pub min_ℤ : ℤ → ℤ → ℤ
min_ℤ a b = if leb_ℤ a b then a else b

-- `times_defeated as i32`
abbrev pub defeats : NpcCombatState → ℤ
defeats npc = wrap_i32 (pos npc.times_defeated)

unfoldable pub scaled_hp : NpcCombatState → ℤ
scaled_hp npc = min_ℤ (wrap_i32 (npc.base_hp +ℤ wrap_i32 (defeats npc *ℤ pos 5))) (pos 300)

unfoldable pub scaled_damage : NpcCombatState → ℤ × ℤ
scaled_damage npc =
    let bonus = quotient (defeats npc) 2 in
    (
      min_ℤ (wrap_i32 (npc.damage_range.0 +ℤ bonus)) (pos 50),
      min_ℤ (wrap_i32 (npc.damage_range.1 +ℤ bonus)) (pos 50),
    )

abbrev pub npc_at : Text → WorldState → Option NpcCombatState
npc_at callsign w = lookup callsign w.npc_combat

abbrev pub npc_duel_at : ℕ → WorldState → Option NpcDuelState
npc_duel_at id w = lookup id w.npc_duels

abbrev pub put_npc_duel : ℕ → NpcDuelState → WorldState → WorldState
put_npc_duel id d w = record w { npc_duels = insert id d w.npc_duels }

abbrev pub drop_npc_duel : ℕ → WorldState → WorldState
drop_npc_duel id w = record w { npc_duels = remove id w.npc_duels }

abbrev pub new_npc_duel : ℕ → ℕ → ℕ → Text → ℤ → NpcDuelState
new_npc_duel fresh now player_id callsign hp = record {
  duel_id = fresh;
  player_id = player_id;
  npc_callsign = callsign;
  player_hp = pos 100;
  npc_hp = hp;
  player_defending = false;
  npc_defending = false;
  shell_bonus_ready = false;
  started_at = now;
}

-- `upper` is `str::to_uppercase` of the callsign.
unfoldable pub start_npc_duel : ℕ → ℕ → (Text → Text) → ℕ → Text → Method (NpcDuelState × Text)
start_npc_duel fresh now upper player_id callsign = do
  npc ← query (λ w. ok_or (npc_at (upper callsign) w) (text "unknown NPC callsign"))
  let duel = new_npc_duel fresh now player_id (upper callsign) (scaled_hp npc)
  modify (put_npc_duel fresh duel)
  let hp = show_int (scaled_hp npc)
  pure (
    duel,
    text "Hack initiated vs "
        ++ (npc.current_name
            ++ (text " ("
                ++ (npc.role
                    ++ (text ", Gen "
                        ++ (show_int (pos npc.generation)
                            ++ (text ") — HP: "
                                ++ (hp
                                    ++ (text "/"
                                        ++ (hp
                                            ++ (text ".\nShell challenge: "
                                                ++ (npc.shell_challenge
                                                    ++ text
                                                        "\nUse `hack solve` after running the shell command for bonus damage.\n"))))))))))),
  )
