-- ===== src/World/NpcDuel/Turn.antt =====
-- ssh-hunt/crates/world/src/lib.rs: `npc_duel_action` and `npc_duel_solve_bonus`. `roll` is the
-- generator's number for a player's attack, `pick` its choice in the range of the character's damage,
-- `luck` its `f32` for the character's answer. A panic is an error that stops the method.
use ssh_hunt.Base.Actions.{◌>>=◌, ◌>>◌}
use ssh_hunt.Base.{
  ℕ, suc, min, ◌-◌, ◌%◌, Bool, true, false, not, Option, none, some, List, [], ◌∷◌, ◌++◌, Text,
  text, contains_text, length, get_elem?, insert, is_empty, text_key, nat_key, ok_or, pure,
  raise_if, query, gets, modify, ◌==◌, if◌then◌else◌,
}
use ssh_hunt.Base.Int.{ℤ, pos, ◌+ℤ◌, ◌-ℤ◌, ltb_ℤ, leb_ℤ}
use ssh_hunt.Base.Machine.{wrap_i32, wrap_i64}
use ssh_hunt.Base.Sets.{insert_once}
use ssh_hunt.Base.Decimal.{show_int}
use ssh_hunt.World.Records.{NpcCombatState, NpcDuelState, HistoryEntry}
use ssh_hunt.World.State.{PlayerProfile, WorldState, Method, player_at, update_player}
use ssh_hunt.World.Duel.{CombatAction, attack, defend, script, softened, script_power, lose}
use ssh_hunt.World.NpcDuel.{
  scaled_hp, scaled_damage, npc_at, npc_duel_at, put_npc_duel, drop_npc_duel,
}

-- The arithmetic of `f32`, on the bits.
pub record Float32 : Type 0 where
  pub add : ℕ → ℕ → ℕ
  pub mul : ℕ → ℕ → ℕ
  pub least : ℕ → ℕ → ℕ
  pub less : ℕ → ℕ → Bool
  pub of_u32 : ℕ → ℕ

-- 0.02 and 0.70
abbrev pub chance_step : ℕ
chance_step = 1017370378

abbrev pub chance_cap : ℕ
chance_cap = 1060320051

unfoldable pub scaled_defend_chance : Float32 → NpcCombatState → ℕ
scaled_defend_chance f npc =
    f.least (f.add npc.defend_chance (f.mul (f.of_u32 npc.times_defeated) chance_step)) chance_cap

pub record NpcCombatResult : Type 0 where
  pub narrative : Text
  pub ended : Bool
  pub player_won : Bool

abbrev pub base_damage : CombatAction → ℕ → ℤ
base_damage attack roll = pos roll
base_damage defend roll = pos 0
base_damage (script name) roll = script_power name

-- The damage with the bonus, after the character's hardening.
abbrev pub strike_damage : ℤ → ℤ → NpcDuelState → ℤ
strike_damage base bonus d = softened d.npc_defending (pos 5) (wrap_i32 (base +ℤ bonus))

abbrev pub strike : ℤ → NpcDuelState → NpcDuelState
strike dmg d = record d {
  npc_hp = wrap_i32 (d.npc_hp -ℤ dmg);
  npc_defending = false;
  player_defending = false;
  shell_bonus_ready = false;
}

abbrev pub strike_told : ℤ → ℤ → Text
strike_told dmg bonus =
    if ltb_ℤ (pos 0) bonus
    then text "Exploit chain landed for "
      ++ (show_int dmg ++ (text " damage (+" ++ (show_int bonus ++ text " shell bonus).\n")))
    else text "Exploit chain landed for " ++ (show_int dmg ++ text " damage.\n")

-- The player's part of the turn.
abbrev pub player_turn : CombatAction → ℕ → ℤ → NpcDuelState → NpcDuelState × Text
player_turn defend roll bonus d = (
  record d { player_defending = true },
  text "Defensive shell hardening enabled (+mitigation).\n",
)
player_turn attack roll bonus d =
    let dmg = strike_damage (base_damage attack roll) bonus d in
    (strike dmg d, strike_told dmg bonus)
player_turn (script name) roll bonus d =
    let dmg = strike_damage (base_damage (script name) roll) bonus d in
    (strike dmg d, strike_told dmg bonus)

-- The name of the next generation; `none` is the panic of an empty pool.
unfoldable pub successor_name : ℕ → List Text → Option Text
successor_name generation pool =
    if is_empty pool then none else get_elem? pool (min generation (length pool - 1))

abbrev pub counted : NpcCombatState → NpcCombatState
counted npc = record npc {
  times_defeated = suc npc.times_defeated % 4294967296;
  generation = suc npc.generation % 4294967296;
}

abbrev pub promoted : Text → NpcCombatState → NpcCombatState
promoted name npc = record (counted npc) { current_name = name }

abbrev pub reward : NpcCombatState → PlayerProfile → PlayerProfile
reward npc p = record p {
  wallet = wrap_i64 (p.wallet +ℤ npc.reward_wallet);
  reputation = wrap_i64 (p.reputation +ℤ npc.reward_rep);
  achievements = insert_once npc.reward_achievement p.achievements;
}

abbrev pub push_history : HistoryEntry → WorldState → WorldState
push_history e w = record w { history = w.history ++ e ∷ [] }

abbrev pub defeat_entry : ℕ → NpcCombatState → Text → HistoryEntry
defeat_entry now npc defeated_by = record {
  event = npc.current_name ++ (text " defeated by " ++ defeated_by);
  npc_name = npc.current_name;
  npc_role = npc.role;
  generation = npc.generation;
  defeated_by = defeated_by;
  timestamp = now;
}

abbrev pub successor_entry : ℕ → NpcCombatState → HistoryEntry
successor_entry now npc = record {
  event =
      npc.current_name
      ++ (text " assumes role of "
          ++ (npc.role ++ (text " (Gen " ++ (show_int (pos npc.generation) ++ text ")"))));
  npc_name = npc.current_name;
  npc_role = npc.role;
  generation = npc.generation;
  defeated_by = [];
  timestamp = now;
}

abbrev pub display_of : Option PlayerProfile → Text
display_of none = []
display_of (some p) = p.display_name

abbrev pub put_npc : Text → NpcCombatState → WorldState → WorldState
put_npc callsign npc w = record w { npc_combat = insert callsign npc w.npc_combat }

-- A character that can be replaced is: the next generation takes the role. A panic comes after the
-- counts have been raised.
unfoldable pub succeed : ℕ → Text → NpcCombatState → Method Text
succeed now callsign npc = do
  let generation = suc npc.generation % 4294967296
  modify (put_npc callsign (counted npc))
  name ← query (λ w. ok_or (successor_name generation npc.name_pool) (text "panic"))
  modify (put_npc callsign (promoted name npc))
  modify (push_history (successor_entry now (promoted name npc)))
  pure (text "A successor emerges. " ++ (npc.current_name ++ text " has been replaced.\n"))

unfoldable pub npc_defeated : ℕ → ℕ → Text → NpcCombatState → ℕ → Text → Method NpcCombatResult
unfolding succeed
npc_defeated now duel_id callsign npc player_id told = do
  modify (drop_npc_duel duel_id)
  let told' = told ++ (callsign ++ text " systems compromised. Hack complete!\n")
  modify (update_player player_id (reward npc))
  defeated_by ← gets (λ w. display_of (player_at player_id w))
  modify (push_history (defeat_entry now npc defeated_by))
  more ← if npc.replaceable then succeed now callsign npc else pure []
  pure (record { narrative = told' ++ more; ended = true; player_won = true })

-- The character's part of the turn, with the choice of its damage.
abbrev pub npc_turn : Float32 → ℕ → ℤ → NpcCombatState → Text → NpcDuelState → NpcDuelState × Text
npc_turn f luck dmg npc callsign d =
    let chance = scaled_defend_chance f npc in
    let dmg' = softened d.player_defending (pos 5) dmg in
    if f.less luck chance
    then (
      record d { npc_defending = true },
      callsign ++ text " activates defensive countermeasures.\n",
    )
    else (
      record d { player_hp = wrap_i32 (d.player_hp -ℤ dmg'); player_defending = false },
      callsign
          ++ ((if f.less luck (f.add chance npc.script_chance)
                then text " runs counter-script for "
                else text " retaliates for ")
              ++ (show_int dmg' ++ text " damage.\n")),
    )

abbrev pub standing : NpcDuelState → Text → ℤ → Text
standing d callsign max_hp =
    text "You: "
    ++ (show_int d.player_hp
        ++ (text "/100 HP | "
            ++ (callsign
                ++ (text ": "
                    ++ (show_int d.npc_hp ++ (text "/" ++ (show_int max_hp ++ text "\n")))))))

unfoldable pub npc_wins : ℕ → ℕ → Text → Method NpcCombatResult
npc_wins duel_id player_id told = do
  modify (drop_npc_duel duel_id)
  modify (update_player player_id lose)
  pure (record {
    narrative = told ++ text "Your systems are compromised. Hack failed.\n";
    ended = true;
    player_won = false;
  })

unfoldable pub npc_answers :
    Float32
    → ℕ
    → (ℤ → ℤ → ℤ)
    → ℕ
    → Text
    → NpcCombatState
    → ℕ
    → NpcDuelState
    → Text
    → Method NpcCombatResult
unfolding scaled_defend_chance npc_wins
npc_answers f luck pick duel_id callsign npc player_id d told = do
  let (lo, hi) = scaled_damage npc
  let (d', answer) = npc_turn f luck (pick lo hi) npc callsign d
  modify (put_npc_duel duel_id d')
  if leb_ℤ d'.player_hp (pos 0)
      then npc_wins duel_id player_id (told ++ answer)
      else pure (record {
        narrative = told ++ (answer ++ standing d' callsign (scaled_hp npc));
        ended = false;
        player_won = false;
      })

abbrev pub bonus_of : NpcDuelState → NpcCombatState → ℤ
bonus_of d npc = if d.shell_bonus_ready then npc.shell_bonus_dmg else pos 0

-- The player's session, and the character in it.
unfoldable pub find_session : ℕ → ℕ → Method (NpcDuelState × NpcCombatState)
find_session duel_id player_id = do
  duel ← query (λ w. ok_or (npc_duel_at duel_id w) (text "no active hack session"))
  raise_if (not (duel.player_id == player_id)) (text "not your hack session")
  npc ← query (λ w. ok_or (npc_at duel.npc_callsign w) (text "NPC state missing"))
  pure (duel, npc)

-- What an action does in the session.
unfoldable pub take_turn :
    Float32
    → ℕ
    → ℕ
    → (ℤ → ℤ → ℤ)
    → ℕ
    → ℕ
    → ℕ
    → CombatAction
    → NpcDuelState × NpcCombatState
    → Method NpcCombatResult
unfolding npc_defeated npc_answers
take_turn f luck roll pick now duel_id player_id action (duel, npc) = do
  let callsign = duel.npc_callsign
  let (d, told) = player_turn action roll (bonus_of duel npc) duel
  modify (put_npc_duel duel_id d)
  if leb_ℤ d.npc_hp (pos 0)
      then npc_defeated now duel_id callsign npc player_id told
      else npc_answers f luck pick duel_id callsign npc player_id d told

unfoldable pub npc_duel_action :
    Float32 → ℕ → ℕ → (ℤ → ℤ → ℤ) → ℕ → ℕ → ℕ → CombatAction → Method NpcCombatResult
unfolding find_session take_turn
npc_duel_action f luck roll pick now duel_id player_id action =
    find_session duel_id player_id >>= take_turn f luck roll pick now duel_id player_id action

unfoldable pub solved : ℕ → NpcDuelState → NpcCombatState → Method Text
solved duel_id duel npc = do
  modify (put_npc_duel duel_id (record duel { shell_bonus_ready = true }))
  pure (
      text "Shell challenge solved! +"
      ++ (show_int npc.shell_bonus_dmg ++ text " bonus damage on next attack.\n"))

unfoldable pub npc_duel_solve_bonus : ℕ → ℕ → Text → Method Text
unfolding find_session solved
npc_duel_solve_bonus duel_id player_id output = do
  session ← find_session duel_id player_id
  let (duel, npc) = session
  if contains_text npc.shell_answer output
      then solved duel_id duel npc
      else pure (text "Challenge not solved. Expected output did not match.\n")
