-- ===== src/World/NpcDuel/Strikes.antt =====
-- A duel with a character comes to an end.
use ssh_hunt.Base.Actions.{bind-ok}
use ssh_hunt.Base.{
  ℕ, ◌≡◌, ◌⊎◌, inl, inr, refl, ◌∙◌, Bool, true, false, none, some, Text, ok, Bool-cases, insert,
  remove, nat_key, arith, ==_iff, if◌then◌else◌,
}
use ssh_hunt.Base.Int.{ℤ, pos, negsuc, ◌+ℤ◌, ◌-ℤ◌, ◌≤ℤ◌, leb_ℤ, int_laws}
use ssh_hunt.Base.Machine.{FitsI32, wrap_i32, wrap_i32_fits}
use ssh_hunt.World.Records.{NpcCombatState, NpcDuelState}
use ssh_hunt.World.State.{WorldState}
use ssh_hunt.World.Duel.{CombatAction, attack, defend, script, softened}
use ssh_hunt.World.Duel.Rounds.{IsFair, is_strike, power_range}
use ssh_hunt.World.NpcDuel.{scaled_damage, npc_at, npc_duel_at, put_npc_duel}
use ssh_hunt.World.NpcDuel.Scaling.{IsSane}
use ssh_hunt.World.NpcDuel.Turn.{
  Float32, npc_duel_action, take_turn, find_session, npc_answers, npc_defeated, npc_turn, npc_wins,
  succeed, player_turn, strike_damage, base_damage, bonus_of,
}

-- The damage of a strike by a fair move, with a bonus of 0 to 1000.
base_range :
    (action : CombatAction) (roll : ℕ)
    → is_strike action ≡ true
    → IsFair action roll
    → (pos 10 ≤ℤ base_damage action roll) × (base_damage action roll ≤ℤ pos 30)
base_range attack roll s fair = omega arith
base_range defend roll s fair = absurd (cc)
base_range (script name) roll s fair =
    let (least, most) = power_range name fair in (least, omega arith)

strike_range :
    (defending : Bool) (base bonus : ℤ)
    → (pos 10 ≤ℤ base) × (base ≤ℤ pos 30)
    → (pos 0 ≤ℤ bonus) × (bonus ≤ℤ pos 1000)
    → let dmg = softened defending (pos 5) (wrap_i32 (base +ℤ bonus)) in
      (pos 5 ≤ℤ dmg) × (dmg ≤ℤ pos 1030)
unfolding ◌+ℤ◌ wrap_i32
strike_range true (pos a) (pos b) h k = ground arith
strike_range false (pos a) (pos b) h k = ground arith
strike_range defending (negsuc a) bonus h k = absurd (omega arith)
strike_range defending (pos a) (negsuc b) h k = absurd (omega arith)

hit_fits :
    (hp dmg : ℤ)
    → (pos 1 ≤ℤ hp) × (hp ≤ℤ pos 300)
    → (pos 5 ≤ℤ dmg) × (dmg ≤ℤ pos 1030)
    → FitsI32 (hp -ℤ dmg)
unfolding ◌-ℤ◌
hit_fits hp dmg h k = ground arith

hp_left :
    (hp dmg : ℤ)
    → (pos 1 ≤ℤ hp) × (hp ≤ℤ pos 300)
    → (pos 5 ≤ℤ dmg) × (dmg ≤ℤ pos 1030)
    → (wrap_i32 (hp -ℤ dmg) +ℤ pos 5 ≤ℤ hp)
hp_left hp dmg h k = rw (wrap_i32_fits (hp -ℤ dmg) (hit_fits hp dmg h k)) (omega int_laws)

pub bonus_range :
    (d : NpcDuelState) (npc : NpcCombatState)
    → IsSane npc
    → (pos 0 ≤ℤ bonus_of d npc) × (bonus_of d npc ≤ℤ pos 1000)
bonus_range d npc sane = go d.shell_bonus_ready
  where
    go :
        (b : Bool)
        → (pos 0 ≤ℤ (if b then npc.shell_bonus_dmg else pos 0))
          × ((if b then npc.shell_bonus_dmg else pos 0) ≤ℤ pos 1000)
    go true = sane.bonus
    go false = omega arith

-- The same session, with the character's points as they were less the damage.
pub record After (dmg : ℕ) (d d' : NpcDuelState) : Type 0 where
  pub less : d'.npc_hp +ℤ pos dmg ≤ℤ d.npc_hp
  pub owner : d'.player_id ≡ d.player_id
  pub foe : d'.npc_callsign ≡ d.npc_callsign

pub player_turn_lem :
    (action : CombatAction) (roll : ℕ) (bonus : ℤ) (d : NpcDuelState)
    → is_strike action ≡ true
    → IsFair action roll
    → (pos 0 ≤ℤ bonus) × (bonus ≤ℤ pos 1000)
    → (pos 1 ≤ℤ d.npc_hp) × (d.npc_hp ≤ℤ pos 300)
    → After 5 d (player_turn action roll bonus d).0
player_turn_lem defend roll bonus d s fair b h = absurd (cc)
player_turn_lem attack roll bonus d s fair b h = record {
  less = hp_left d.npc_hp (strike_damage (base_damage attack roll) bonus d) h (
      strike_range d.npc_defending (base_damage attack roll) bonus (base_range attack roll s fair)
        b);
  owner = refl;
  foe = refl;
}
player_turn_lem (script name) roll bonus d s fair b h = record {
  less = hp_left d.npc_hp (strike_damage (base_damage (script name) roll) bonus d) h (
      strike_range d.npc_defending (base_damage (script name) roll) bonus
        (base_range (script name) roll s fair) b);
  owner = refl;
  foe = refl;
}

-- What a turn leaves of a session.
abbrev pub Left : ℕ → NpcDuelState → ℕ → WorldState → Type 0
Left dmg d id w =
    (npc_duel_at id w ≡ none)
    ⊎ ((d' : NpcDuelState) × (npc_duel_at id w ≡ some d') × After dmg d d')

-- The character's answer leaves its own points and the session's names alone.
pub npc_turn_same :
    (f : Float32) (luck : ℕ) (dmg : ℤ) (npc : NpcCombatState) (callsign : Text) (d : NpcDuelState)
    → let d' = (npc_turn f luck dmg npc callsign d).0 in
      (d'.npc_hp ≡ d.npc_hp) × (d'.player_id ≡ d.player_id) × (d'.npc_callsign ≡ d.npc_callsign)
npc_turn_same f luck dmg npc callsign d = (ground arith, ground arith, ground arith)

pub npc_defeated_duels :
    (now id : ℕ) (callsign : Text) (npc : NpcCombatState) (player : ℕ) (told : Text)
    (w : WorldState)
    → (npc_defeated now id callsign npc player told w).1.npc_duels ≡ remove id w.npc_duels
unfolding npc_defeated succeed
npc_defeated_duels now id callsign npc player told w = ground arith

pub npc_answers_duels :
    (f : Float32) (luck : ℕ) (pick : ℤ → ℤ → ℤ) (id : ℕ) (callsign : Text) (npc : NpcCombatState)
    (player : ℕ) (d : NpcDuelState) (told : Text) (w : WorldState)
    → let w' = (npc_answers f luck pick id callsign npc player d told w).1 in
      let d' =
        (npc_turn f luck (pick (scaled_damage npc).0 (scaled_damage npc).1) npc callsign d).0 in
      ((w'.npc_duels ≡ remove id (insert id d' w.npc_duels))
        ⊎ (w'.npc_duels ≡ insert id d' w.npc_duels))
      × (w'.npc_combat ≡ w.npc_combat)
unfolding npc_answers npc_wins
npc_answers_duels f luck pick id callsign npc player d told w =
    let d' =
      (npc_turn f luck (pick (scaled_damage npc).0 (scaled_damage npc).1) npc callsign d).0 in
    elim (Bool-cases (leb_ℤ d'.player_hp (pos 0))) [
      | inl over ↦ (inl (ground (arith, over)), ground (arith, over))
      | inr on ↦ (inr (ground (arith, on)), ground (arith, on))
    ]

module _ (f : Float32) (luck roll : ℕ) (pick : ℤ → ℤ → ℤ) (now id player : ℕ)
    (action : CombatAction) (w : WorldState) (d : NpcDuelState) (npc : NpcCombatState)
    (there : npc_duel_at id w ≡ some d) (mine : d.player_id ≡ player)
    (known : npc_at d.npc_callsign w ≡ some npc) where
  abbrev pub moved : NpcDuelState
  moved = (player_turn action roll (bonus_of d npc) d).0

  abbrev pub told : Text
  told = (player_turn action roll (bonus_of d npc) d).1

  session : find_session id player w ≡ (ok (d, npc), w)
  unfolding find_session
  session = ground (arith, ==_iff d.player_id player)

  wins_turn :
      leb_ℤ moved.npc_hp (pos 0) ≡ true
      → take_turn f luck roll pick now id player action (d, npc) w
        ≡ npc_defeated now id d.npc_callsign npc player told (put_npc_duel id moved w)
  unfolding take_turn
  wins_turn over = rw (over, take_turn) refl

  goes_on_turn :
      leb_ℤ moved.npc_hp (pos 0) ≡ false
      → take_turn f luck roll pick now id player action (d, npc) w
        ≡ npc_answers f luck pick id d.npc_callsign npc player moved told (put_npc_duel id moved w)
  unfolding take_turn
  goes_on_turn on = rw (on, take_turn) refl

  pub wins :
      leb_ℤ moved.npc_hp (pos 0) ≡ true
      → npc_duel_action f luck roll pick now id player action w
        ≡ npc_defeated now id d.npc_callsign npc player told (put_npc_duel id moved w)
  unfolding npc_duel_action
  wins over =
      bind-ok (find_session id player) (take_turn f luck roll pick now id player action) w session
      ∙ wins_turn over

  pub goes_on :
      leb_ℤ moved.npc_hp (pos 0) ≡ false
      → npc_duel_action f luck roll pick now id player action w
        ≡ npc_answers f luck pick id d.npc_callsign npc player moved told (put_npc_duel id moved w)
  unfolding npc_duel_action
  goes_on on =
      bind-ok (find_session id player) (take_turn f luck roll pick now id player action) w session
      ∙ goes_on_turn on
