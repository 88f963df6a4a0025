-- ===== src/World/Duel.antt =====
-- ssh-hunt/crates/world/src/lib.rs: `start_duel` and `duel_action` of `WorldService`. `roll` is what
-- the generator returns for `random_range(14..=30)`.
pub mod Rounds
pub mod Endings
pub mod Length
use ssh_hunt.Base.Actions.{◌>>=◌, ◌>>◌}
use ssh_hunt.Base.{
  ℕ, suc, ◌+◌, ◌%◌, Bool, true, false, not, ◌&&◌, ◌||◌, Option, none, some, List, [], ◌∷◌, ◌++◌,
  Text, text, insert, remove, nat_key, ok_or, pure, raise_if, query, modify, ltb, leb, ◌==◌,
  if◌then◌else◌,
}
use ssh_hunt.Base.Int.{ℤ, pos, ◌+ℤ◌, ◌-ℤ◌, ltb_ℤ, leb_ℤ}
use ssh_hunt.Base.Machine.{wrap_i64, wrap_i32, quotient, remainder}
use ssh_hunt.Base.Decimal.{show_int}
use ssh_hunt.World.State.{
  ExperienceTier, noob, gud, hardcore, PlayerProfile, DuelState, WorldState, Method, duel_at,
  find_player, update_player,
}

pub data CombatAction : Type 0 where
  attack : CombatAction
  defend : CombatAction
  script : Text → CombatAction

pub record CombatResult : Type 0 where
  pub narrative : Text
  pub ended : Bool
  pub winner : Option ℕ
  pub loser : Option ℕ

-- `ensure_not_zeroed`
unfoldable pub ensure_not_zeroed : ℕ → Method (Unit {0})
ensure_not_zeroed id = do
  player ← find_player id (text "unknown player")
  raise_if player.banned (text "player zeroed")

abbrev pub put_duel : ℕ → DuelState → WorldState → WorldState
put_duel id d w = record w { duels = insert id d w.duels }

abbrev pub new_duel : ℕ → ℕ → ℕ → ℕ → DuelState
new_duel fresh now left right = record {
  duel_id = fresh;
  left = left;
  right = right;
  left_hp = pos 100;
  right_hp = pos 100;
  left_defending = false;
  right_defending = false;
  started_at = now;
  last_actor = none;
}

unfoldable pub start_duel : ℕ → ℕ → ℕ → ℕ → Method DuelState
unfolding ensure_not_zeroed
start_duel fresh now left right = do
  ensure_not_zeroed left
  ensure_not_zeroed right
  modify (put_duel fresh (new_duel fresh now left right))
  pure (new_duel fresh now left right)

-- `str::len`: the bytes of the characters
unfoldable pub byte_length : Text → ℕ
byte_length [] = 0
byte_length (c ∷ s) =
    (if ltb c 128 then 1 else if ltb c 2048 then 2 else if ltb c 65536 then 3 else 4)
    + byte_length s

abbrev pub max_ℤ : ℤ → ℤ → ℤ
max_ℤ a b = if leb_ℤ a b then b else a

-- The damage before and after the defender's hardening.
abbrev pub softened : Bool → ℤ → ℤ → ℤ
softened defending least dmg = if defending then max_ℤ (quotient dmg 2) least else dmg

unfoldable pub script_power : Text → ℤ
script_power name = wrap_i32 (pos 10 +ℤ remainder (wrap_i32 (pos (byte_length name))) 17)

-- The attacker is the left player or the right one.
abbrev pub defender_hp : Bool → DuelState → ℤ
defender_hp true d = d.right_hp
defender_hp false d = d.left_hp

abbrev pub attacker_hp : Bool → DuelState → ℤ
attacker_hp true d = d.left_hp
attacker_hp false d = d.right_hp

abbrev pub defender_def : Bool → DuelState → Bool
defender_def true d = d.right_defending
defender_def false d = d.left_defending

abbrev pub harden : Bool → DuelState → DuelState
harden true d = record d { left_defending = true }
harden false d = record d { right_defending = true }

-- Both stances fall: the defender's has been used, the attacker's given up.
abbrev pub hit : Bool → ℤ → DuelState → DuelState
hit true dmg d = record d {
  right_hp = wrap_i32 (d.right_hp -ℤ dmg);
  right_defending = false;
  left_defending = false;
}
hit false dmg d = record d {
  left_hp = wrap_i32 (d.left_hp -ℤ dmg);
  left_defending = false;
  right_defending = false;
}

-- The duel after the action, and what is told of it.
abbrev pub act : Bool → CombatAction → ℕ → DuelState → DuelState × Text
act is_left defend roll d =
    (harden is_left d, text "Defensive shell hardening enabled (+mitigation)")
act is_left attack roll d =
    let dmg = softened (defender_def is_left d) (pos 5) (pos roll) in
    (
      hit is_left dmg d,
      text "Exploit chain landed for " ++ (show_int dmg ++ text " integrity damage"),
    )
act is_left (script name) roll d =
    let dmg = softened (defender_def is_left d) (pos 4) (script_power name) in
    (
      hit is_left dmg d,
      text "Script `"
          ++ (name ++ (text "` executed, causing " ++ (show_int dmg ++ text " disruption"))),
    )

abbrev pub is_over : Bool → DuelState → Bool
is_over is_left d = leb_ℤ (defender_hp is_left d) (pos 0) || leb_ℤ (attacker_hp is_left d) (pos 0)

-- The winner and the loser.
abbrev pub outcome : DuelState → ℕ × ℕ
outcome d = if ltb_ℤ d.right_hp d.left_hp then (d.left, d.right) else (d.right, d.left)

abbrev pub is_hardcore : ExperienceTier → Bool
is_hardcore hardcore = true
is_hardcore noob = false
is_hardcore gud = false

abbrev pub win : PlayerProfile → PlayerProfile
win p = record p {
  wallet = wrap_i64 (p.wallet +ℤ pos 40);
  reputation = wrap_i64 (p.reputation +ℤ pos 3);
}

abbrev pub lose : PlayerProfile → PlayerProfile
lose p =
    let deaths' = suc p.deaths % 4294967296 in
    record p { deaths = deaths'; banned = is_hardcore p.tier && leb 3 deaths' || p.banned }

-- The end of a duel.
unfoldable pub finish_duel : ℕ → Text → DuelState → Method CombatResult
finish_duel duel_id narrative duel = do
  let (winner, loser) = outcome duel
  modify (λ w. record w { duels = remove duel_id w.duels })
  modify (update_player winner win)
  modify (update_player loser lose)
  pure (record {
    narrative = narrative ++ text ". Duel complete.";
    ended = true;
    winner = some winner;
    loser = some loser;
  })

unfoldable pub duel_action : ℕ → ℕ → CombatAction → ℕ → Method CombatResult
unfolding finish_duel
duel_action duel_id actor action roll = do
  duel ← query (λ w. ok_or (duel_at duel_id w) (text "duel not found"))
  let is_left = actor == duel.left
  raise_if (not is_left && not (actor == duel.right)) (text "not a duel participant")
  let (acted, narrative) = act is_left action roll duel
  let duel' = record acted { last_actor = some actor }
  modify (put_duel duel_id duel')
  if is_over is_left duel'
      then finish_duel duel_id narrative duel'
      else pure (record { narrative = narrative; ended = false; winner = none; loser = none })
