-- ===== src/World/Duel/Rounds.antt =====
-- The integrity of the players in a duel, and what an action does to it.
use ssh_hunt.Base.{ℕ, ◌≤◌, ◌<◌, ◌≡◌, ◌⊎◌, inr, Bool, true, false, Text, arith, if◌then◌else◌}
use ssh_hunt.Base.Int.{ℤ, pos, negsuc, ◌-ℤ◌, ◌+ℤ◌, ◌≤ℤ◌, int_laws, -ℤ_parts}
use ssh_hunt.Base.Machine.{wrap_i32, wrap_i32_fits}
use ssh_hunt.World.State.{DuelState}
use ssh_hunt.World.Duel.{
  CombatAction, attack, defend, script, byte_length, softened, script_power, act, defender_def, hit,
  is_over,
}

-- What the generator and the memory allow: a roll in 14..=30, a script's name under 2 GiB.
abbrev pub IsFair : CombatAction → ℕ → Type 0
IsFair attack roll = (14 ≤ roll) × (roll ≤ 30)
IsFair defend roll = Unit {0}
IsFair (script name) roll = byte_length name < 2147483648

-- Both players stand.
abbrev pub IsFighting : DuelState → Type 0
IsFighting d =
    (pos 1 ≤ℤ d.left_hp) × (d.left_hp ≤ℤ pos 100) × (pos 1 ≤ℤ d.right_hp) × (d.right_hp ≤ℤ pos 100)

abbrev pub is_strike : CombatAction → Bool
is_strike attack = true
is_strike defend = false
is_strike (script name) = true

attack_range :
    (defending : Bool) (roll : ℕ)
    → (14 ≤ roll) × (roll ≤ 30)
    → (pos 5 ≤ℤ softened defending (pos 5) (pos roll))
      × (softened defending (pos 5) (pos roll) ≤ℤ pos 30)
attack_range true roll fair = ground arith
attack_range false roll fair = ground arith

pub power_range :
    (name : Text)
    → byte_length name < 2147483648
    → (pos 10 ≤ℤ script_power name) × (script_power name ≤ℤ pos 26)
unfolding script_power ◌+ℤ◌ wrap_i32
power_range name short = ground arith

script_range :
    (defending : Bool) (power : ℤ)
    → (pos 10 ≤ℤ power) × (power ≤ℤ pos 26)
    → (pos 5 ≤ℤ softened defending (pos 4) power) × (softened defending (pos 4) power ≤ℤ pos 26)
script_range true (pos n) fair = ground arith
script_range true (negsuc n) fair = ground arith
script_range false power fair = ground arith

-- What both players have left.
abbrev pub total : DuelState → ℤ
total d = d.left_hp +ℤ d.right_hp

left_over :
    (hp dmg : ℤ)
    → (pos 1 ≤ℤ hp) × (hp ≤ℤ pos 100)
    → (pos 5 ≤ℤ dmg) × (dmg ≤ℤ pos 30)
    → wrap_i32 (hp -ℤ dmg) ≡ hp -ℤ dmg
unfolding ◌-ℤ◌
left_over hp dmg h r = wrap_i32_fits (hp -ℤ dmg) (ground arith)

-- A hit by 5 to 30: the defender has that much less and no one gains.
hit_lem :
    (is_left : Bool) (dmg : ℤ) (d : DuelState)
    → IsFighting d
    → (pos 5 ≤ℤ dmg) × (dmg ≤ℤ pos 30)
    → (total (hit is_left dmg d) +ℤ pos 5 ≤ℤ total d)
      × ((is_over is_left (hit is_left dmg d) ≡ true) ⊎ IsFighting (hit is_left dmg d))
hit_lem true dmg d (l1, l2, r1, r2) r =
    rw (left_over d.right_hp dmg (r1, r2) r)
      (omega int_laws, ground (arith, -ℤ_parts d.right_hp dmg))
hit_lem false dmg d (l1, l2, r1, r2) r =
    rw (left_over d.left_hp dmg (l1, l2) r) (omega int_laws, ground (arith, -ℤ_parts d.left_hp dmg))

-- An action in a duel whose players both stand: the duel is over, or both stand still. An attack or
-- a script takes five or more off, a defence nothing.
pub act_lem :
    (is_left : Bool) (action : CombatAction) (roll : ℕ) (d : DuelState)
    → IsFighting d
    → IsFair action roll
    → let d' = (act is_left action roll d).0 in
      ((is_over is_left d' ≡ true) ⊎ IsFighting d')
      × (total d' +ℤ pos (if is_strike action then 5 else 0) ≤ℤ total d)
act_lem true defend roll d f fair = (inr f, omega int_laws)
act_lem false defend roll d f fair = (inr f, omega int_laws)
act_lem is_left attack roll d f fair =
    let h =
      hit_lem is_left (softened (defender_def is_left d) (pos 5) (pos roll)) d f
        (attack_range (defender_def is_left d) roll fair) in
    (h.1, h.0)
act_lem is_left (script name) roll d f fair =
    let (least, most) =
      script_range (defender_def is_left d) (script_power name) (power_range name fair) in
    let h =
      hit_lem is_left (softened (defender_def is_left d) (pos 4) (script_power name)) d f
        (least, omega arith) in
    (h.1, h.0)
