-- ===== src/World/NpcDuel/Scaling.antt =====
-- How a character grows with its defeats.
use ssh_hunt.Base.{ℕ, ◌<◌, arith}
use ssh_hunt.Base.Int.{ℤ, pos, negsuc, ◌≤ℤ◌, ◌+ℤ◌, ◌*ℤ◌}
use ssh_hunt.Base.Machine.{wrap_i32, quotient}
use ssh_hunt.World.Records.{NpcCombatState}
use ssh_hunt.World.NpcDuel.{scaled_hp, scaled_damage, min_ℤ}

-- A character as the seeds make them: 1 to 300 points, damage in a range within 0 to 50, a bonus of 0
-- to 1000, and a count of defeats that is far from the limit of the type.
pub record IsSane (npc : NpcCombatState) : Type 0 where
  pub hp : (pos 1 ≤ℤ npc.base_hp) × (npc.base_hp ≤ℤ pos 300)
  pub least : pos 0 ≤ℤ npc.damage_range.0
  pub range : npc.damage_range.0 ≤ℤ npc.damage_range.1
  pub most : npc.damage_range.1 ≤ℤ pos 50
  pub bonus : (pos 0 ≤ℤ npc.shell_bonus_dmg) × (npc.shell_bonus_dmg ≤ℤ pos 1000)
  pub count : npc.times_defeated < 268435456

hp_bounds :
    (n : ℕ) (base : ℤ)
    → n < 268435456
    → (pos 1 ≤ℤ base) × (base ≤ℤ pos 300)
    → let hp = min_ℤ (wrap_i32 (base +ℤ wrap_i32 (wrap_i32 (pos n) *ℤ pos 5))) (pos 300) in
      (base ≤ℤ hp) × (hp ≤ℤ pos 300)
unfolding wrap_i32 ◌+ℤ◌ ◌*ℤ◌
hp_bounds n (pos base) few h = ground arith
hp_bounds n (negsuc base) few h = ground arith

damage_bounds :
    (n : ℕ) (lo hi : ℤ)
    → n < 268435456
    → pos 0 ≤ℤ lo
    → lo ≤ℤ hi
    → hi ≤ℤ pos 50
    → let bonus = quotient (wrap_i32 (pos n)) 2 in
      let lo' = min_ℤ (wrap_i32 (lo +ℤ bonus)) (pos 50) in
      let hi' = min_ℤ (wrap_i32 (hi +ℤ bonus)) (pos 50) in
      (lo ≤ℤ lo') × (lo' ≤ℤ hi') × (hi' ≤ℤ pos 50)
unfolding wrap_i32 ◌+ℤ◌
damage_bounds n (pos lo) (pos hi) few h k m = ground arith
damage_bounds n (pos lo) (negsuc hi) few h k m = absurd (omega arith)
damage_bounds n (negsuc lo) hi few h k m = absurd (omega arith)

-- A character whose points, damage and bonus are within the bounds, and which has been defeated fewer than
-- 2^28 times, has at least its first points and at most 300, and the range of its damage is not
-- empty, not below the first one and within 50: the choice in it cannot panic.
pub scaled_lem :
    (npc : NpcCombatState)
    → IsSane npc
    → (npc.base_hp ≤ℤ scaled_hp npc)
      × (scaled_hp npc ≤ℤ pos 300)
      × (npc.damage_range.0 ≤ℤ (scaled_damage npc).0)
      × ((scaled_damage npc).0 ≤ℤ (scaled_damage npc).1)
      × ((scaled_damage npc).1 ≤ℤ pos 50)
unfolding scaled_hp scaled_damage
scaled_lem npc sane =
    let (b, m) = hp_bounds npc.times_defeated npc.base_hp sane.count sane.hp in
    let (l, o, h) =
      damage_bounds npc.times_defeated npc.damage_range.0 npc.damage_range.1 sane.count sane.least
        sane.range sane.most in
    (b, m, l, o, h)
