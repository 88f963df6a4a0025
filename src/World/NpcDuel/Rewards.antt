-- ===== src/World/NpcDuel/Rewards.antt =====
-- What the code gives for the defeat of a character, and what it makes of the character.
use ssh_hunt.Base.{
  ℕ, suc, ◌%◌, ◌<◌, ◌≡◌, refl, [], ◌++◌, Text, text, nat_key, text_key, arith, ◌||◌, text_eq,
}
use ssh_hunt.Base.Int.{pos, ◌+ℤ◌}
use ssh_hunt.Base.Machine.{FitsI64, wrap_i64_fits}
use ssh_hunt.Base.Sets.{member, member-insert_once}
use ssh_hunt.Base.Decimal.{show_int}
use ssh_hunt.World.Records.{NpcCombatState, HistoryEntry}
use ssh_hunt.World.State.{PlayerProfile}
use ssh_hunt.World.NpcDuel.Turn.{reward}

-- What a player has after the defeat of a character: the wallet and the reputation are raised by what it
-- brings, its achievement is added, and the rest is as before.
pub record IsRewarded (npc : NpcCombatState) (p q : PlayerProfile) : Type 0 where
  pub wallet : q.wallet ≡ p.wallet +ℤ npc.reward_wallet
  pub reputation : q.reputation ≡ p.reputation +ℤ npc.reward_rep
  pub achievements :
      (a : Text)
      → member a q.achievements ≡ (text_eq npc.reward_achievement a || member a p.achievements)
  pub rest :
      record q { wallet = p.wallet; reputation = p.reputation; achievements = p.achievements } ≡ p

pub reward-IsRewarded :
    (npc : NpcCombatState) (p : PlayerProfile)
    → FitsI64 (p.wallet +ℤ npc.reward_wallet)
    → FitsI64 (p.reputation +ℤ npc.reward_rep)
    → IsRewarded npc p (reward npc p)
reward-IsRewarded npc p fit fit' = record {
  wallet = wrap_i64_fits (p.wallet +ℤ npc.reward_wallet) fit;
  reputation = wrap_i64_fits (p.reputation +ℤ npc.reward_rep) fit';
  achievements = λ a. member-insert_once npc.reward_achievement a p.achievements;
  rest = refl;
}

-- The line of the ledger for the defeat of a character.
abbrev pub fallen : ℕ → NpcCombatState → Text → HistoryEntry
fallen now npc by = record {
  event = npc.current_name ++ (text " defeated by " ++ by);
  npc_name = npc.current_name;
  npc_role = npc.role;
  generation = npc.generation;
  defeated_by = by;
  timestamp = now;
}

-- The line for its successor, by name.
abbrev pub risen : ℕ → NpcCombatState → Text → HistoryEntry
risen now npc name = record {
  event =
      name
      ++ (text " assumes role of "
          ++ (npc.role ++ (text " (Gen " ++ (show_int (pos (suc npc.generation)) ++ text ")"))));
  npc_name = name;
  npc_role = npc.role;
  generation = suc npc.generation;
  defeated_by = [];
  timestamp = now;
}

-- The character with one more defeat, one generation on, under a name.
abbrev pub next_of : NpcCombatState → Text → NpcCombatState
next_of npc name = record npc {
  current_name = name;
  times_defeated = suc npc.times_defeated;
  generation = suc npc.generation;
}

pub wrap_u32 : (n : ℕ) → suc n < 4294967296 → suc n % 4294967296 ≡ suc n
wrap_u32 n small = omega arith
