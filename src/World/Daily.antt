-- ===== src/World/Daily.antt =====
-- ssh-hunt/crates/world/src/lib.rs: `WorldService::claim_daily_reward`.
pub mod Streaks
use ssh_hunt.Base.Actions.{◌>>=◌, ◌>>◌}
use ssh_hunt.Base.{
  ℕ, suc, min, ◌+◌, ◌*◌, ◌%◌, Bool, true, false, not, Option, none, some, text, lookup, insert,
  adjust, pair_key, pure, gets, modify, ◌==◌, if◌then◌else◌,
}
use mathlib.Core.Option.{get_or}
use ssh_hunt.Base.Int.{ℤ, pos, ◌+ℤ◌}
use ssh_hunt.Base.Machine.{wrap_i64}
use ssh_hunt.World.State.{PlayerProfile, WorldState, Method, day_of, find_player, update_player}

-- The streak with a claim on the day.
abbrev pub next_streak : ℕ → PlayerProfile → ℕ
next_streak day p = elim p.streak_day [
  | none ↦ 1
  | some last ↦
      if suc last == day
      then min (suc p.streak % 4294967296) 7
      else if not (last == day)
      then 1
      else p.streak
]

abbrev pub daily_reward : ℕ → ℕ
daily_reward streak = 50 + min (streak * 15) 120

abbrev pub rewarded : ℕ → PlayerProfile → PlayerProfile
rewarded day p = record p {
  streak = next_streak day p;
  streak_day = some day;
  wallet = wrap_i64 (p.wallet +ℤ pos (daily_reward (next_streak day p)));
}

unfoldable pub claim_daily_reward : ℕ → ℕ → Method ℤ
claim_daily_reward player_id now = do
  let day = day_of now
  claimed ← gets (λ w. get_or (lookup (player_id, day) w.daily_claimed) false)
  if claimed then pure (pos 0) else do
    player ← find_player player_id (text "unknown player")
    modify (update_player player_id (rewarded day))
    modify (λ w. record w { daily_claimed = insert (player_id, day) true w.daily_claimed })
    pure (pos (daily_reward (next_streak day player)))
