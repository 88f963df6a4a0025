-- ===== src/World/Daily/Streaks.antt =====
-- One reward a day, and what a run of days pays.
use ssh_hunt.Base.{
  ℕ, zero, suc, min, ◌+◌, ◌*◌, ◌≤◌, ◌<◌, ◌≡◌, refl, ap, Bool, true, false, none, some, ok, lookup,
  insert, adjust, pair_key, nat_key, lookup-insert, lookup-adjust, pair_eq_iff, arith,
}
use mathlib.Core.Option.{get_or}
use ssh_hunt.Base.Int.{pos}
use ssh_hunt.World.State.{PlayerProfile, WorldState, player_at, day_of}
use ssh_hunt.World.Daily.{claim_daily_reward, rewarded, daily_reward, next_streak}

abbrev has_claimed : ℕ → ℕ → WorldState → Bool
has_claimed id day w = get_or (lookup (id, day) w.daily_claimed) false

module _ (id now : ℕ) (w : WorldState) where
  abbrev after : WorldState
  after = record w {
    players = adjust id (rewarded (day_of now)) w.players;
    daily_claimed = insert (id, day_of now) true w.daily_claimed;
  }

  refused : has_claimed id (day_of now) w ≡ true → claim_daily_reward id now w ≡ (ok (pos 0), w)
  unfolding claim_daily_reward
  refused e = ground arith

  granted :
      (p : PlayerProfile)
      → has_claimed id (day_of now) w ≡ false
      → player_at id w ≡ some p
      → claim_daily_reward id now w ≡ (ok (pos (daily_reward (next_streak (day_of now) p))), after)
  unfolding claim_daily_reward
  granted p e known = ground arith

  -- A player who asks twice on a day gets nothing the second time, and nothing changes.
  pub once_a_day :
      (p : PlayerProfile) (later : ℕ)
      → player_at id w ≡ some p
      → day_of later ≡ day_of now
      → let w' = (claim_daily_reward id now w).1 in
        claim_daily_reward id later w' ≡ (ok (pos 0), w')
  once_a_day p later known same = go (has_claimed id (day_of now) w) refl
    where
      go :
          (b : Bool)
          → has_claimed id (day_of now) w ≡ b
          → let w' = (claim_daily_reward id now w).1 in
            claim_daily_reward id later w' ≡ (ok (pos 0), w')
      go true e = rw (refused e) (ssh_hunt.World.Daily.Streaks.refused id later w (rw same e))
      go false e = rw (granted p e known) (
          ssh_hunt.World.Daily.Streaks.refused id later after (
            rw (same, lookup-insert (id, day_of now) (id, day_of now) true w.daily_claimed) ground
              (arith, pair_eq_iff (id, day_of now) (id, day_of now))))

-- A claim on each of `n` days, the i-th at the instant `times i`.
unfoldable pub claim_days : ℕ → (ℕ → ℕ) → ℕ → WorldState → WorldState
claim_days id times zero w = w
claim_days id times (suc n) w = (claim_daily_reward id (times n) (claim_days id times n w)).1

module _ (id first : ℕ) (times : ℕ → ℕ) (on_day : (i : ℕ) → day_of (times i) ≡ first + i) where
  -- The state after the claims of the days 0 … m.
  record HasStreak (m : ℕ) (w : WorldState) : Type 0 where
    player : PlayerProfile
    there : player_at id w ≡ some player
    long : player.streak ≡ min (suc m) 7
    on : player.streak_day ≡ some (first + m)
    open_days : (i : ℕ) → m < i → lookup (id, first + i) w.daily_claimed ≡ none

  -- A claim on a day that is open.
  claimed :
      (i : ℕ) (w : WorldState) (p : PlayerProfile)
      → player_at id w ≡ some p
      → ((j : ℕ) → i ≤ j → lookup (id, first + j) w.daily_claimed ≡ none)
      → next_streak (first + i) p ≡ min (suc i) 7
      → ((claim_daily_reward id (times i) w).0 ≡ ok (pos (50 + 15 * min (suc i) 7)))
        × HasStreak i (claim_daily_reward id (times i) w).1
  claimed i w p known free streak =
      rw
        (
          granted id (times i) w p (rw (on_day i, free i (omega arith)) refl) known,
          on_day i,
          streak,
        )
        (
          ap (λ (n : ℕ). ok (pos n)) (omega arith),
          record {
            player = rewarded (first + i) p;
            there = lookup-adjust id (rewarded (first + i)) w.players known;
            long = streak;
            on = refl;
            open_days = λ j lt.
                rw (lookup-insert (id, first + i) (id, first + j) true w.daily_claimed) ground
                  (arith, pair_eq_iff (id, first + i) (id, first + j), free j (omega arith));
          },
        )

  module _ (w : WorldState) (p : PlayerProfile) (known : player_at id w ≡ some p)
      (new : p.streak_day ≡ none)
      (free : (i : ℕ) → lookup (id, first + i) w.daily_claimed ≡ none) where
    nth_claim :
        (n : ℕ)
        → ((claim_daily_reward id (times n) (claim_days id times n w)).0
            ≡ ok (pos (50 + 15 * min (suc n) 7)))
          × HasStreak n (claim_days id times (suc n) w)
    unfolding claim_days
    nth_claim zero = claimed 0 w p known (λ j le. free j) (ground arith)
    nth_claim (suc n) =
        let s = (nth_claim n).1 in
        claimed (suc n) (claim_days id times (suc n) w) s.player s.there (λ j le. s.open_days j le)
          (rw (s.on, s.long) ground arith)

    -- A player without a streak who claims on consecutive days is paid 65 on the first and 15 more on
    -- each further day, up to 155 from the seventh day on.
    pub nth_reward :
        (n : ℕ)
        → (claim_daily_reward id (times n) (claim_days id times n w)).0
          ≡ ok (pos (50 + 15 * min (suc n) 7))
    nth_reward n = (nth_claim n).0
