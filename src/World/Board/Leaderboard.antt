-- ===== src/World/Board/Leaderboard.antt =====
-- The leaderboard is in order, leaves out the banned, and shows the first of all.
use ssh_hunt.Base.{
  ℕ, min, max, ◌≤◌, ◌≡◌, Bool, true, false, not, ◌&&◌, ◌||◌, Text, text_lt, text_lt_trans,
  text_lt_asym, length, map, All, arith, ltb, ◌==◌,
}
use ssh_hunt.Base.Int.{ℤ, ltb_ℤ, ◌==ℤ◌}
use ssh_hunt.Base.Sort.{
  IsOrder, IsSorted, sort_by, sort_by-IsSorted, take-IsSorted, All-take, length-take,
}
use ssh_hunt.Base.View.{IsFrom, IsShown, sorted_view-IsFrom, prefix_shows}
use ssh_hunt.World.State.{WorldState}
use ssh_hunt.World.Board.{
  LeaderboardEntry, entry_of, ranks, is_free, free_players, leaderboard_snapshot, values,
}

ranks_total : (a b : LeaderboardEntry) → ranks a b ≡ false → ranks b a ≡ true
unfolding ranks
ranks_total a b e = ground (arith, text_lt_asym b.display_name a.display_name)

-- A first key in falling order before a second one, over three items.
then_trans :
    (x y z : ℤ) (p q r : Bool)
    → (p ≡ true → q ≡ true → r ≡ true)
    → (ltb_ℤ y x || y ==ℤ x && p) ≡ true
    → (ltb_ℤ z y || z ==ℤ y && q) ≡ true
    → (ltb_ℤ z x || z ==ℤ x && r) ≡ true
then_trans x y z p q r f = ground arith

then_trans_ℕ :
    (x y z : ℕ) (p q r : Bool)
    → (p ≡ true → q ≡ true → r ≡ true)
    → (ltb y x || y == x && p) ≡ true
    → (ltb z y || z == y && q) ≡ true
    → (ltb z x || z == x && r) ≡ true
then_trans_ℕ x y z p q r f = ground arith

names_trans :
    (a b c : Text) → not (text_lt b a) ≡ true → not (text_lt c b) ≡ true → not (text_lt c a) ≡ true
names_trans a b c = ground (arith, text_lt_trans a b c)

ranks_trans : (a b c : LeaderboardEntry) → ranks a b ≡ true → ranks b c ≡ true → ranks a c ≡ true
unfolding ranks
ranks_trans a b c = then_trans a.reputation b.reputation c.reputation _ _ _ (
    then_trans a.wallet b.wallet c.wallet _ _ _ (
      then_trans_ℕ a.achievements b.achievements c.achievements _ _ _
        (names_trans a.display_name b.display_name c.display_name)))

ranks-IsOrder : IsOrder ranks
ranks-IsOrder = record { total = ranks_total; trans = ranks_trans }

-- The leaderboard is in order, has at most `limit` entries, and between one and fifty whatever the limit
-- says, has no entry of a banned player, and any other player has an entry or comes after all that are
-- shown.
pub leaderboard_lem :
    (limit : ℕ) (w : WorldState)
    → let out = leaderboard_snapshot limit w in
      let players = values w.players in
      IsSorted ranks out
      × (length out ≤ min (max limit 1) 50)
      × All (IsFrom entry_of is_free players) out
      × All (IsShown entry_of is_free ranks out) players
unfolding leaderboard_snapshot
leaderboard_lem limit w =
    let n = min (max limit 1) 50 in
    let players = values w.players in
    let sorted = sort_by ranks (map entry_of (free_players w)) in
    (
      take-IsSorted ranks n sorted
          (sort_by-IsSorted ranks ranks-IsOrder (map entry_of (free_players w))),
      length-take n sorted,
      All-take ranks (IsFrom entry_of is_free players) n sorted
          (sorted_view-IsFrom entry_of is_free ranks players),
      prefix_shows entry_of is_free ranks ranks-IsOrder n players,
    )
