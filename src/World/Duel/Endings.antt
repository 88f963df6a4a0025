-- ===== src/World/Duel/Endings.antt =====
-- The duels of the world: which stand, how one ends, and that it ends.
use ssh_hunt.Base.{
  ℕ, suc, ◌%◌, ◌≤◌, ◌<◌, leb, ◌&&◌, ◌||◌, ap, ◌≡◌, ◌≢◌, ◌⊎◌, inl, inr, refl, sym, ◌∙◌, Bool, true,
  false, none, some, ◌++◌, Text, text, ok, err, insert, adjust, lookup-remove, lookup-adjust,
  lookup-adjust_other, nat_key, arith, ==_iff, ◌==◌, if◌then◌else◌,
}
use ssh_hunt.Base.Int.{pos, ◌+ℤ◌, ◌≤ℤ◌}
use ssh_hunt.Base.Machine.{FitsI64, wrap_i64_fits}
use ssh_hunt.World.State.{
  ExperienceTier, noob, gud, hardcore, DuelState, PlayerProfile, WorldState, duel_at, player_at,
}
use ssh_hunt.World.Duel.{
  CombatAction, attack, defend, script, act, attacker_hp, is_over, finish_duel, duel_action,
  put_duel, win, lose, is_hardcore, outcome,
}
use ssh_hunt.World.Duel.Rounds.{IsFighting}

pub act_keeps :
    (is_left : Bool) (action : CombatAction) (roll actor : ℕ) (d : DuelState)
    → let d' = record ((act is_left action roll d).0) { last_actor = some actor } in
      (d'.left ≡ d.left) × (d'.right ≡ d.right) × (attacker_hp is_left d' ≡ attacker_hp is_left d)
act_keeps true attack roll actor d = (refl, refl, refl)
act_keeps true defend roll actor d = (refl, refl, refl)
act_keeps true (script name) roll actor d = (refl, refl, refl)
act_keeps false attack roll actor d = (refl, refl, refl)
act_keeps false defend roll actor d = (refl, refl, refl)
act_keeps false (script name) roll actor d = (refl, refl, refl)

attacker_stands : (is_left : Bool) (d : DuelState) → IsFighting d → pos 1 ≤ℤ attacker_hp is_left d
attacker_stands true d f = f.0
attacker_stands false d (l1, l2, r1, r2) = r1

-- A duel that is over while the attacker stands goes to the attacker.
attacker_wins :
    (is_left : Bool) (d : DuelState)
    → pos 1 ≤ℤ attacker_hp is_left d
    → is_over is_left d ≡ true
    → outcome d ≡ (if is_left then (d.left, d.right) else (d.right, d.left))
attacker_wins true d stands over = ground arith
attacker_wins false d stands over = ground arith

paid :
    (p : PlayerProfile)
    → FitsI64 (p.wallet +ℤ pos 40)
    → FitsI64 (p.reputation +ℤ pos 3)
    → win p ≡ record p { wallet = p.wallet +ℤ pos 40; reputation = p.reputation +ℤ pos 3 }
paid p fit fit' =
    rw (wrap_i64_fits (p.wallet +ℤ pos 40) fit, wrap_i64_fits (p.reputation +ℤ pos 3) fit') refl

-- A player after a defeat: one more death, a ban of a hardcore player from the third death on, and the
-- rest as before.
pub record IsBeaten (q q' : PlayerProfile) : Type 0 where
  pub deaths : q'.deaths ≡ suc q.deaths
  pub banned : q.tier ≡ hardcore → 3 ≤ suc q.deaths → q'.banned ≡ true
  pub spared_early : suc q.deaths < 3 → q'.banned ≡ q.banned
  pub spared_others : q.tier ≢ hardcore → q'.banned ≡ q.banned
  pub rest : record q' { deaths = q.deaths; banned = q.banned } ≡ q

ban_lem :
    (tier : ExperienceTier) (deaths : ℕ) (banned : Bool)
    → let now_banned = is_hardcore tier && leb 3 deaths || banned in
      (tier ≡ hardcore → 3 ≤ deaths → now_banned ≡ true)
      × (deaths < 3 → now_banned ≡ banned)
      × (tier ≢ hardcore → now_banned ≡ banned)
ban_lem noob deaths banned = (λ e h. absurd (cc), λ h. refl, λ ne. refl)
ban_lem gud deaths banned = (λ e h. absurd (cc), λ h. refl, λ ne. refl)
ban_lem hardcore deaths banned = (λ e h. ground arith, λ h. ground arith, λ ne. absurd (ne refl))

lose-IsBeaten : (q : PlayerProfile) → suc q.deaths < 4294967296 → IsBeaten q (lose q)
lose-IsBeaten q few =
    let same : suc q.deaths % 4294967296 ≡ suc q.deaths = omega arith in
    let (hard, early, others) = ban_lem q.tier (suc q.deaths) q.banned in
    rw same (record {
      deaths = refl;
      banned = hard;
      spared_early = early;
      spared_others = others;
      rest = refl;
    })

module _ (id actor : ℕ) (action : CombatAction) (roll : ℕ) (w : WorldState) (d : DuelState)
    (there : duel_at id w ≡ some d) where
  abbrev pub acted : DuelState
  acted = record ((act (actor == d.left) action roll d).0) { last_actor = some actor }

  abbrev pub told : Text
  told = (act (actor == d.left) action roll d).1

  stranger :
      actor ≢ d.left
      → actor ≢ d.right
      → duel_action id actor action roll w ≡ (err (text "not a duel participant"), w)
  unfolding duel_action
  stranger nl nr = ground arith

  pub goes_on :
      (actor ≡ d.left) ⊎ (actor ≡ d.right)
      → is_over (actor == d.left) acted ≡ false
      → duel_action id actor action roll w ≡ (
        ok (record { narrative = told; ended = false; winner = none; loser = none }),
        put_duel id acted w,
      )
  unfolding duel_action
  goes_on part e = ground arith

  pub finishes :
      (actor ≡ d.left) ⊎ (actor ≡ d.right)
      → is_over (actor == d.left) acted ≡ true
      → duel_action id actor action roll w ≡ finish_duel id told acted (put_duel id acted w)
  unfolding duel_action
  finishes part e = ground arith

  -- The actor and the other player of the duel.
  abbrev Opponents : ℕ → Type 0
  Opponents other = ((actor ≡ d.left) × (other ≡ d.right)) ⊎ ((actor ≡ d.right) × (other ≡ d.left))

  outcome-acted :
      (other : ℕ)
      → Opponents other
      → d.left ≢ d.right
      → IsFighting d
      → is_over (actor == d.left) acted ≡ true
      → outcome acted ≡ (actor, other)
  outcome-acted other sides ne f over =
      let (l, r, hp) = act_keeps (actor == d.left) action roll actor d in
      attacker_wins (actor == d.left) acted (rw hp (attacker_stands (actor == d.left) d f)) over
      ∙ rw (l, r) ground arith

  takes_part : (other : ℕ) → Opponents other → (actor ≡ d.left) ⊎ (actor ≡ d.right)
  takes_part other (inl s) = inl s.0
  takes_part other (inr s) = inr s.0

  distinct : (other : ℕ) → Opponents other → d.left ≢ d.right → actor ≢ other
  distinct other (inl (a, o)) ne e = ne (sym a ∙ e ∙ o)
  distinct other (inr (a, o)) ne e = ne (sym o ∙ sym e ∙ a)

  -- When the action of a player who stands ends a duel between two players, the duel is gone, the
  -- actor has 40 more in the wallet and 3 more of reputation, the other player has one more death and
  -- is banned if hardcore from the third death on, and no other player changes. The sums are within an
  -- `i64`, and the deaths below the limit of a `u32`.
  pub winner_takes :
      (other : ℕ) (p q : PlayerProfile)
      → Opponents other
      → d.left ≢ d.right
      → IsFighting d
      → player_at actor w ≡ some p
      → player_at other w ≡ some q
      → is_over (actor == d.left) acted ≡ true
      → FitsI64 (p.wallet +ℤ pos 40)
      → FitsI64 (p.reputation +ℤ pos 3)
      → suc q.deaths < 4294967296
      → let (r, w') = duel_action id actor action roll w in
        (r
          ≡ ok (record {
            narrative = told ++ text ". Duel complete.";
            ended = true;
            winner = some actor;
            loser = some other;
          }))
        × (duel_at id w' ≡ none)
        × (player_at actor w'
            ≡ some (record p { wallet = p.wallet +ℤ pos 40; reputation = p.reputation +ℤ pos 3 }))
        × ((q' : PlayerProfile) × (player_at other w' ≡ some q') × IsBeaten q q')
        × ((j : ℕ) → actor ≢ j → other ≢ j → player_at j w' ≡ player_at j w)
  unfolding finish_duel
  winner_takes other p q sides ne f known known' over fit fit' few =
      rw (finishes (takes_part other sides) over, outcome-acted other sides ne f over)
        (
          refl,
          rw (lookup-remove id id (insert id acted w.duels)) ground (arith, ==_iff id id),
          lookup-adjust_other other actor lose (adjust actor win w.players)
                (λ e. distinct other sides ne (sym e))
              ∙ lookup-adjust actor win w.players known
              ∙ ap (λ r. some r) (paid p fit fit'),
          (
            lose q,
            lookup-adjust other lose (adjust actor win w.players)
                (lookup-adjust_other actor other win w.players (distinct other sides ne) ∙ known'),
            lose-IsBeaten q few,
          ),
          λ j na no.
              lookup-adjust_other other j lose (adjust actor win w.players) no
              ∙ lookup-adjust_other actor j win w.players na,
        )
