-- ===== src/World/Duel/Length.antt =====
-- A duel in which the players strike comes to an end.
use ssh_hunt.Base.{
  ℕ, ◌+◌, ◌*◌, ◌≡◌, ◌⊎◌, inl, inr, refl, sym, ap, ◌∙◌, Bool, true, false, none, some, Option, List,
  [], ◌∷◌, length, All, text, err, Bool-cases, Text, lookup-insert, lookup-remove, nat_key, arith,
  ==_iff, ◌==◌, if◌then◌else◌,
}
use ssh_hunt.Base.Int.{pos, ◌+ℤ◌, ◌≤ℤ◌, int_laws}
use ssh_hunt.World.State.{DuelState, WorldState, duel_at}
use ssh_hunt.World.Duel.{CombatAction, act, duel_action, finish_duel, is_over, put_duel}
use ssh_hunt.World.Duel.Rounds.{IsFair, IsFighting, is_strike, total, act_lem}
use ssh_hunt.World.Duel.Endings.{acted, told, goes_on, finishes, act_keeps}

pub record Move : Type 0 where
  pub actor : ℕ
  pub action : CombatAction
  pub roll : ℕ

unfoldable pub play : ℕ → List Move → WorldState → WorldState
play id [] w = w
play id (m ∷ ms) w = play id ms (duel_action id m.actor m.action m.roll w).1

-- A strike by one of the two players.
pub record IsStrike (left right : ℕ) (m : Move) : Type 0 where
  pub takes_part : (m.actor ≡ left) ⊎ (m.actor ≡ right)
  pub strikes : is_strike m.action ≡ true
  pub fair : IsFair m.action m.roll

abbrev weight : Bool → ℕ
weight b = if b then 5 else 0

is_over_acted :
    (is_left : Bool) (d : DuelState) (x : Option ℕ)
    → is_over is_left (record d { last_actor = x }) ≡ is_over is_left d
is_over_acted true d x = refl
is_over_acted false d x = refl

module _ (id : ℕ) where
  gone :
      (m : Move) (w : WorldState)
      → duel_at id w ≡ none
      → duel_action id m.actor m.action m.roll w ≡ (err (text "duel not found"), w)
  unfolding duel_action
  gone m w e = ground arith

  stays_gone :
      (ms : List Move) (w : WorldState) → duel_at id w ≡ none → duel_at id (play id ms w) ≡ none
  unfolding play
  stays_gone [] w e = e
  stays_gone (m ∷ ms) w e = rw (play, gone m w e) (stays_gone ms w e)

  -- What a strike leaves of a duel.
  abbrev Struck : DuelState → WorldState → Type 0
  Struck d w =
      (duel_at id w ≡ none)
      ⊎ ((d' : DuelState) × (duel_at id w ≡ some d')
          × IsFighting d'
          × (d'.left ≡ d.left)
          × (d'.right ≡ d.right)
          × (total d' +ℤ pos 5 ≤ℤ total d))

  removed :
      (narrative : Text) (d : DuelState) (w : WorldState)
      → duel_at id (finish_duel id narrative d w).1 ≡ none
  unfolding finish_duel
  removed narrative d w = rw (lookup-remove id id w.duels) ground (arith, ==_iff id id)

  after_strike :
      (m : Move) (w : WorldState) (d : DuelState)
      → duel_at id w ≡ some d
      → IsFighting d
      → IsStrike d.left d.right m
      → Struck d (duel_action id m.actor m.action m.roll w).1
  after_strike m w d there f s =
      let is_left = m.actor == d.left in
      let d' = (act is_left m.action m.roll d).0 in
      let five = ap weight s.strikes in
      let now = acted id m.actor m.action m.roll w d there in
      let (l, r, hp) = act_keeps is_left m.action m.roll m.actor d in
      let (state, less) = act_lem is_left m.action m.roll d f s.fair in
      elim (Bool-cases (is_over is_left now)) [
        | inl over ↦
            rw (finishes id m.actor m.action m.roll w d there s.takes_part over)
              (inl (removed (told id m.actor m.action m.roll w d there) now (put_duel id now w)))
        | inr on ↦ rw (goes_on id m.actor m.action m.roll w d there s.takes_part on) (
            inr (
              now,
              rw (lookup-insert id id now w.duels) ground (arith, ==_iff id id),
              elim state [
                | inl over ↦
                    let contradiction =
                      sym over ∙ sym (is_over_acted is_left d' (some m.actor)) ∙ on in
                    absurd (cc)
                | inr f' ↦ f'
              ],
              l,
              r,
              omega (int_laws, five),
            ))
      ]

  -- A duel whose players both stand is over after the strikes, by any of the two and in any order,
  -- of which 5 each come to as much as both have left; 40 end a new duel.
  pub strikes_end :
      (ms : List Move) (w : WorldState) (d : DuelState)
      → duel_at id w ≡ some d
      → IsFighting d
      → All (IsStrike d.left d.right) ms
      → total d ≤ℤ pos (5 * length ms + 1)
      → duel_at id (play id ms w) ≡ none
  unfolding play
  strikes_end [] w d there (l1, l2, r1, r2) strikes short = absurd (omega int_laws)
  strikes_end (m ∷ ms) w d there f strikes short = elim (after_strike m w d there f strikes.0) [
    | inl e ↦ stays_gone ms (duel_action id m.actor m.action m.roll w).1 e
    | inr (d', at, f', l, r, less) ↦
        strikes_end ms (duel_action id m.actor m.action m.roll w).1 d' at f' (rw (l, r) strikes.1)
          (omega int_laws)
  ]
