-- ===== src/World/NpcDuel/Length.antt =====
-- A duel with a character in which the player strikes comes to an end.
use ssh_hunt.Base.{
  ℕ, ◌*◌, ◌≡◌, ◌⊎◌, inl, inr, sym, ap, ◌∙◌, true, false, none, some, List, [], ◌∷◌, length, All,
  Text, text_key, Result, subst, Bool-cases, lookup, insert, remove, lookup-insert_same,
  lookup-remove_same, nat_key, arith,
}
use ssh_hunt.Base.Int.{ℤ, pos, ◌+ℤ◌, ◌≤ℤ◌, leb_ℤ, int_laws}
use ssh_hunt.World.Records.{NpcCombatState, NpcDuelState}
use ssh_hunt.World.State.{WorldState}
use ssh_hunt.World.Duel.{CombatAction}
use ssh_hunt.World.Duel.Rounds.{IsFair, is_strike}
use ssh_hunt.World.NpcDuel.{npc_at, npc_duel_at, put_npc_duel, scaled_damage}
use ssh_hunt.World.NpcDuel.Scaling.{IsSane}
use ssh_hunt.World.NpcDuel.Turn.{
  Float32, NpcCombatResult, npc_duel_action, find_session, npc_turn, bonus_of,
}
use ssh_hunt.World.NpcDuel.Strikes.{
  After, npc_turn_same, npc_defeated_duels, npc_answers_duels, player_turn_lem, bonus_range, moved,
  told, wins, goes_on,
}

-- A call of `npc_duel_action`, with what the generators and the clock give it.
pub record Move : Type 0 where
  pub action : CombatAction
  pub roll : ℕ
  pub luck : ℕ
  pub pick : ℤ → ℤ → ℤ
  pub now : ℕ

pub record IsStrike (m : Move) : Type 0 where
  pub strikes : is_strike m.action ≡ true
  pub fair : IsFair m.action m.roll

abbrev world_of : Result Text NpcCombatResult × WorldState → WorldState
world_of r = r.1

module _ (f : Float32) (id player : ℕ) where
  abbrev pub turn : Move → WorldState → WorldState
  turn m w = (npc_duel_action f m.luck m.roll m.pick m.now id player m.action w).1

  unfoldable pub play : List Move → WorldState → WorldState
  play [] w = w
  play (m ∷ ms) w = play ms (turn m w)

  gone : (m : Move) (w : WorldState) → npc_duel_at id w ≡ none → turn m w ≡ w
  unfolding npc_duel_action find_session
  gone m w e = ground arith

  stays_gone :
      (ms : List Move) (w : WorldState)
      → npc_duel_at id w ≡ none
      → npc_duel_at id (play ms w) ≡ none
  unfolding play
  stays_gone [] w e = e
  stays_gone (m ∷ ms) w e = rw (play, gone m w e) (stays_gone ms w e)

  -- A session of the player with a sane character, both in the state.
  pub record InSession (d : NpcDuelState) (npc : NpcCombatState) (w : WorldState) : Type 0 where
    pub there : npc_duel_at id w ≡ some d
    pub mine : d.player_id ≡ player
    pub known : npc_at d.npc_callsign w ≡ some npc
    pub sane : IsSane npc
    pub standing : (pos 1 ≤ℤ d.npc_hp) × (d.npc_hp ≤ℤ pos 300)

  -- What a strike leaves.
  abbrev Struck : NpcDuelState → NpcCombatState → WorldState → Type 0
  Struck d npc w =
      (npc_duel_at id w ≡ none)
      ⊎ ((d' : NpcDuelState) × InSession d' npc w × (d'.npc_hp +ℤ pos 5 ≤ℤ d.npc_hp))

  -- The world that is left after the player's strike.
  struck :
      (m : Move) (w w' : WorldState) (d d' : NpcDuelState) (npc : NpcCombatState)
      → InSession d npc w
      → After 5 d d'
      → leb_ℤ d'.npc_hp (pos 0) ≡ false
      → ((w'.npc_duels
            ≡ remove id (
                insert id
                  (npc_turn f m.luck
                    (m.pick (scaled_damage npc).0 (scaled_damage npc).1)
                    npc
                    d.npc_callsign
                    d').0
                  (insert id d' w.npc_duels)))
          ⊎ (w'.npc_duels
              ≡ insert id
                  (npc_turn f m.luck
                    (m.pick (scaled_damage npc).0 (scaled_damage npc).1)
                    npc
                    d.npc_callsign
                    d').0
                  (insert id d' w.npc_duels)))
      → w'.npc_combat ≡ w.npc_combat
      → Struck d npc w'
  struck m w w' d d' npc s after on (inl e) combat =
      inl (ap (lookup id) e ∙ lookup-remove_same id _)
  struck m w w' d d' npc s after on (inr e) combat =
      let dmg = m.pick (scaled_damage npc).0 (scaled_damage npc).1 in
      let last = (npc_turn f m.luck dmg npc d.npc_callsign d').0 in
      let (hp, owner, foe) = npc_turn_same f m.luck dmg npc d.npc_callsign d' in
      let positive : pos 1 ≤ℤ d'.npc_hp = ground (arith, on) in
      inr (
        last,
        record {
          there = ap (lookup id) e ∙ lookup-insert_same id last _;
          mine = owner ∙ after.owner ∙ s.mine;
          known =
              ap (λ (c : Text). lookup c w'.npc_combat) (foe ∙ after.foe)
              ∙ ap (lookup d.npc_callsign) combat
              ∙ s.known;
          sane = s.sane;
          standing = rw hp (positive, omega (int_laws, after.less, s.standing));
        },
        rw hp after.less,
      )

  after_strike :
      (m : Move) (w : WorldState) (d : NpcDuelState) (npc : NpcCombatState)
      → InSession d npc w
      → IsStrike m
      → Struck d npc (turn m w)
  after_strike m w d npc s k =
      let hit =
        moved f m.luck m.roll m.pick m.now id player m.action w d npc s.there s.mine s.known in
      let news =
        told f m.luck m.roll m.pick m.now id player m.action w d npc s.there s.mine s.known in
      let after =
        player_turn_lem m.action m.roll (bonus_of d npc) d k.strikes k.fair
          (bonus_range d npc s.sane) s.standing in
      elim (Bool-cases (leb_ℤ hit.npc_hp (pos 0))) [
        | inl over ↦
            subst (Struck d npc)
              (sym (
                ap world_of (
                  wins f m.luck m.roll m.pick m.now id player m.action w d npc s.there s.mine
                    s.known over)))
              (inl (
                ap (lookup id) (
                  npc_defeated_duels m.now id d.npc_callsign npc player news
                    (put_npc_duel id hit w))
                ∙ lookup-remove_same id _))
        | inr on ↦
            let (duels, combat) =
              npc_answers_duels f m.luck m.pick id d.npc_callsign npc player hit news
                (put_npc_duel id hit w) in
            subst (Struck d npc)
              (sym (
                ap world_of (
                  goes_on f m.luck m.roll m.pick m.now id player m.action w d npc s.there s.mine
                    s.known on)))
              (struck m w _ d hit npc s after on duels combat)
      ]

  -- Whatever the character does, a session in which the player strikes is over after the strikes of
  -- which 5 each come to as much as the character has; 60 are enough for any sane character.
  pub strikes_end_session :
      (ms : List Move) (w : WorldState) (d : NpcDuelState) (npc : NpcCombatState)
      → InSession d npc w
      → All IsStrike ms
      → d.npc_hp ≤ℤ pos (5 * length ms)
      → npc_duel_at id (play ms w) ≡ none
  unfolding play
  strikes_end_session [] w d npc s strikes short = absurd (omega (int_laws, s.standing))
  strikes_end_session (m ∷ ms) w d npc s strikes short = elim (after_strike m w d npc s strikes.0) [
    | inl e ↦ stays_gone ms (turn m w) e
    | inr (d', s', less) ↦ strikes_end_session ms (turn m w) d' npc s' strikes.1 (omega int_laws)
  ]
