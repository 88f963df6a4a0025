-- ===== src/World/NpcDuel/Victory.antt =====
-- What the defeat of a character brings.
use ssh_hunt.Base.{
  ℕ, suc, min, ◌-◌, ◌%◌, ◌<◌, ◌≡◌, refl, ◌∙◌, true, false, none, some, List, [], ◌∷◌, ◌++◌, length,
  get_elem?, is_empty, Text, ok, lookup-insert_same, lookup-remove_same, Bool-cases, inl, inr,
  insert, lookup, lookup-insert, lookup-adjust, lookup-adjust_other, nat_key, text_key, arith, ◌≢◌,
  Dict, text_eq_iff, ap,
}
use ssh_hunt.Base.Int.{ℤ, pos, ◌+ℤ◌, leb_ℤ}
use ssh_hunt.Base.Machine.{FitsI64}
use ssh_hunt.World.Records.{NpcCombatState, NpcDuelState, HistoryEntry}
use ssh_hunt.World.State.{PlayerProfile, WorldState, player_at}
use ssh_hunt.World.Duel.{CombatAction}
use ssh_hunt.World.NpcDuel.{npc_at, npc_duel_at, put_npc_duel}
use ssh_hunt.World.NpcDuel.Turn.{
  Float32, NpcCombatResult, npc_duel_action, successor_name, promoted, counted, reward,
  successor_entry,
}
use ssh_hunt.World.NpcDuel.Strikes.{moved, told, wins}
use ssh_hunt.World.NpcDuel.Defeat.{successor_name_total, rewarded, won_again, won_final}
use ssh_hunt.World.NpcDuel.Rewards.{IsRewarded, reward-IsRewarded, fallen, risen, next_of, wrap_u32}

module _ (f : Float32) (luck roll : ℕ) (pick : ℤ → ℤ → ℤ) (now id player : ℕ)
    (action : CombatAction) (w : WorldState) (d : NpcDuelState) (npc : NpcCombatState)
    (p : PlayerProfile) (there : npc_duel_at id w ≡ some d) (mine : d.player_id ≡ player)
    (known : npc_at d.npc_callsign w ≡ some npc) (playing : player_at player w ≡ some p) where
  abbrev pub blow : NpcDuelState
  blow = moved f luck roll pick now id player action w d npc there mine known

  abbrev news : Text
  news = told f luck roll pick now id player action w d npc there mine known

  -- What a victory leaves of the character and tells in the ledger, by whether it can be replaced. The
  -- name of the next generation stands in the pool at the number of that generation, counted from 0, or
  -- at the last place.
  pub data Succession (w' : WorldState) : Type 0 where
    final :
        npc.replaceable ≡ false
        → npc_at d.npc_callsign w' ≡ some npc
        → w'.history ≡ w.history ++ fallen now npc p.display_name ∷ []
        → Succession w'
    replaced_by :
        (name : Text)
        → npc.replaceable ≡ true
        → get_elem? npc.name_pool (min (suc npc.generation) (length npc.name_pool - 1)) ≡ some name
        → npc_at d.npc_callsign w' ≡ some (next_of npc name)
        → w'.history ≡ (w.history ++ fallen now npc p.display_name ∷ []) ++ risen now npc name ∷ []
        → Succession w'

  -- What every turn leaves that takes the character's last points: the session is closed, the player
  -- is rewarded, and no other player and no other character changes.
  pub record IsWon (w' : WorldState) : Type 0 where
    pub closed : npc_duel_at id w' ≡ none
    pub rewarded_player : (q : PlayerProfile) × (player_at player w' ≡ some q) × IsRewarded npc p q
    pub other_players : (j : ℕ) → player ≢ j → player_at j w' ≡ player_at j w
    pub other_characters : (c : Text) → d.npc_callsign ≢ c → npc_at c w' ≡ npc_at c w

  rewarded-IsWon :
      (m : Dict Text NpcCombatState) (h : List HistoryEntry)
      → FitsI64 (p.wallet +ℤ npc.reward_wallet)
      → FitsI64 (p.reputation +ℤ npc.reward_rep)
      → ((c : Text) → d.npc_callsign ≢ c → lookup c m ≡ npc_at c w)
      → IsWon
          (record (rewarded now id player d.npc_callsign news npc
            (put_npc_duel id blow w)
            p
            playing) { npc_combat = m; history = h })
  rewarded-IsWon m h fit fit' same = record {
    closed = lookup-remove_same id (put_npc_duel id blow w).npc_duels;
    rewarded_player = (
      reward npc p,
      lookup-adjust player (reward npc) w.players playing,
      reward-IsRewarded npc p fit fit',
    );
    other_players = λ j ne. lookup-adjust_other player j (reward npc) w.players ne;
    other_characters = same;
  }

  successor_next :
      (name : Text)
      → suc npc.times_defeated < 4294967296
      → suc npc.generation < 4294967296
      → (promoted name npc ≡ next_of npc name)
        × (successor_entry now (promoted name npc) ≡ risen now npc name)
  successor_next name few few' =
      rw (wrap_u32 npc.times_defeated few, wrap_u32 npc.generation few') (refl, refl)

  place_of :
      (name : Text)
      → suc npc.generation < 4294967296
      → is_empty npc.name_pool ≡ false
      → successor_name (suc npc.generation % 4294967296) npc.name_pool ≡ some name
      → get_elem? npc.name_pool (min (suc npc.generation) (length npc.name_pool - 1)) ≡ some name
  unfolding successor_name
  place_of name few' some_name named = ground (arith, wrap_u32 npc.generation few')

  same_others_twice :
      (a b : NpcCombatState) (c : Text)
      → d.npc_callsign ≢ c
      → lookup c (insert d.npc_callsign a (insert d.npc_callsign b w.npc_combat)) ≡ npc_at c w
  same_others_twice a b c ne = ground (
    arith,
    lookup-insert d.npc_callsign c a (insert d.npc_callsign b w.npc_combat),
    lookup-insert d.npc_callsign c b w.npc_combat,
    text_eq_iff d.npc_callsign c,
  )

  -- A turn that takes the character's last points, where its pool has a name, no counter is at its
  -- limit and the sums are within an `i64`, is won: the session is closed, the player has what the
  -- character brings, and no other player or character changes. The ledger tells of the defeat. A
  -- character that can be replaced has one more defeat and its next generation under the name from the
  -- pool, which the ledger tells of too, and is otherwise as before; another one stays.
  pub victory_lem :
      leb_ℤ blow.npc_hp (pos 0) ≡ true
      → is_empty npc.name_pool ≡ false
      → suc npc.times_defeated < 4294967296
      → suc npc.generation < 4294967296
      → FitsI64 (p.wallet +ℤ npc.reward_wallet)
      → FitsI64 (p.reputation +ℤ npc.reward_rep)
      → let (r, w') = npc_duel_action f luck roll pick now id player action w in
        ((res : NpcCombatResult) × (r ≡ ok res) × (res.ended ≡ true) × (res.player_won ≡ true))
        × IsWon w'
        × Succession w'
  unfolding successor_name
  victory_lem over some_name few few' fit fit' =
      let w1 = put_npc_duel id blow w in
      let ledger = w.history ++ fallen now npc p.display_name ∷ [] in
      elim (Bool-cases npc.replaceable) [
        | inr last ↦
            rw
              (wins f luck roll pick now id player action w d npc there mine known over
                ∙ won_final now id player d.npc_callsign news npc w1 p playing last)
              (
                (_, refl, refl, refl),
                rewarded-IsWon w.npc_combat ledger fit fit' (λ c ne. refl),
                final last known refl,
              )
        | inl again ↦
            let (name, named) =
              successor_name_total (suc npc.generation % 4294967296) npc.name_pool some_name in
            let (next, line) = successor_next name few few' in
            let counted_combat = insert d.npc_callsign (counted npc) w.npc_combat in
            rw
              (wins f luck roll pick now id player action w d npc there mine known over
                ∙ won_again now id player d.npc_callsign news npc w1 p playing name again named)
              (
                (_, refl, refl, refl),
                rewarded-IsWon (insert d.npc_callsign (promoted name npc) counted_combat)
                    (ledger ++ successor_entry now (promoted name npc) ∷ []) fit fit'
                    (same_others_twice (promoted name npc) (counted npc)),
                replaced_by name again (place_of name few' some_name named)
                    (lookup-insert_same d.npc_callsign (promoted name npc) counted_combat
                      ∙ ap (λ n. some n) next)
                    (ap (λ e. ledger ++ e ∷ []) line),
              )
      ]
