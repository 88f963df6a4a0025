-- ===== src/World/NpcDuel/Defeat.antt =====
-- The branches of the source for a character without points, as equations.
use ssh_hunt.Base.{
  ℕ, suc, min, ◌-◌, ◌%◌, ◌≤◌, ◌<◌, ◌≡◌, refl, true, false, some, Option, List, [], ◌∷◌, ◌++◌,
  length, get_elem?, is_empty, Text, text, ok, get_total, insert, remove, adjust, lookup-adjust,
  nat_key, text_key, arith, err,
}
use ssh_hunt.World.Records.{NpcCombatState}
use ssh_hunt.World.State.{PlayerProfile, WorldState, player_at}
use ssh_hunt.World.NpcDuel.Turn.{
  NpcCombatResult, npc_defeated, succeed, successor_name, promoted, counted, reward, defeat_entry,
  successor_entry,
}

-- A pool with a name has a name for every generation.
pub successor_name_total :
    (g : ℕ) (pool : List Text)
    → is_empty pool ≡ false
    → (name : Text) × (successor_name g pool ≡ some name)
unfolding successor_name
successor_name_total g [] some_name = absurd (cc)
successor_name_total g (x ∷ pool) some_name =
    get_total (x ∷ pool) (min g (length (x ∷ pool) - 1)) (omega arith)

-- From the second generation on the pool's second name is passed over: a pool of three names or more
-- gives the name at the third place or behind it.
second_name_unused :
    (g : ℕ) (pool : List Text)
    → 2 ≤ g
    → 3 ≤ length pool
    → (i : ℕ) × (2 ≤ i) × (i < length pool) × (successor_name g pool ≡ get_elem? pool i)
unfolding successor_name
second_name_unused g [] late many = absurd (omega arith)
second_name_unused g (x ∷ pool) late many =
    (min g (length (x ∷ pool) - 1), omega arith, omega arith, refl)

module _ (now id player : ℕ) (callsign told : Text) (npc : NpcCombatState) (w : WorldState)
    (p : PlayerProfile) (known : player_at player w ≡ some p) where
  abbrev pub rewarded : WorldState
  rewarded = record w {
    npc_duels = remove id w.npc_duels;
    players = adjust player (reward npc) w.players;
    history = w.history ++ defeat_entry now npc p.display_name ∷ [];
  }

  abbrev pub replaced : Text → WorldState
  replaced name = record rewarded {
    npc_combat = insert callsign (promoted name npc) (insert callsign (counted npc) w.npc_combat);
    history =
        (w.history ++ defeat_entry now npc p.display_name ∷ [])
        ++ successor_entry now (promoted name npc) ∷ [];
  }

  -- The generation that follows, and its name.
  abbrev pub next_name : Option Text
  next_name = successor_name (suc npc.generation % 4294967296) npc.name_pool

  abbrev pub succession_told : Text
  succession_told =
      text "A successor emerges. " ++ (npc.current_name ++ text " has been replaced.\n")

  succeed_run :
      (name : Text)
      → next_name ≡ some name
      → succeed now callsign npc rewarded ≡ (ok succession_told, replaced name)
  unfolding succeed
  succeed_run name e = ground (arith, e)

  abbrev pub won : Text → NpcCombatResult
  won more = record {
    narrative = (told ++ (callsign ++ text " systems compromised. Hack complete!\n")) ++ more;
    ended = true;
    player_won = true;
  }

  pub won_again :
      (name : Text)
      → npc.replaceable ≡ true
      → next_name ≡ some name
      → npc_defeated now id callsign npc player told w ≡ (ok (won succession_told), replaced name)
  unfolding npc_defeated
  won_again name r e =
      ground (arith, r, succeed_run name e, lookup-adjust player (reward npc) w.players known)

  abbrev pub stopped : WorldState
  stopped = record rewarded { npc_combat = insert callsign (counted npc) w.npc_combat }

  panicked :
      is_empty npc.name_pool ≡ true
      → succeed now callsign npc rewarded ≡ (err (text "panic"), stopped)
  unfolding succeed successor_name
  panicked e = ground (arith, e)

  pub panics :
      npc.replaceable ≡ true
      → is_empty npc.name_pool ≡ true
      → npc_defeated now id callsign npc player told w ≡ (err (text "panic"), stopped)
  unfolding npc_defeated
  panics r e = ground (arith, r, panicked e, lookup-adjust player (reward npc) w.players known)

  pub won_final :
      npc.replaceable ≡ false
      → npc_defeated now id callsign npc player told w ≡ (ok (won []), rewarded)
  unfolding npc_defeated
  won_final r = ground (arith, r, lookup-adjust player (reward npc) w.players known)
