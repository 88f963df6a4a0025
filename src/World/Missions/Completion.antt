-- ===== src/World/Missions/Completion.antt =====
-- What a completed mission leaves.
use ssh_hunt.Base.{
  ℕ, suc, ◌≡◌, ◌≢◌, refl, ◌∙◌, Bool, true, false, ◌||◌, some, List, [], ◌∷◌, ◌++◌, All, Text,
  text_eq, text_key, ok, err, has_key, lookup-adjust, lookup-adjust_other, nat_key, arith,
  if◌then◌else◌,
}
use ssh_hunt.Base.Int.{pos, ◌+ℤ◌}
use ssh_hunt.Base.Machine.{FitsI64, wrap_i64_fits}
use ssh_hunt.Base.Sets.{member, member-insert_once, member-discard}
use ssh_hunt.World.State.{MailMessage, PlayerProfile, WorldState, player_at, update_player}
use ssh_hunt.World.Missions.{complete, complete_mission, deliver_npc_mail, letters_for, reward_of}
use ssh_hunt.World.Missions.Letters.{Letter, triggers}

-- A letter as it arrives.
abbrev pub IsNew : ℕ → MailMessage → Type 0
IsNew now m = (m.read ≡ false) × (m.received_at ≡ now)

IsNew-if :
    (now : ℕ) (b : Bool) (xs ys : List MailMessage)
    → All (IsNew now) xs
    → All (IsNew now) ys
    → All (IsNew now) (if b then xs else ys)
IsNew-if now true xs ys hx hy = hx
IsNew-if now false xs ys hx hy = hy

unread :
    (fresh : ℕ → ℕ) (now : ℕ) (code : Text) (n : ℕ) (ls : List Letter)
    → All (IsNew now) (letters_for fresh now code n ls)
unfolding letters_for
unread fresh now code n [] = tt
unread fresh now code n ((trigger, from, subject, body) ∷ ls) =
    IsNew-if now (text_eq trigger code)
      (record {
        id = fresh n;
        from = from;
        subject = subject;
        body = body;
        read = false;
        received_at = now;
      }
        ∷ letters_for fresh now code (suc n) ls)
      (letters_for fresh now code n ls) ((refl, refl), unread fresh now code (suc n) ls)
      (unread fresh now code n ls)

module _ (fresh : ℕ → ℕ) (now id : ℕ) (code : Text) (w : WorldState) (p : PlayerProfile)
    (known : has_key code w.missions ≡ true) (there : player_at id w ≡ some p) where
  -- The player has the mission among the completed ones, and no longer among the active ones; the
  -- other missions are where they were.
  abbrev pub IsDone : PlayerProfile → Type 0
  IsDone q =
      ((c : Text)
        → member c q.completed_missions ≡ (text_eq code c || member c p.completed_missions))
      × ((c : Text)
          → member c q.active_missions
            ≡ (if text_eq code c then false else member c p.active_missions))
      × (q.reputation ≡ p.reputation +ℤ pos (reward_of code))
      × (q.wallet ≡ p.wallet)

  done : FitsI64 (p.reputation +ℤ pos (reward_of code)) → IsDone (complete code p)
  unfolding complete
  done fit = (
    λ c. member-insert_once code c p.completed_missions,
    λ c. member-discard code c p.active_missions,
    wrap_i64_fits (p.reputation +ℤ pos (reward_of code)) fit,
    refl,
  )

  abbrev completed : WorldState
  completed = update_player id (complete code) w

  found : player_at id completed ≡ some (complete code p)
  found = lookup-adjust id (complete code) w.players there

  pub stored_run :
      complete_mission fresh now (ok tt) id code w
      ≡ (ok tt, update_player id (deliver_npc_mail fresh now code) completed)
  unfolding complete_mission
  stored_run = ground (arith, found)

  unstored_run : (e : Text) → complete_mission fresh now (err e) id code w ≡ (err e, completed)
  unfolding complete_mission
  unstored_run e = ground (arith, found)

  -- A known mission of a known player, where the database, if there is one, takes the record: the
  -- mission is done, its reputation is added, its letters come behind the mail there was, all of them
  -- unread and of this instant, and no other player changes.
  pub complete_mission_lem :
      FitsI64 (p.reputation +ℤ pos (reward_of code))
      → let (r, w') = complete_mission fresh now (ok tt) id code w in
        (r ≡ ok tt)
        × ((q : PlayerProfile) × (player_at id w' ≡ some q)
            × IsDone q
            × (q.mailbox ≡ p.mailbox ++ letters_for fresh now code 0 triggers)
            × All (IsNew now) (letters_for fresh now code 0 triggers))
        × ((j : ℕ) → id ≢ j → player_at j w' ≡ player_at j w)
  unfolding deliver_npc_mail complete
  complete_mission_lem fit = rw stored_run (
    refl,
    (
      deliver_npc_mail fresh now code (complete code p),
      lookup-adjust id (deliver_npc_mail fresh now code) completed.players found,
      done fit,
      refl,
      unread fresh now code 0 triggers,
    ),
    λ j ne.
        lookup-adjust_other id j (deliver_npc_mail fresh now code) completed.players ne
        ∙ lookup-adjust_other id j (complete code) w.players ne,
  )

  -- When the database fails, the error is returned, but the mission is done and its reputation added
  -- all the same, and only its letters are missing.
  pub complete_mission_unstored :
      (e : Text)
      → FitsI64 (p.reputation +ℤ pos (reward_of code))
      → let (r, w') = complete_mission fresh now (err e) id code w in
        (r ≡ err e)
        × ((q : PlayerProfile) × (player_at id w' ≡ some q) × IsDone q × (q.mailbox ≡ p.mailbox))
  unfolding complete
  complete_mission_unstored e fit =
      rw (unstored_run e) (refl, (complete code p, found, done fit, refl))
