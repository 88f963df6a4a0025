-- ===== src/World/Missions/Access/Submission.antt =====
-- What `submit` asks for before a mission is done.
use ssh_hunt.Base.Actions.{bind-ok, ◌>>◌}
use ssh_hunt.Base.{
  ℕ, ◌≡◌, refl, sym, ap, subst, ◌∙◌, lookup-adjust, adjust, Bool, true, false, zero, suc, ◌*◌,
  Option, none, some, Text, text_key, nat_key, has_key, lookup, Dict, Result, ok, err, pure, arith,
  if◌then◌else◌,
}
use ssh_hunt.Base.Int.{ℤ, pos, negsuc, ◌+ℤ◌, ◌≤ℤ◌}
use ssh_hunt.Base.Machine.{FitsI64, wrap_i64_fits}
use ssh_hunt.World.Missions.Completion.{stored_run}
use ssh_hunt.World.State.{
  MissionDefinition, PlayerProfile, WorldState, Method, player_at, update_player,
}
use ssh_hunt.World.Missions.{complete, reward_of, deliver_npc_mail, complete_mission}
use ssh_hunt.World.Missions.Access.{is_missing, all_output, not_validated, submit, validate_mission}

-- Submissions of a mission one after another, each with its identifiers and its instant, until one fails.
abbrev pub submissions :
    (ℕ → ℕ → ℕ) → (ℕ → ℕ) → Option (Dict Text Text) → ℕ → Text → ℕ → Method (Unit {0})
submissions fresh now log id code zero = pure tt
submissions fresh now log id code (suc n) = do
  submit (fresh n) (now n) (ok tt) log id code
  submissions fresh now log id code n

abbrev pub lacks : Option (Dict Text Text) → MissionDefinition → Bool
lacks none m = false
lacks (some log) m = is_missing (all_output log) m.validation_keywords

-- A submission whose output has the keywords is the completion of the mission, otherwise it is refused.
submit_run :
    (fresh : ℕ → ℕ) (now : ℕ) (stored : Result Text (Unit {0})) (log : Option (Dict Text Text))
    (id : ℕ) (code : Text) (m : MissionDefinition) (w : WorldState)
    → lookup code w.missions ≡ some m
    → submit fresh now stored log id code w ≡ (
        if lacks log m then (err not_validated, w) else complete_mission fresh now stored id code w)
unfolding submit validate_mission
submit_run fresh now stored none id code m w known = refl
submit_run fresh now stored (some log) id code m w known = ground arith

mission_known :
    (code : Text) (w : WorldState) (m : MissionDefinition)
    → lookup code w.missions ≡ some m
    → has_key code w.missions ≡ true
mission_known code w m e = ground arith

add_none : (x : ℤ) (a : ℕ) → x +ℤ pos (0 * a) ≡ x
unfolding ◌+ℤ◌
add_none (pos x) a = ground arith
add_none (negsuc x) a = ground arith

add_twice : (x : ℤ) (a n : ℕ) → pos 0 ≤ℤ x → (x +ℤ pos a) +ℤ pos (n * a) ≡ x +ℤ pos (suc n * a)
unfolding ◌+ℤ◌
add_twice (pos x) a n h = ground arith
add_twice (negsuc x) a n h = absurd (omega arith)

fits_part : (x : ℤ) (a n : ℕ) → pos 0 ≤ℤ x → FitsI64 (x +ℤ pos (suc n * a)) → FitsI64 (x +ℤ pos a)
unfolding ◌+ℤ◌
fits_part (pos x) a n h fit = ground arith
fits_part (negsuc x) a n h fit = absurd (omega arith)

nonneg_sum : (x : ℤ) (a : ℕ) → pos 0 ≤ℤ x → pos 0 ≤ℤ x +ℤ pos a
unfolding ◌+ℤ◌
nonneg_sum (pos x) a h = ground arith
nonneg_sum (negsuc x) a h = absurd (omega arith)

fits_rest :
    (x : ℤ) (a n : ℕ)
    → pos 0 ≤ℤ x
    → FitsI64 (x +ℤ pos (suc n * a))
    → FitsI64 ((x +ℤ pos a) +ℤ pos (n * a))
fits_rest x a n h fit = subst FitsI64 (sym (add_twice x a n h)) fit

module _ (fresh : ℕ → ℕ → ℕ) (now : ℕ → ℕ) (log : Option (Dict Text Text)) (id : ℕ) (code : Text)
    (m : MissionDefinition) (enough : lacks log m ≡ false) where
  -- What `n` submissions leave of a player: the reputation of the mission as many times.
  abbrev IsPaid : ℕ → PlayerProfile → WorldState → Type 0
  IsPaid n p w =
      (q : PlayerProfile) × (player_at id w ≡ some q)
      × (q.reputation ≡ p.reputation +ℤ pos (n * reward_of code))

  unfoldable after : ℕ → PlayerProfile → PlayerProfile
  after n p = deliver_npc_mail (fresh n) (now n) code (complete code p)

  after_gains :
      (n : ℕ) (p : PlayerProfile)
      → FitsI64 (p.reputation +ℤ pos (reward_of code))
      → (after n p).reputation ≡ p.reputation +ℤ pos (reward_of code)
  unfolding after deliver_npc_mail complete
  after_gains n p fit = wrap_i64_fits (p.reputation +ℤ pos (reward_of code)) fit

  unfoldable once : ℕ → WorldState → WorldState
  once n w =
      update_player id (deliver_npc_mail (fresh n) (now n) code)
        (update_player id (complete code) w)

  once_run :
      (n : ℕ) (p : PlayerProfile) (w : WorldState)
      → lookup code w.missions ≡ some m
      → player_at id w ≡ some p
      → submit (fresh n) (now n) (ok tt) log id code w ≡ (ok tt, once n w)
  unfolding once
  once_run n p w known there =
      submit_run (fresh n) (now n) (ok tt) log id code m w known
      ∙ rw enough (stored_run (fresh n) (now n) id code w p (mission_known code w m known) there)

  once_there :
      (n : ℕ) (p : PlayerProfile) (w : WorldState)
      → player_at id w ≡ some p
      → player_at id (once n w) ≡ some (after n p)
  unfolding once after
  once_there n p w there =
      lookup-adjust id (deliver_npc_mail (fresh n) (now n) code)
        (adjust id (complete code) w.players) (lookup-adjust id (complete code) w.players there)

  once_missions :
      (n : ℕ) (w : WorldState) → lookup code (once n w).missions ≡ lookup code w.missions
  unfolding once
  once_missions n w = refl

  -- A mission can be submitted again and again: `n` submissions of a known mission by a known
  -- player, each of which finds the keywords of the mission in the output, succeed and add its
  -- reputation `n` times, if the database takes each, the reputation is not negative and the sum
  -- is within an `i64`. No submission asks whether the mission was accepted, whether it is done
  -- already, or whether the player may see it.
  pub resubmission_pays :
      (n : ℕ) (p : PlayerProfile) (w : WorldState)
      → lookup code w.missions ≡ some m
      → player_at id w ≡ some p
      → pos 0 ≤ℤ p.reputation
      → FitsI64 (p.reputation +ℤ pos (n * reward_of code))
      → let (r, w') = submissions fresh now log id code n w in (r ≡ ok tt) × IsPaid n p w'
  resubmission_pays zero p w known there nonneg fit =
      (refl, (p, there, sym (add_none p.reputation (reward_of code))))
  resubmission_pays (suc n) p w known there nonneg fit =
      let a = reward_of code in
      let gains = after_gains n p (fits_part p.reputation a n nonneg fit) in
      let (r, (q, at, gain)) =
        resubmission_pays n (after n p) (once n w) (once_missions n w ∙ known)
          (once_there n p w there)
          (subst (λ x. pos 0 ≤ℤ x) (sym gains) (nonneg_sum p.reputation a nonneg))
          (subst (λ x. FitsI64 (x +ℤ pos (n * a))) (sym gains)
            (fits_rest p.reputation a n nonneg fit)) in
      subst
        (λ (out : Result Text (Unit {0}) × WorldState). (out.0 ≡ ok tt) × IsPaid (suc n) p out.1)
        (sym (
          bind-ok (submit (fresh n) (now n) (ok tt) log id code)
            (λ _. submissions fresh now log id code n) w (once_run n p w known there)))
        (r, (q, at, gain ∙ ap (λ x. x +ℤ pos (n * a)) gains ∙ add_twice p.reputation a n nonneg))
