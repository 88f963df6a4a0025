-- ===== src/World/Accounts/Logins.antt =====
-- Which account a login gets.
use ssh_hunt.Base.{
  ℕ, ◌≡◌, ◌≢◌, inl, inr, refl, sym, ap, ◌∙◌, true, ◌||◌, Option, none, some, List, [], ◌∷◌, ◌++◌,
  All, All-append, Text, text_eq, text_eq_iff, text_key, nat_key, lookup, lookup-insert,
  lookup-adjust, lookup-adjust_other, ok, arith, ==_iff, Bool-cases, Option-cases, ◌==◌,
}
use mathlib.Core.Option.{some-injective}
use ssh_hunt.Base.Sets.{member, insert_once, member-insert_once}
use ssh_hunt.World.State.{PlayerProfile, WorldState, new_player, player_at, update_player}
use ssh_hunt.World.Accounts.{
  login, select_by_key, first_or_new, choose_account, accounts_of, add_player, seen, insert_all,
  shares_key,
}

-- The account is there, under the name.
abbrev pub HasName : Text → WorldState → ℕ → Type 0
HasName name w id = (p : PlayerProfile) × (player_at id w ≡ some p) × (p.username ≡ name)

-- What the index of names lists is there, under these names.
abbrev pub IsIndexed : WorldState → Type 0
IsIndexed w =
    (name : Text) (ids : List ℕ)
    → lookup name w.players_by_username ≡ some ids
    → All (HasName name w) ids

select_All :
    (P : ℕ → Type 0) (offered : List Text) (w : WorldState) (ids : List ℕ) (id : ℕ)
    → All P ids
    → select_by_key offered w ids ≡ some id
    → P id
unfolding select_by_key
select_All P offered w [] id h e = absurd (cc)
select_All P offered w (j ∷ ids) id h e = elim (Option-cases (player_at j w)) [
  | inl gone ↦ select_All P offered w ids id h.1 (ground (arith, gone, e))
  | inr (p, there) ↦ elim (Bool-cases (shares_key offered p)) [
    | inl shared ↦
        let same : j ≡ id = ground (arith, there, shared, e, some-injective j id) in rw (← same) h.0
    | inr foreign ↦ select_All P offered w ids id h.1 (ground (arith, there, foreign, e))
  ]
]

accounts_All :
    (name : Text) (w : WorldState) → IsIndexed w → All (HasName name w) (accounts_of name w)
accounts_All name w indexed = elim (Option-cases (lookup name w.players_by_username)) [
  | inl e ↦ rw e tt
  | inr (ids, e) ↦ rw e (indexed name ids e)
]

module _ (fresh : ℕ) (id_text username remote_ip : Text) (w : WorldState)
    (unused : player_at fresh w ≡ none) (indexed : IsIndexed w) where
  abbrev added : WorldState
  added = add_player fresh id_text username remote_ip w

  fresh_there : player_at fresh added ≡ some (new_player fresh id_text username remote_ip)
  fresh_there =
      lookup-insert fresh fresh (new_player fresh id_text username remote_ip) w.players
      ∙ ground (arith, ==_iff fresh fresh)

  others_there : (j : ℕ) → fresh ≢ j → player_at j added ≡ player_at j w
  others_there j ne =
      lookup-insert fresh j (new_player fresh id_text username remote_ip) w.players
      ∙ ground (arith, ==_iff fresh j)

  not_fresh : (id : ℕ) (p : PlayerProfile) → player_at id w ≡ some p → fresh ≢ id
  not_fresh id p there e =
      let clash = sym unused ∙ ap (λ (n : ℕ). player_at n w) e ∙ there in absurd (cc)

  HasName-added : (name : Text) (id : ℕ) → HasName name w id → HasName name added id
  HasName-added name id (p, there, named) =
      (p, others_there id (not_fresh id p there) ∙ there, named)

  names_with_new :
      (name : Text) (ids : List ℕ) → All (HasName name w) ids → All (HasName name added) ids
  names_with_new name [] h = tt
  names_with_new name (id ∷ ids) h = (HasName-added name id h.0, names_with_new name ids h.1)

  added-IsIndexed : IsIndexed added
  unfolding new_player
  added-IsIndexed name ids at =
      let both = accounts_of username w ++ fresh ∷ [] in
      elim (Bool-cases (text_eq username name)) [
        | inl same ↦
            let e : username ≡ name = (text_eq_iff username name).0 same in
            let listed : both ≡ ids = ground (
              arith,
              lookup-insert username name both w.players_by_username,
              same,
              at,
              some-injective both ids,
            ) in
            rw (← listed, ← e)
              (All-append (HasName username added) (accounts_of username w) (fresh ∷ [])
                (names_with_new username (accounts_of username w) (accounts_All username w indexed))
                (((new_player fresh id_text username remote_ip), fresh_there, refl), tt))
        | inr other ↦ names_with_new name ids (
            indexed name ids
              (ground (arith, lookup-insert username name both w.players_by_username, other, at)))
      ]

  -- What a login picks: an account of the name, in a state that keeps the index.
  abbrev Chosen : Option ℕ → Type 0
  Chosen selected =
      (id : ℕ) × (w' : WorldState) × (choose_account fresh id_text username remote_ip
          (accounts_of username w) selected w
        ≡ (ok id, w'))
      × HasName username w' id
      × IsIndexed w'
      × ((j : ℕ) → id ≢ j → player_at j w' ≡ player_at j w)

  choice_made :
      (ids : List ℕ) → All (HasName username w) ids → accounts_of username w ≡ ids → Chosen none
  unfolding first_or_new
  choice_made [] known e = rw e (
    fresh,
    added,
    refl,
    (new_player fresh id_text username remote_ip, fresh_there, unfold new_player in refl),
    added-IsIndexed,
    others_there,
  )
  choice_made (id ∷ ids) known e = rw e (id, w, refl, known.0, indexed, λ j ne. refl)

  chosen :
      (offered : List Text) (selected : Option ℕ)
      → select_by_key offered w (accounts_of username w) ≡ selected
      → Chosen selected
  chosen offered (some id) e = (
    id,
    w,
    refl,
    select_All (HasName username w) offered w (accounts_of username w) id
        (accounts_All username w indexed) e,
    indexed,
    λ j ne. refl,
  )
  chosen offered none e =
      choice_made (accounts_of username w) (accounts_All username w indexed) refl

-- A change to a player that keeps the name keeps the index.
HasName-update :
    (id : ℕ) (f : PlayerProfile → PlayerProfile) (name : Text) (w : WorldState) (j : ℕ)
    → ((p : PlayerProfile) → (f p).username ≡ p.username)
    → HasName name w j
    → HasName name (update_player id f w) j
HasName-update id f name w j same (p, there, named) = elim (Bool-cases (id == j)) [
  | inl e ↦
      let eq : id ≡ j = (==_iff id j).0 e in
      (f p, rw eq (lookup-adjust j f w.players there), same p ∙ named)
  | inr e ↦
      (p, lookup-adjust_other id j f w.players (ground (arith, e, ==_iff id j)) ∙ there, named)
]

names_after :
    (id : ℕ) (f : PlayerProfile → PlayerProfile) (name : Text) (w : WorldState) (ids : List ℕ)
    → ((p : PlayerProfile) → (f p).username ≡ p.username)
    → All (HasName name w) ids
    → All (HasName name (update_player id f w)) ids
names_after id f name w [] same h = tt
names_after id f name w (j ∷ ids) same h =
    (HasName-update id f name w j same h.0, names_after id f name w ids same h.1)

pub update-IsIndexed :
    (id : ℕ) (f : PlayerProfile → PlayerProfile) (w : WorldState)
    → ((p : PlayerProfile) → (f p).username ≡ p.username)
    → IsIndexed w
    → IsIndexed (update_player id f w)
update-IsIndexed id f w same indexed name ids at =
    names_after id f name w ids same (indexed name ids at)

member-insert_all :
    (x : Text) (new s : List Text) → member x (insert_all new s) ≡ (member x new || member x s)
unfolding member
member-insert_all x [] s = refl
member-insert_all x (y ∷ new) s =
    ground (arith, member-insert_all x new (insert_once y s), member-insert_once y x s)

module _ (fresh : ℕ) (id_text username remote_ip : Text) (offered : List Text)
    (w : WorldState) where
  -- The rest of a login, once the account is chosen.
  pub login_of_choice :
      (id : ℕ) (w' : WorldState) (p : PlayerProfile)
      → choose_account fresh id_text username remote_ip
          (accounts_of username w)
          (select_by_key offered w (accounts_of username w))
          w
        ≡ (ok id, w')
      → player_at id w' ≡ some p
      → login fresh id_text (ok tt) username remote_ip offered w ≡ (
        ok (seen username remote_ip offered p),
        update_player id (seen username remote_ip offered) w',
      )
  unfolding login
  login_of_choice id w' p e there =
      ground (arith, e, there, lookup-adjust id (seen username remote_ip offered) w'.players there)

  -- Where the index of names lists accounts that are there and have the name, and the new identifier
  -- is not taken, a login finds or makes an account of the name, never fails, stores where it comes
  -- from and adds the offered keys to those seen before. The index stays so, and no other player
  -- changes.
  pub login_lem :
      player_at fresh w ≡ none
      → IsIndexed w
      → let (r, w') = login fresh id_text (ok tt) username remote_ip offered w in
        (id : ℕ) × (p : PlayerProfile) × (r ≡ ok p)
        × (player_at id w' ≡ some p)
        × (p.username ≡ username)
        × (p.remote_ip ≡ remote_ip)
        × ((fp : Text) → member fp offered ≡ true → member fp p.observed_fingerprints ≡ true)
        × IsIndexed w'
        × ((j : ℕ) → id ≢ j → player_at j w' ≡ player_at j w)
  login_lem unused indexed =
      let (id, w', e, (p, there, named), indexed', same) =
        chosen fresh id_text username remote_ip w unused indexed offered
          (select_by_key offered w (accounts_of username w)) refl in
      rw (login_of_choice id w' p e there) (
        id,
        seen username remote_ip offered p,
        refl,
        lookup-adjust id (seen username remote_ip offered) w'.players there,
        named,
        refl,
        λ fp h. ground (arith, member-insert_all fp offered p.observed_fingerprints, h),
        update-IsIndexed id (seen username remote_ip offered) w' (λ q. refl) indexed',
        λ j ne.
            lookup-adjust_other id j (seen username remote_ip offered) w'.players ne ∙ same j ne,
      )
