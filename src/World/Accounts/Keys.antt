-- ===== src/World/Accounts/Keys.antt =====
-- What a login without a key may do.
use ssh_hunt.Base.{
  ℕ, ◌≡◌, refl, ap, Bool, true, false, Option, none, some, List, [], ◌∷◌, Text, text_eq, text_key,
  nat_key, any, lookup-adjust, Result, Option-cases, inl, inr, ok, arith,
}
use ssh_hunt.World.State.{PlayerProfile, WorldState, net_city, player_at, update_player}
use ssh_hunt.World.Accounts.{login, select_by_key, accounts_of, first_or_new, seen}
use ssh_hunt.World.Accounts.Logins.{login_of_choice}
use ssh_hunt.World.NetCity.{mode_switch, transition, can_access_netcity, has_starter, is_offered}
use ssh_hunt.World.NetCity.Gate.{may_enter, admitted}

shares_none : (fps : List Text) → any (λ fp. any (λ o. text_eq o fp) []) fps ≡ false
shares_none [] = refl
shares_none (fp ∷ fps) = shares_none fps

select_none : (w : WorldState) (ids : List ℕ) → select_by_key [] w ids ≡ none
unfolding select_by_key
select_none w [] = refl
select_none w (id ∷ ids) = elim (Option-cases (player_at id w)) [
  | inl e ↦ ground (arith, e, select_none w ids)
  | inr (p, e) ↦ ground (arith, e, select_none w ids, shares_none p.registered_key_fingerprints)
]

-- A login with the name of an account, and with no key at all, gets the first account of the name; the
-- keys seen at its earlier logins still count at the gate. So who may enter NetCity may do so after
-- such a login, from anywhere.
pub keyless_login_enters :
    (fresh : ℕ) (id_text username remote_ip : Text) (flash : Option Bool) (w : WorldState) (id : ℕ)
    (ids : List ℕ) (p : PlayerProfile)
    → accounts_of username w ≡ id ∷ ids
    → player_at id w ≡ some p
    → may_enter p ≡ true
    → let (r, w') = login fresh id_text (ok tt) username remote_ip [] w in
      (r ≡ ok (seen username remote_ip [] p))
      × ((mode_switch id net_city flash w').0 ≡ ok (transition net_city))
unfolding can_access_netcity is_offered has_starter first_or_new
keyless_login_enters fresh id_text username remote_ip flash w id ids p first there may =
    rw
      (login_of_choice fresh id_text username remote_ip [] w id w p
        (rw (first, select_none w (id ∷ ids), first_or_new) refl) there)
      (
        refl,
        ap (λ (r : Result Text Text × WorldState). r.0)
            (admitted id flash (update_player id (seen username remote_ip []) w)
              (seen username remote_ip [] p)
              (lookup-adjust id (seen username remote_ip []) w.players there) may),
      )
