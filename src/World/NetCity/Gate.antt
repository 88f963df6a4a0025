-- ===== src/World/NetCity/Gate.antt =====
-- Who may enter NetCity.
use ssh_hunt.Base.{
  ℕ, ◌≡◌, ◌⊎◌, inl, inr, refl, Bool, true, false, not, ◌&&◌, Option, some, List, [], ◌∷◌, Text,
  text, ok, err, is_empty, any, adjust, lookup-adjust, lookup-adjust_other, ◌≢◌, Bool-cases,
  nat_key, arith, if◌then◌else◌,
}
use mathlib.Core.Option.{get_or}
use ssh_hunt.Base.Sets.{member}
use ssh_hunt.World.State.{Mode, training, net_city, redline, PlayerProfile, WorldState, player_at}
use ssh_hunt.World.NetCity.{can_access_netcity, gate_reason, mode_switch, is_offered, transition}

-- Both missions are done, one of the keys seen at the logins is registered, and there is no ban.
abbrev pub may_enter : PlayerProfile → Bool
may_enter p = can_access_netcity p && (is_offered p.observed_fingerprints p && not p.banned)

-- What a player who may not enter is told.
abbrev pub refusal : PlayerProfile → Text
refusal p =
    if p.banned then text "account zeroed" else get_or (gate_reason p.observed_fingerprints p) []

none_offered : (offered : List Text) → any (λ fp. member fp []) offered ≡ false
unfolding member
none_offered [] = refl
none_offered (fp ∷ fps) = none_offered fps

-- A key that is offered and registered is registered.
offered_some :
    (offered : List Text) (p : PlayerProfile)
    → is_offered offered p ≡ true
    → is_empty p.registered_key_fingerprints ≡ false
unfolding is_offered
offered_some offered p e = go p.registered_key_fingerprints e
  where
    go : (r : List Text) → any (λ fp. member fp r) offered ≡ true → is_empty r ≡ false
    go [] h = let none_there = none_offered offered in absurd (cc)
    go (x ∷ r) h = refl

module _ (id : ℕ) (flash : Option Bool) (w : WorldState) (p : PlayerProfile)
    (known : player_at id w ≡ some p) where
  abbrev pub entered : Mode → WorldState
  entered mode = record w { players = adjust id (λ q. record q { mode = mode }) w.players }

  pub admitted :
      may_enter p ≡ true
      → mode_switch id net_city flash w ≡ (ok (transition net_city), entered net_city)
  unfolding mode_switch gate_reason can_access_netcity
  admitted may = ground (arith, offered_some p.observed_fingerprints p)

  turned_away : may_enter p ≡ false → mode_switch id net_city flash w ≡ (err (refusal p), w)
  unfolding mode_switch gate_reason can_access_netcity
  turned_away may = ground (arith, offered_some p.observed_fingerprints p)

  -- A known player gets into NetCity if the keys mission and a starter mission are done, a key seen
  -- at the logins is registered, and there is no ban; then only the mode of the player changes.
  -- Otherwise the player gets the reason, and nothing changes.
  pub net_city_gate :
      let (r, w') = mode_switch id net_city flash w in
      ((may_enter p ≡ true)
        × (r ≡ ok (transition net_city))
        × (player_at id w' ≡ some (record p { mode = net_city }))
        × ((j : ℕ) → id ≢ j → player_at j w' ≡ player_at j w))
      ⊎ ((may_enter p ≡ false) × (r ≡ err (refusal p)) × (w' ≡ w))
  net_city_gate = elim (Bool-cases (may_enter p)) [
    | inl may ↦ rw (admitted may) (
        inl (
          may,
          refl,
          lookup-adjust id (λ q. record q { mode = net_city }) w.players known,
          λ j ne. lookup-adjust_other id j (λ q. record q { mode = net_city }) w.players ne,
        ))
    | inr not_ ↦ rw (turned_away not_) (inr (not_, refl, refl))
  ]

  -- A banned player stays in the mode where the ban came, whatever mode is asked for.
  pub banned_stays :
      (mode : Mode)
      → p.banned ≡ true
      → mode_switch id mode flash w ≡ (err (text "account zeroed"), w)
  unfolding mode_switch
  banned_stays training ban = ground arith
  banned_stays redline ban = ground arith
  banned_stays net_city ban = ground arith
