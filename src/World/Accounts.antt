-- ===== src/World/Accounts.antt =====
-- ssh-hunt/crates/world/src/lib.rs: logins and the settings of a player. `stored` is what the
-- database answers, `ok tt` without one; `hash` is SHA-256 of a text, in lower-case hexadecimal
-- digits, and `is_pubkey` the match of the regular expression for an OpenSSH public key.
pub mod Logins
pub mod Keys
use ssh_hunt.Base.Actions.{◌>>=◌, ◌>>◌}
use ssh_hunt.Base.{
  ℕ, Bool, true, false, not, Option, none, some, List, [], ◌∷◌, ◌++◌, Text, text, text_eq, text_key,
  nat_key, any, foldl, lookup, insert, Result, Exec, lift, pure, raise, raise_if, query, gets,
  modify, ok_or, if◌then◌else◌,
}
use mathlib.Core.Option.{get_or}
use ssh_hunt.Base.Trim.{trim}
use ssh_hunt.Base.Sets.{insert_once}
use ssh_hunt.World.State.{
  ExperienceTier, CombatStance, PlayerProfile, WorldState, Method, new_player, player_at,
  find_player, update_player,
}

abbrev pub unknown_player : Text
unknown_player = text "unknown player"

-- The accounts of a name, oldest first.
abbrev pub accounts_of : Text → WorldState → List ℕ
accounts_of username w = get_or (lookup username w.players_by_username) []

abbrev pub shares_key : List Text → PlayerProfile → Bool
shares_key offered p = any (λ fp. any (λ o. text_eq o fp) offered) p.registered_key_fingerprints

-- The first of the accounts with a registered key among the offered ones.
unfoldable pub select_by_key : List Text → WorldState → List ℕ → Option ℕ
unfolding lookup
select_by_key offered w [] = none
select_by_key offered w (id ∷ ids) =
    let rest = select_by_key offered w ids in
    elim (player_at id w) [ none ↦ rest | some p ↦ if shares_key offered p then some id else rest ]

abbrev pub add_player : ℕ → Text → Text → Text → WorldState → WorldState
add_player fresh id_text username remote_ip w = record w {
  players = insert fresh (new_player fresh id_text username remote_ip) w.players;
  players_by_username =
      insert username (accounts_of username w ++ fresh ∷ []) w.players_by_username;
}

-- The first account of the name, a new one if there is none.
unfoldable pub first_or_new : ℕ → Text → Text → Text → List ℕ → Method ℕ
first_or_new fresh id_text username remote_ip [] = do
  modify (add_player fresh id_text username remote_ip)
  pure fresh
first_or_new fresh id_text username remote_ip (id ∷ ids) = pure id

-- `HashSet::extend`
abbrev pub insert_all : List Text → List Text → List Text
insert_all new s = foldl (λ acc x. insert_once x acc) s new

abbrev pub seen : Text → Text → List Text → PlayerProfile → PlayerProfile
seen username remote_ip offered p = record p {
  remote_ip = remote_ip;
  display_name = username ++ (b'@' ∷ remote_ip);
  observed_fingerprints = insert_all offered p.observed_fingerprints;
}

abbrev pub choose_account : ℕ → Text → Text → Text → List ℕ → Option ℕ → Method ℕ
choose_account fresh id_text username remote_ip candidates (some id) = pure id
choose_account fresh id_text username remote_ip candidates none =
    first_or_new fresh id_text username remote_ip candidates

unfoldable pub login :
    ℕ → Text → Result Text (Unit {0}) → Text → Text → List Text → Method PlayerProfile
unfolding select_by_key first_or_new
login fresh id_text stored username remote_ip offered = do
  candidates ← gets (accounts_of username)
  selected ← gets (λ w. select_by_key offered w candidates)
  player_id ← choose_account fresh id_text username remote_ip candidates selected
  find_player player_id (text "player not found after login")
  modify (update_player player_id (seen username remote_ip offered))
  lift stored
  find_player player_id (text "player not found after login")

unfoldable pub get_player : ℕ → WorldState → Option PlayerProfile
get_player player_id w = player_at player_id w

unfoldable pub resolve_player_by_username : Text → WorldState → Option PlayerProfile
resolve_player_by_username username w = elim (accounts_of username w) [
  | [] ↦ none
  | id ∷ ids ↦ player_at id w
]

-- A setter: the player has to be known.
abbrev pub change : ℕ → (PlayerProfile → PlayerProfile) → Method (Unit {0})
change player_id f = do find_player player_id unknown_player; modify (update_player player_id f)

unfoldable pub set_tier : ℕ → ExperienceTier → Method PlayerProfile
set_tier player_id tier = do
  change player_id (λ p. record p { tier = tier })
  find_player player_id unknown_player

-- The first answer of the database, then the second.
unfoldable pub ban_forever :
    Result Text (Unit {0}) → Result Text (Unit {0}) → ℕ → Method PlayerProfile
ban_forever stored noted player_id = do
  change player_id (λ p. record p { banned = true })
  lift stored
  lift noted
  find_player player_id unknown_player

unfoldable pub register_key :
    (Text → Text) → (Text → Bool) → Result Text (Unit {0}) → ℕ → Text → Method Text
register_key hash is_pubkey stored player_id pubkey_line = do
  raise_if (not (is_pubkey (trim pubkey_line))) (text "invalid OpenSSH public key format")
  let fingerprint = text "SHA256:" ++ hash (trim pubkey_line)
  change player_id (λ p. record p {
    registered_key_fingerprints = insert_once fingerprint p.registered_key_fingerprints;
  })
  lift stored
  pure fingerprint

unfoldable pub get_tutorial_step : ℕ → Method ℕ
get_tutorial_step player_id = do p ← find_player player_id unknown_player; pure p.tutorial_step

unfoldable pub set_tutorial_step : ℕ → ℕ → Method (Unit {0})
set_tutorial_step player_id step = change player_id (λ p. record p { tutorial_step = step })

unfoldable pub get_stance : ℕ → Method CombatStance
get_stance player_id = do p ← find_player player_id unknown_player; pure p.combat_stance

unfoldable pub set_stance : ℕ → CombatStance → Method (Unit {0})
set_stance player_id stance = change player_id (λ p. record p { combat_stance = stance })

unfoldable pub get_campaign_progress : ℕ → Method (ℕ × ℕ)
get_campaign_progress player_id = do
  p ← find_player player_id unknown_player
  pure (p.campaign_chapter, p.campaign_step)

unfoldable pub set_campaign_progress : ℕ → ℕ → ℕ → Method (Unit {0})
set_campaign_progress player_id chapter step =
    change player_id (λ p. record p { campaign_chapter = chapter; campaign_step = step })
