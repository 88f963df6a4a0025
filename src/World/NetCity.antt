-- ===== src/World/NetCity.antt =====
-- ssh-hunt/crates/world/src/lib.rs: the gate of NetCity, `netcity_gate_reason` and `mode_switch` of
-- `WorldService`. `mode_switch` takes the lock three times; here nothing comes between.
pub mod Gate
use ssh_hunt.Base.Actions.{◌>>=◌, ◌>>◌}
use ssh_hunt.Base.{
  ℕ, Bool, true, false, not, ◌&&◌, Option, none, some, List, [], ◌∷◌, Text, text, is_empty, any,
  pure, raise, raise_if, query, modify, if◌then◌else◌,
}
use ssh_hunt.Base.Sets.{member}
use ssh_hunt.World.State.{
  Mode, training, net_city, redline, PlayerProfile, WorldState, Method, find_player, update_player,
}

abbrev pub keys_vault : Text
keys_vault = text "keys-vault"

abbrev pub starter_codes : List Text
starter_codes =
    text "pipes-101"
    ∷ text "finder"
    ∷ text "redirect-lab"
    ∷ text "log-hunt"
    ∷ text "dedupe-city"
    ∷ text "timestamp-gap"
    ∷ text "ghost-user"
    ∷ text "signal-trace"
    ∷ text "deleted-file"
    ∷ text "first-clue"
    ∷ text "rivet-log"
    ∷ text "nix-signal"
    ∷ text "lumen-price"
    ∷ text "dusk-alibi"
    ∷ []

unfoldable pub has_starter : PlayerProfile → Bool
has_starter p = any (λ code. member code p.completed_missions) starter_codes

-- `PlayerProfile::can_access_netcity`
unfoldable pub can_access_netcity : PlayerProfile → Bool
can_access_netcity p = member keys_vault p.completed_missions && has_starter p

unfoldable pub is_offered : List Text → PlayerProfile → Bool
is_offered offered p = any (λ fp. member fp p.registered_key_fingerprints) offered

-- The reason to keep a player out, if there is one.
unfoldable pub gate_reason : List Text → PlayerProfile → Option Text
gate_reason offered p =
    if not (member keys_vault p.completed_missions)
    then some (text "Complete mission KEYS VAULT first")
    else if not (has_starter p)
    then some (text "Complete one starter mission to unlock NetCity")
    else if is_empty p.registered_key_fingerprints
    then some (text "Register an SSH public key with keyvault register")
    else if not (is_offered offered p)
    then some (
        text
          "This login did not present your registered SSH key. Training Sim allowed; NetCity locked.")
    else if p.banned
    then some (text "Account is zeroed and locked")
    else none

unfoldable pub netcity_gate_reason : ℕ → List Text → Method (Option Text)
netcity_gate_reason player_id offered = do
  player ← find_player player_id (text "unknown player")
  pure (gate_reason offered player)

abbrev pub transition : Mode → Text
transition training = text "MODE SWITCH: NETCITY MMO/REDLINE -> TRAINING SIM"
transition net_city = text "MODE SWITCH: TRAINING SIM -> NETCITY MMO"
transition redline = text "MODE SWITCH: TRAINING/NETCITY -> REDLINE"

-- What is checked before the mode NetCity.
unfoldable pub check_gate : ℕ → Mode → Method (Unit {0})
unfolding netcity_gate_reason
check_gate player_id training = pure tt
check_gate player_id redline = pure tt
check_gate player_id net_city = do
  player ← find_player player_id (text "unknown player")
  raise_if player.banned (text "account zeroed")
  reason ← netcity_gate_reason player_id player.observed_fingerprints
  elim reason [ none ↦ pure tt | some r ↦ raise r ]

unfoldable pub mode_switch : ℕ → Mode → Option Bool → Method Text
unfolding check_gate
mode_switch player_id mode flash = do
  check_gate player_id mode
  player ← find_player player_id (text "unknown player")
  raise_if player.banned (text "account zeroed")
  modify (update_player player_id (λ p. record p { mode = mode }))
  pure (transition mode)
