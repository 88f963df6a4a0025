-- ===== src/World/Mail.antt =====
-- ssh-hunt/crates/world/src/lib.rs: the mailbox of a player.
use ssh_hunt.Base.Actions.{◌>>=◌, ◌>>◌}
use ssh_hunt.Base.{
  ℕ, zero, suc, ◌≡◌, ◌≢◌, refl, ap, true, some, List, [], ◌∷◌, text, get_elem?, ok, ok_or, nat_key,
  lookup-adjust, lookup-adjust_other, arith, pure, raise, query, modify,
}
use mathlib.Core.Option.{some-injective}
use ssh_hunt.World.State.{
  MailMessage, PlayerProfile, WorldState, Method, player_at, find_player, update_player,
}
use ssh_hunt.World.Accounts.{unknown_player}

unfoldable pub get_mailbox : ℕ → Method (List MailMessage)
get_mailbox player_id = do player ← find_player player_id unknown_player; pure player.mailbox

abbrev pub opened : MailMessage → MailMessage
opened m = record m { read = true }

unfoldable pub open_at : ℕ → List MailMessage → List MailMessage
open_at i [] = []
open_at zero (m ∷ ms) = opened m ∷ ms
open_at (suc i) (m ∷ ms) = m ∷ open_at i ms

abbrev pub read_letter : ℕ → PlayerProfile → PlayerProfile
read_letter i p = record p { mailbox = open_at i p.mailbox }

-- A letter by its place, which counts from 1.
unfoldable pub read_mail : ℕ → ℕ → Method MailMessage
unfolding open_at
read_mail player_id zero = do find_player player_id unknown_player; raise (text "invalid index")
read_mail player_id (suc i) = do
  player ← find_player player_id unknown_player
  msg ← query (λ w. ok_or (get_elem? player.mailbox i) (text "no message at that index"))
  modify (update_player player_id (read_letter i))
  pure (opened msg)

opened_lem :
    (i : ℕ) (ms : List MailMessage) (m : MailMessage)
    → get_elem? ms i ≡ some m
    → get_elem? (open_at i ms) i ≡ some (opened m)
unfolding open_at
opened_lem i [] m e = absurd (cc)
opened_lem zero (n ∷ ms) m e = ap (λ k. some (opened k)) (some-injective n m e)
opened_lem (suc i) (n ∷ ms) m e = opened_lem i ms m e

others_stay :
    (i j : ℕ) (ms : List MailMessage) → i ≢ j → get_elem? (open_at i ms) j ≡ get_elem? ms j
unfolding open_at
others_stay i j [] ne = refl
others_stay zero zero (n ∷ ms) ne = absurd (ne refl)
others_stay zero (suc j) (n ∷ ms) ne = refl
others_stay (suc i) zero (n ∷ ms) ne = refl
others_stay (suc i) (suc j) (n ∷ ms) ne = others_stay i j ms (λ e. ne (ap suc e))

read_run :
    (id i : ℕ) (w : WorldState) (p : PlayerProfile) (m : MailMessage)
    → player_at id w ≡ some p
    → get_elem? p.mailbox i ≡ some m
    → read_mail id (suc i) w ≡ (ok (opened m), update_player id (read_letter i) w)
unfolding read_mail
read_run id i w p m there at = ground (arith, there, at)

-- A letter that is there is returned as read and marked, and the other letters and players stay.
read_mail_lem :
    (id i : ℕ) (w : WorldState) (p : PlayerProfile) (m : MailMessage)
    → player_at id w ≡ some p
    → get_elem? p.mailbox i ≡ some m
    → let (r, w') = read_mail id (suc i) w in
      (r ≡ ok (opened m))
      × ((q : PlayerProfile) × (player_at id w' ≡ some q)
          × (get_elem? q.mailbox i ≡ some (opened m))
          × ((j : ℕ) → i ≢ j → get_elem? q.mailbox j ≡ get_elem? p.mailbox j))
      × ((j : ℕ) → id ≢ j → player_at j w' ≡ player_at j w)
read_mail_lem id i w p m there at = rw (read_run id i w p m there at) (
  refl,
  (
    read_letter i p,
    lookup-adjust id (read_letter i) w.players there,
    opened_lem i p.mailbox m at,
    λ j ne. others_stay i j p.mailbox ne,
  ),
  λ j ne. lookup-adjust_other id j (read_letter i) w.players ne,
)
