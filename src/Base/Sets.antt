-- ===== src/Base/Sets.antt =====
-- `HashSet<String>`: the members once each, in the order they came.
use mathlib.Core.Path.{◌≡◌}
use mathlib.Core.Bool.{Bool, false, ◌||◌}
use mathlib.Core.List.{List, [], ◌∷◌}
use native.Mathlib.Omega.{arith}
use ssh_hunt.Base.Tests.{if◌then◌else◌}
use ssh_hunt.Base.Strings.{Text, text_eq, text_eq_iff}

-- `contains`
unfoldable pub member : Text → List Text → Bool
member x [] = false
member x (y ∷ s) = text_eq y x || member x s

unfoldable pub insert_once : Text → List Text → List Text
insert_once x [] = x ∷ []
insert_once x (y ∷ s) = let rest = insert_once x s in if text_eq y x then y ∷ s else y ∷ rest

unfoldable pub discard : Text → List Text → List Text
discard x [] = []
discard x (y ∷ s) = let rest = discard x s in if text_eq y x then rest else y ∷ rest

pub member-insert_once :
    (x z : Text) (s : List Text) → member z (insert_once x s) ≡ (text_eq x z || member z s)
unfolding member insert_once
member-insert_once x z [] = ground arith
member-insert_once x z (y ∷ s) =
    ground (arith, text_eq_iff x z, text_eq_iff y x, text_eq_iff y z, member-insert_once x z s)

pub member-discard :
    (x z : Text) (s : List Text)
    → member z (discard x s) ≡ (if text_eq x z then false else member z s)
unfolding member discard
member-discard x z [] = ground arith
member-discard x z (y ∷ s) =
    ground (arith, text_eq_iff x z, text_eq_iff y x, text_eq_iff y z, member-discard x z s)
