-- ===== src/Base/Actions/Keeps.antt =====
-- A property of the state that an action keeps, whether it returns or fails: one rule for each way
-- to build an action, so that `search` walks a `do` block.
use mathlib.Core.Bool.{Bool, true, false}
use ssh_hunt.Base.Tests.{if◌then◌else◌}
use ssh_hunt.Base.Try.{Result, ok, err}
use ssh_hunt.Base.Actions.{Exec, pure, lift, query, gets, raise_if, modify, ◌>>=◌}

pub record Keeps {S E A : Type 0} (P : S → Type 0) (m : Exec S E A) : Type 0 where
  pub kept : (s : S) → P s → P (m s).1

module _ {S E : Type 0} {P : S → Type 0} where
  pub Keeps-raise_if : (b : Bool) (e : E) → Keeps P (raise_if {S = S} b e)
  Keeps-raise_if b e = record { kept = λ s h. h }

  pub Keeps-modify : (f : S → S) → ((s : S) → P s → P (f s)) → Keeps P (modify {E = E} f)
  Keeps-modify f k = record { kept = k }

module _ {S E A : Type 0} {P : S → Type 0} where
  pub Keeps-pure : (a : A) → Keeps P (pure {S = S} {E = E} a)
  Keeps-pure a = record { kept = λ s h. h }

  pub Keeps-lift : (r : Result E A) → Keeps P (lift {S = S} r)
  Keeps-lift r = record { kept = λ s h. h }

  pub Keeps-query : (f : S → Result E A) → Keeps P (query f)
  Keeps-query f = record { kept = λ s h. h }

  pub Keeps-gets : (f : S → A) → Keeps P (gets {E = E} f)
  Keeps-gets f = record { kept = λ s h. h }

  pub Keeps-if :
      (b : Bool) (m n : Exec S E A) → Keeps P m → Keeps P n → Keeps P (if b then m else n)
  Keeps-if true m n km kn = km
  Keeps-if false m n km kn = kn

module _ {S E A B : Type 0} {P : S → Type 0} where
  Keeps_after :
      (r : Result E A) (s : S) (f : A → Exec S E B)
      → P s
      → ((a : A) → Keeps P (f a))
      → P (((λ (_ : S). (r, s)) >>= f) s).1
  Keeps_after (ok a) s f h k = (k a).kept s h
  Keeps_after (err e) s f h k = h

  pub Keeps-bind :
      (m : Exec S E A) (f : A → Exec S E B)
      → Keeps P m
      → ((a : A) → Keeps P (f a))
      → Keeps P (m >>= f)
  Keeps-bind m f km kf = record {
    kept = λ s h. let (r, s') = m s in Keeps_after r s' f (km.kept s h) kf;
  }

pub ruleset keeps_rules = (
  Keeps-raise_if, Keeps-modify, Keeps-pure, Keeps-lift, Keeps-query, Keeps-gets, Keeps-if,
  Keeps-bind,
)
