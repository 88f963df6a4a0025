-- ===== src/Base/Actions.antt =====
-- Methods on `&mut self` that return a `Result`: what was written stays written after an error.
pub mod Keeps
use mathlib.Core.Path.{◌≡◌, ap}
use mathlib.Core.Bool.{Bool}
use ssh_hunt.Base.Try.{Result, ok, err, fail_if}

abbrev pub Exec {ℓ} : Type ℓ → Type ℓ → Type ℓ → Type ℓ
Exec S E A = S → Result E A × S

module _ {ℓ} {S E A : Type ℓ} where
  abbrev pub pure : A → Exec S E A
  pure a s = (ok a, s)

  abbrev pub raise : E → Exec S E A
  raise e s = (err e, s)

  -- A fallible computation that leaves the state alone, under `?`.
  abbrev pub lift : Result E A → Exec S E A
  lift r s = (r, s)

  -- One that reads the state.
  abbrev pub query : (S → Result E A) → Exec S E A
  query f s = (f s, s)

  abbrev pub gets : (S → A) → Exec S E A
  gets f s = (ok (f s), s)

infixl 5 ◌>>=◌ ◌>>◌
abbrev pub ◌>>=◌ {ℓ} : {S E A B : Type ℓ} → Exec S E A → (A → Exec S E B) → Exec S E B
◌>>=◌ m f s = let (r, s') = m s in elim r [ ok a ↦ f a s' | err e ↦ (err e, s') ]

abbrev pub ◌>>◌ {ℓ} : {S E A B : Type ℓ} → Exec S E A → Exec S E B → Exec S E B
m >> k = m >>= λ _. k

module _ {S E : Type 0} where
  -- `if b { return Err(e); }`
  abbrev pub raise_if : Bool → E → Exec S E (Unit {0})
  raise_if b e s = (fail_if b e, s)

  abbrev pub modify : (S → S) → Exec S E (Unit {0})
  modify f s = (ok tt, f s)

module _ {ℓ} {S E A B : Type ℓ} where
  -- A bind after an action whose result is known.
  pub bind-ok :
      (m : Exec S E A) (f : A → Exec S E B) (s : S) {a : A} {s' : S}
      → m s ≡ (ok a, s')
      → (m >>= f) s ≡ f a s'
  bind-ok m f s e =
      ap (λ (w : Result E A × S). elim w.0 [ ok a ↦ f a w.1 | err x ↦ (err x, w.1) ]) e

  pub bind-err :
      (m : Exec S E A) (f : A → Exec S E B) (s : S) {x : E} {s' : S}
      → m s ≡ (err x, s')
      → (m >>= f) s ≡ (err x, s')
  bind-err m f s e =
      ap (λ (w : Result E A × S). elim w.0 [ ok a ↦ f a w.1 | err x ↦ (err x, w.1) ]) e
