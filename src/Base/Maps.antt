-- ===== src/Base/Maps.antt =====
-- `BTreeMap` and `HashMap` as association lists. A `BTreeMap<String, V>` is kept in the order of
-- its keys; a `HashMap` here is only looked up, written and filtered, or its values are sorted
-- afterwards, so its order is that of insertion.
use mathlib.Core.Path.{◌≡◌, refl}
use mathlib.Core.Logic.{◌↔◌, ◌≢◌}
use mathlib.Core.Bool.{Bool, true, false, not, ◌&&◌}
use mathlib.Core.List.{List, [], ◌∷◌}
use mathlib.Core.Option.{Option, none, some}
use native.Mathlib.Omega.{arith}
use Prim.Native.Nat.{ℕ}
use ssh_hunt.Base.Tests.{if◌then◌else◌, ◌==◌ as nat_eq, ==_iff}
use ssh_hunt.Base.Strings.{Text, text_eq, text_eq_iff, text_lt}

-- Keys with a decidable equality.
pub record Key {ℓ} (K : Type ℓ) : Type ℓ where
  pub key_eq : K → K → Bool
  pub key_eq_iff : (a b : K) → (key_eq a b ≡ true) ↔ (a ≡ b)

instance abbrev pub nat_key : Key ℕ
nat_key = record { key_eq = nat_eq; key_eq_iff = ==_iff }

instance abbrev pub text_key : Key Text
text_key = record { key_eq = text_eq; key_eq_iff = text_eq_iff }

abbrev pub pair_eq : ℕ × ℕ → ℕ × ℕ → Bool
pair_eq (a, b) (c, d) = nat_eq a c && nat_eq b d

pub pair_eq_iff : (p q : ℕ × ℕ) → (pair_eq p q ≡ true) ↔ (p ≡ q)
pair_eq_iff (a, b) (c, d) = ground (arith, ==_iff a c, ==_iff b d)

instance abbrev pub pair_key : Key (ℕ × ℕ)
pair_key = record { key_eq = pair_eq; key_eq_iff = pair_eq_iff }

infix 50 ◌===◌
abbrev pub ◌===◌ {ℓ} : {K : Type ℓ} ⦃k : Key K⦄ → K → K → Bool
◌===◌ ⦃k⦄ = k.key_eq

abbrev pub Dict {ℓ} : Type ℓ → Type ℓ → Type ℓ
Dict K V = List (K × V)

module _ {ℓ} {K V : Type ℓ} ⦃key : Key K⦄ where
  -- `get`
  unfoldable pub lookup : K → Dict K V → Option V
  lookup k [] = none
  lookup k ((j, v) ∷ m) = if j === k then some v else lookup k m

  -- `contains_key`
  abbrev pub has_key : K → Dict K V → Bool
  has_key k m = elim (lookup k m) [ none ↦ false | some v ↦ true ]

  -- `HashMap::insert`, and a write through `get_mut` at a key that is there
  unfoldable pub insert : K → V → Dict K V → Dict K V
  insert k v [] = (k, v) ∷ []
  insert k v ((j, w) ∷ m) = if j === k then (k, v) ∷ m else (j, w) ∷ insert k v m

  -- `retain`, by a test on the keys; `remove` is the case of a single key
  unfoldable pub retain : (K → Bool) → Dict K V → Dict K V
  retain p [] = []
  retain p ((j, v) ∷ m) = let rest = retain p m in if p j then (j, v) ∷ rest else rest

  unfoldable pub remove : K → Dict K V → Dict K V
  unfolding retain
  remove k = retain (λ j. not (j === k))

  pub lookup-insert :
      (k j : K) (v : V) (m : Dict K V)
      → lookup j (insert k v m) ≡ (if k === j then some v else lookup j m)
  unfolding lookup insert
  lookup-insert k j v [] = refl
  lookup-insert k j v ((i, w) ∷ m) =
      ground
        (arith, key.key_eq_iff k j, key.key_eq_iff i k, key.key_eq_iff i j, lookup-insert k j v m)

  pub lookup-retain :
      (p : K → Bool) (j : K) (m : Dict K V)
      → lookup j (retain p m) ≡ (if p j then lookup j m else none)
  unfolding lookup retain
  lookup-retain p j [] = ground arith
  lookup-retain p j ((i, w) ∷ m) = ground (arith, key.key_eq_iff i j, lookup-retain p j m)

  pub lookup-remove :
      (k j : K) (m : Dict K V) → lookup j (remove k m) ≡ (if j === k then none else lookup j m)
  unfolding remove
  lookup-remove k j m = ground (arith, lookup-retain (λ i. not (i === k)) j m)

module _ {ℓ} {K V : Type ℓ} ⦃key : Key K⦄ where
  -- a write through `get_mut`, when the key is there
  unfoldable pub adjust : K → (V → V) → Dict K V → Dict K V
  unfolding insert lookup
  adjust k f m = elim (lookup k m) [ none ↦ m | some v ↦ insert k (f v) m ]

  pub lookup-adjust :
      (k : K) (f : V → V) (m : Dict K V) {v : V}
      → lookup k m ≡ some v
      → lookup k (adjust k f m) ≡ some (f v)
  unfolding adjust
  lookup-adjust k f m {v} e = ground (arith, e, lookup-insert k k (f v) m, key.key_eq_iff k k)

  pub lookup-insert_same : (k : K) (v : V) (m : Dict K V) → lookup k (insert k v m) ≡ some v
  lookup-insert_same k v m = ground (arith, lookup-insert k k v m, key.key_eq_iff k k)

  pub lookup-remove_same : (k : K) (m : Dict K V) → lookup k (remove k m) ≡ none
  lookup-remove_same k m = ground (arith, lookup-remove k k m, key.key_eq_iff k k)

  -- At another key.
  pub lookup-adjust_other :
      (k j : K) (f : V → V) (m : Dict K V) → k ≢ j → lookup j (adjust k f m) ≡ lookup j m
  unfolding adjust
  lookup-adjust_other k j f m ne = go (lookup k m)
    where
      go :
          (r : Option V)
          → lookup j (elim r as (λ _. Dict K V) [ none ↦ m | some v ↦ insert k (f v) m ])
            ≡ lookup j m
      go none = refl
      go (some v) = ground (arith, lookup-insert k j (f v) m, key.key_eq_iff k j)

module _ {V : Type 0} where
  -- `BTreeMap::insert`: a new key goes before the first greater one.
  unfoldable pub insert_ordered : Text → V → Dict Text V → Dict Text V
  insert_ordered k v [] = (k, v) ∷ []
  insert_ordered k v ((j, w) ∷ m) =
      let rest = insert_ordered k v m in
      if text_eq j k then (k, v) ∷ m else if text_lt k j then (k, v) ∷ (j, w) ∷ m else (j, w) ∷ rest

  pub lookup-insert_ordered :
      (k j : Text) (v : V) (m : Dict Text V)
      → lookup j (insert_ordered k v m) ≡ (if text_eq k j then some v else lookup j m)
  unfolding lookup insert_ordered
  lookup-insert_ordered k j v [] = refl
  lookup-insert_ordered k j v ((i, w) ∷ m) =
      ground
        (arith, text_eq_iff k j, text_eq_iff i k, text_eq_iff i j, lookup-insert_ordered k j v m)
