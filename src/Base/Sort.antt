-- ===== src/Base/Sort.antt =====
-- `slice::sort_by`, which is stable, by a test of order.
use Prim.Native.Nat.{ℕ, zero, suc, ◌≤◌}
use mathlib.Core.Path.{◌≡◌, refl}
use mathlib.Core.Logic.{◌⊎◌, inl, inr}
use mathlib.Core.Bool.{Bool, true, false}
use mathlib.Core.List.{List, [], ◌∷◌}
use mathlib.Core.Option.{some, some-injective}
use native.Mathlib.Omega.{arith}
use ssh_hunt.Base.Tests.{if◌then◌else◌, Bool-cases}
use ssh_hunt.Base.Lists.{length, get_elem?, take, All}

-- Total and transitive.
pub record IsOrder {ℓ} {A : Type ℓ} (le : A → A → Bool) : Type ℓ where
  pub total : (a b : A) → le a b ≡ false → le b a ≡ true
  pub trans : (a b c : A) → le a b ≡ true → le b c ≡ true → le a c ≡ true

-- The item stands somewhere in the list.
abbrev pub At {ℓ} : {A : Type ℓ} → A → List A → Type ℓ
At x l = (i : ℕ) × (get_elem? l i ≡ some x)

pub weaken_each {ℓ κ} :
    {A : Type ℓ} (P Q : A → Type κ) (l : List A) → ((y : A) → P y → Q y) → All P l → All Q l
weaken_each P Q [] f h = tt
weaken_each P Q (x ∷ l) f h = (f x h.0, weaken_each P Q l f h.1)

-- Each item stands in the list.
pub All-At {ℓ} : {A : Type ℓ} (l : List A) → All (λ x. At x l) l
All-At [] = tt
All-At (x ∷ l) = (
  (zero, refl),
  weaken_each (λ y. At y l) (λ y. At y (x ∷ l)) l (λ y at. (suc at.0, at.1)) (All-At l),
)

module _ {ℓ} {A : Type ℓ} (le : A → A → Bool) where
  unfoldable pub insert_sorted : A → List A → List A
  insert_sorted x [] = x ∷ []
  insert_sorted x (y ∷ l) = let rest = insert_sorted x l in if le x y then x ∷ y ∷ l else y ∷ rest

  unfoldable pub sort_by : List A → List A
  unfolding insert_sorted
  sort_by [] = []
  sort_by (x ∷ l) = insert_sorted x (sort_by l)

  abbrev pub IsSorted : List A → Type 0
  IsSorted [] = Unit
  IsSorted (x ∷ l) = All (λ y. le x y ≡ true) l × IsSorted l

  pub All-insert_sorted :
      (P : A → Type 0) (x : A) (l : List A) → P x → All P l → All P (insert_sorted x l)
  unfolding insert_sorted
  All-insert_sorted P x [] h k = (h, tt)
  All-insert_sorted P x (y ∷ l) h k = elim (Bool-cases (le x y)) [
    | inl e ↦ rw e (h, k)
    | inr e ↦ rw e (k.0, All-insert_sorted P x l h k.1)
  ]

  -- What holds of all the items holds of all the sorted ones.
  pub All-sort_by : (P : A → Type 0) (l : List A) → All P l → All P (sort_by l)
  unfolding sort_by
  All-sort_by P [] h = tt
  All-sort_by P (x ∷ l) h = All-insert_sorted P x (sort_by l) h.0 (All-sort_by P l h.1)

  module _ (order : IsOrder le) where
    insert_sorted-IsSorted : (x : A) (l : List A) → IsSorted l → IsSorted (insert_sorted x l)
    unfolding insert_sorted
    insert_sorted-IsSorted x [] s = (tt, tt)
    insert_sorted-IsSorted x (y ∷ l) s = elim (Bool-cases (le x y)) [
      | inl e ↦ rw e (
        (
          e,
          weaken_each (λ z. le y z ≡ true) (λ z. le x z ≡ true) l (λ z h. order.trans x y z e h)
              s.0,
        ),
        s,
      )
      | inr e ↦ rw e (
        All-insert_sorted (λ z. le y z ≡ true) x l (order.total x y e) s.0,
        insert_sorted-IsSorted x l s.1,
      )
    ]

    pub sort_by-IsSorted : (l : List A) → IsSorted (sort_by l)
    unfolding sort_by
    sort_by-IsSorted [] = tt
    sort_by-IsSorted (x ∷ l) = insert_sorted-IsSorted x (sort_by l) (sort_by-IsSorted l)

  At-insert_self : (x : A) (l : List A) → At x (insert_sorted x l)
  unfolding insert_sorted
  At-insert_self x [] = (0, refl)
  At-insert_self x (y ∷ l) = elim (Bool-cases (le x y)) [
    | inl e ↦ rw e (zero, refl)
    | inr e ↦ let (i, at) = At-insert_self x l in rw e (suc i, at)
  ]

  At-insert_kept : (x y : A) (l : List A) → At y l → At y (insert_sorted x l)
  unfolding insert_sorted
  At-insert_kept x y [] (i, at) = absurd (cc)
  At-insert_kept x y (z ∷ l) (zero, at) = elim (Bool-cases (le x z)) [
    | inl e ↦ rw e (suc zero, at)
    | inr e ↦ rw e (zero, at)
  ]
  At-insert_kept x y (z ∷ l) (suc i, at) = elim (Bool-cases (le x z)) [
    | inl e ↦ rw e (suc (suc i), at)
    | inr e ↦ let (j, at') = At-insert_kept x y l (i, at) in rw e (suc j, at')
  ]

  each_stays : (x : A) (l r : List A) → All (λ y. At y r) l → All (λ y. At y (insert_sorted x r)) l
  each_stays x [] r h = tt
  each_stays x (y ∷ l) r h = (At-insert_kept x y r h.0, each_stays x l r h.1)

  -- No item is lost.
  pub At-sort_by : (l : List A) → All (λ x. At x (sort_by l)) l
  unfolding sort_by
  At-sort_by [] = tt
  At-sort_by (x ∷ l) = (At-insert_self x (sort_by l), each_stays x l (sort_by l) (At-sort_by l))

  get_All : (P : A → Type 0) (l : List A) (i : ℕ) (x : A) → All P l → get_elem? l i ≡ some x → P x
  get_All P [] i x h e = absurd (cc)
  get_All P (y ∷ l) zero x h e = rw (← some-injective y x e) h.0
  get_All P (y ∷ l) (suc i) x h e = get_All P l i x h.1 e

  -- An item of a sorted list is among the first `n`, or all of these come before it.
  pub At-take :
      (n : ℕ) (l : List A) (i : ℕ) (x : A)
      → IsSorted l
      → get_elem? l i ≡ some x
      → At x (take n l) ⊎ All (λ y. le y x ≡ true) (take n l)
  At-take zero l i x s e = inr tt
  At-take (suc n) [] i x s e = inr tt
  At-take (suc n) (y ∷ l) zero x s e = inl (zero, e)
  At-take (suc n) (y ∷ l) (suc i) x s e = elim (At-take n l i x s.1 e) [
    | inl (j, at) ↦ inl (suc j, at)
    | inr before ↦ inr (get_All (λ z. le y z ≡ true) l i x s.0 e, before)
  ]

  pub All-take : (P : A → Type 0) (n : ℕ) (l : List A) → All P l → All P (take n l)
  All-take P zero l h = tt
  All-take P (suc n) [] h = tt
  All-take P (suc n) (x ∷ l) h = (h.0, All-take P n l h.1)

  pub take-IsSorted : (n : ℕ) (l : List A) → IsSorted l → IsSorted (take n l)
  take-IsSorted zero l s = tt
  take-IsSorted (suc n) [] s = tt
  take-IsSorted (suc n) (x ∷ l) s = (All-take (λ y. le x y ≡ true) n l s.0, take-IsSorted n l s.1)

pub length-take {ℓ} : {A : Type ℓ} (n : ℕ) (l : List A) → length (take n l) ≤ n
length-take zero l = omega arith
length-take (suc n) [] = omega arith
length-take (suc n) (x ∷ l) = omega (arith, length-take n l)
