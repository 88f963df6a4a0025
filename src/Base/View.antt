-- ===== src/Base/View.antt =====
-- Views: the items of a list that pass a test, each shown as another, as `filter` and `map` do.
use Prim.Native.Nat.{ℕ}
use mathlib.Core.Path.{◌≡◌, refl}
use mathlib.Core.Logic.{◌⊎◌, inl, inr}
use mathlib.Core.Bool.{Bool, true, false}
use mathlib.Core.List.{List, [], ◌∷◌, map}
use ssh_hunt.Base.Tests.{if◌then◌else◌, Bool-cases}
use ssh_hunt.Base.Lists.{All, filter_by, take}
use ssh_hunt.Base.Sort.{
  At, All-At, weaken_each, IsOrder, sort_by, sort_by-IsSorted, All-sort_by, At-sort_by, At-take,
}

module _ {A B : Type 0} (f : B → A) (q : B → Bool) where
  abbrev pub view : List B → List A
  view l = map f (filter_by q l)

  -- What an item of the list that passes the test shows.
  abbrev pub IsFrom : List B → A → Type 0
  IsFrom l a = (x : B) × At x l × (q x ≡ true) × (f x ≡ a)

  parts-IsFrom : (l r : List B) → All (λ x. At x r) l → All (IsFrom r) (view l)
  parts-IsFrom [] r h = tt
  parts-IsFrom (x ∷ l) r h = elim (Bool-cases (q x)) [
    | inl e ↦ rw e ((x, h.0, e, refl), parts-IsFrom l r h.1)
    | inr e ↦ rw e (parts-IsFrom l r h.1)
  ]

  -- Nothing else is shown.
  pub view-IsFrom : (l : List B) → All (IsFrom l) (view l)
  view-IsFrom l = parts-IsFrom l l (All-At l)

  -- One step of the filter: what holds of the kept holds of the first if it is kept.
  kept_first :
      (P : A → Type 0) (x : B) (rest : List B) (b : Bool)
      → All P (map f (if b then x ∷ rest else rest))
      → (b ≡ true → P (f x)) × All P (map f rest)
  kept_first P x rest true h = (λ e. h.0, h.1)
  kept_first P x rest false h = (λ e. absurd (cc), h)

  -- What holds of all that is shown holds of what each item that passes the test shows.
  pub view_lem : (P : A → Type 0) (l : List B) → All P (view l) → All (λ x. q x ≡ true → P (f x)) l
  view_lem P [] h = tt
  view_lem P (x ∷ l) h =
      let (first, rest) = kept_first P x (filter_by q l) (q x) h in (first, view_lem P l rest)

  module _ (le : A → A → Bool) where
    pub sorted_view-IsFrom : (l : List B) → All (IsFrom l) (sort_by le (view l))
    sorted_view-IsFrom l = All-sort_by le (IsFrom l) (view l) (view-IsFrom l)

    -- What passes the test is shown.
    pub sorted_view_complete :
        (l : List B) → All (λ x. q x ≡ true → At (f x) (sort_by le (view l))) l
    sorted_view_complete l = view_lem (λ a. At a (sort_by le (view l))) l (At-sort_by le (view l))

    -- What passes the test is in a prefix, or all of that comes before it.
    abbrev pub IsShown : List A → B → Type 0
    IsShown out x = q x ≡ true → At (f x) out ⊎ All (λ a. le a (f x) ≡ true) out

    pub prefix_shows :
        IsOrder le → (n : ℕ) (l : List B) → All (IsShown (take n (sort_by le (view l)))) l
    prefix_shows order n l =
        let sorted = sort_by le (view l) in
        weaken_each (λ x. q x ≡ true → At (f x) sorted) (IsShown (take n sorted)) l
          (λ x at pass.
            let (i, here) = at pass in
            At-take le n sorted i (f x) (sort_by-IsSorted le order (view l)) here)
          (sorted_view_complete l)
