-- ===== src/Vfs/Path/Relative.antt =====
-- What `normalize_path` leaves of a relative path: which of its parts survive the `..` after them.
use mathlib.Core.List.{reverse, reverse-cons, reverse-reverse}
use ssh_hunt.Base.{
  ℕ, zero, suc, ◌≡◌, refl, ◌∙◌, false, List, [], ◌∷◌, ◌++◌, foldl-append, Text, text, text_eq,
  split, Bool-cases, inl, inr, is_empty, starts_with, ok, if◌then◌else◌, ◌||◌, ap,
}
use ssh_hunt.Vfs.Path.{slash, root, pop, walk_part, walk, render, normalize_path}
use ssh_hunt.Vfs.Path.Normal.{Names, walk-Names_self, walked}

-- The parts that survive, read from the last part to the first, where `k` of the `..` read so far still
-- have to leave a part: an empty part and `.` count for nothing, `..` leaves one more part, and a name
-- is left by one of these, or else survives.
unfoldable pub surviving : ℕ → List Text → List Text
unfolding text_eq
surviving k [] = []
surviving k (p ∷ ps) =
    if text_eq p [] || text_eq p (text ".")
    then surviving k ps
    else if text_eq p (text "..")
    then surviving (suc k) ps
    else elim k [ zero ↦ p ∷ surviving zero ps | suc j ↦ surviving j ps ]

pop_all : ℕ → List Text → List Text
pop_all zero ps = ps
pop_all (suc k) ps = pop_all k (pop ps)

pop_all_nil : (k : ℕ) → pop_all k [] ≡ []
unfolding pop_all pop
pop_all_nil zero = refl
pop_all_nil (suc k) = pop_all_nil k

pop-append : (ps : List Text) (p : Text) → pop (ps ++ p ∷ []) ≡ ps
unfolding pop
pop-append [] p = refl
pop-append (q ∷ []) p = refl
pop-append (q ∷ r ∷ ps) p = ap (λ t. q ∷ t) (pop-append (r ∷ ps) p)

walk-reverse :
    (p : Text) (r : List Text) → walk [] (reverse (p ∷ r)) ≡ walk_part (walk [] (reverse r)) p
walk-reverse p r = rw (reverse-cons, foldl-append walk_part [] (reverse r) (p ∷ [])) refl

surviving-name :
    (k : ℕ) (p : Text) (r : List Text)
    → (text_eq p [] || text_eq p (text ".")) ≡ false
    → text_eq p (text "..") ≡ false
    → ((j : ℕ) → reverse (surviving j r) ≡ pop_all j (walk [] (reverse r)))
    → reverse (surviving k (p ∷ r)) ≡ pop_all k (walk [] (reverse r) ++ p ∷ [])
unfolding surviving pop_all
surviving-name zero p r named not_up rest =
    rw (named, not_up) (reverse-cons p (surviving zero r) ∙ ap (λ t. t ++ p ∷ []) (rest zero))
surviving-name (suc j) p r named not_up rest =
    rw (named, not_up, pop-append (walk [] (reverse r)) p) (rest j)

surviving-walk : (k : ℕ) (r : List Text) → reverse (surviving k r) ≡ pop_all k (walk [] (reverse r))
unfolding surviving walk_part pop_all
surviving-walk k [] = rw (pop_all_nil k) refl
surviving-walk k (p ∷ r) =
    rw (walk-reverse p r) elim (Bool-cases (text_eq p [] || text_eq p (text "."))) [
      | inl e ↦ rw e (surviving-walk k r)
      | inr named ↦ elim (Bool-cases (text_eq p (text ".."))) [
        | inl e ↦ rw (named, e) (surviving-walk (suc k) r)
        | inr not_up ↦
            surviving-name k p r named not_up (λ j. surviving-walk j r) ∙ rw (named, not_up) refl
      ]
    ]

-- From a directory in normal form, the normal form of a relative path is spelled by those parts of the
-- directory and the path, in order, that survive the `..` after them.
pub normalize_path-relative :
    (cs : List Text) (path : Text)
    → Names cs
    → is_empty path ≡ false
    → starts_with root path ≡ false
    → normalize_path (render cs) path
      ≡ ok (render (reverse (surviving zero (reverse (cs ++ split slash path)))))
unfolding pop_all
normalize_path-relative cs path h some relative =
    walked cs path h some relative
    ∙ rw
        (
          surviving-walk zero (reverse (cs ++ split slash path)),
          reverse-reverse (cs ++ split slash path),
          foldl-append walk_part [] cs (split slash path),
          walk-Names_self [] cs h,
        )
        refl
