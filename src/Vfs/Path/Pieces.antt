-- ===== src/Vfs/Path/Pieces.antt =====
-- `split`, `join` and `walk` on the pieces of a path.
use ssh_hunt.Base.{
  ℕ, ◌≡◌, refl, false, List, [], ◌∷◌, ◌++◌, Text, text, text_eq, split, join, All, Lacks, arith,
  Bool-cases, inl, inr, ◌==◌,
}
use ssh_hunt.Vfs.Path.{slash}

-- What may stand between two slashes of a normal path.
pub record IsName (p : Text) : Type 0 where
  pub not_empty : text_eq p [] ≡ false
  pub not_here : text_eq p (text ".") ≡ false
  pub not_up : text_eq p (text "..") ≡ false
  pub no_slash : Lacks slash p

pub split-Lacks_self : (c : ℕ) (s : Text) → Lacks c s → split c s ≡ s ∷ []
unfolding split
split-Lacks_self c [] h = refl
split-Lacks_self c (x ∷ s) h = ground (arith, split-Lacks_self c s h.1)

split-some : (c : ℕ) (s : Text) → (p : Text) × (ps : List Text) × (split c s ≡ p ∷ ps)
unfolding split
split-some c [] = ([], [], refl)
split-some c (x ∷ s) = elim (Bool-cases (x == c)) [
  | inl at ↦ ([], split c s, ground arith)
  | inr off ↦ let (p, ps, e) = split-some c s in (x ∷ p, ps, ground arith)
]

-- Splitting at a separator.
pub split-append : (c : ℕ) (s t : Text) → split c (s ++ (c ∷ t)) ≡ split c s ++ split c t
unfolding split
split-append c [] t = ground arith
split-append c (x ∷ s) t = let (p, ps, e) = split-some c s in ground (arith, split-append c s t, e)

pub split-join :
    (c : ℕ) (p : Text) (ps : List Text)
    → Lacks c p
    → All (Lacks c) ps
    → split c (join c (p ∷ ps)) ≡ p ∷ ps
unfolding join
split-join c p [] h k = split-Lacks_self c p h
split-join c p (q ∷ ps) h k =
    rw (split-append c p (join c (q ∷ ps)), split-Lacks_self c p h, split-join c q ps k.0 k.1)

-- Every piece lacks the separator.
pub split-Lacks : (c : ℕ) (s : Text) → All (Lacks c) (split c s)
unfolding split
split-Lacks c [] = (tt, tt)
split-Lacks c (x ∷ s) =
    let (p, ps, e) = split-some c s in
    let ih : All (Lacks c) (p ∷ ps) = rw e at (split-Lacks c s) in
    elim (Bool-cases (x == c)) [
      | inl at ↦ rw (at, e) (tt, ih)
      | inr off ↦ rw (off, e) ((ground arith, ih.0), ih.1)
    ]
