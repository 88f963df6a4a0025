-- ===== src/Vfs/Path/Parents.antt =====
-- `parent_path` of a path in normal form, and the paths below one.
use ssh_hunt.Base.{
  ℕ, ◌≡◌, refl, none, some, List, [], ◌∷◌, ◌++◌, append_assoc, Text, join, Lacks, arith, length,
  take-append,
}
use ssh_hunt.Vfs.Path.{slash, render, parent_path, rfind}
use ssh_hunt.Vfs.Path.Pieces.{IsName}

join-append :
    (c : ℕ) (q : Text) (ps : List Text) (p : Text)
    → join c (q ∷ (ps ++ p ∷ [])) ≡ join c (q ∷ ps) ++ (c ∷ p)
unfolding join
join-append c q [] p = refl
join-append c q (r ∷ ps) p = rw (join-append c r ps p, append_assoc)

-- A further part is written behind a slash.
pub render-append :
    (q : Text) (ps : List Text) (p : Text)
    → render (q ∷ (ps ++ p ∷ [])) ≡ render (q ∷ ps) ++ (slash ∷ p)
unfolding render
render-append q ps p = rw (join-append slash q ps p)

rfind-Lacks : (c : ℕ) (s : Text) → Lacks c s → rfind c s ≡ none
unfolding rfind
rfind-Lacks c [] h = refl
rfind-Lacks c (x ∷ s) h = ground (arith, rfind-Lacks c s h.1)

rfind-append : (c : ℕ) (s t : Text) → Lacks c t → rfind c (s ++ (c ∷ t)) ≡ some (length s)
unfolding rfind
rfind-append c [] t h = ground (arith, rfind-Lacks c t h)
rfind-append c (x ∷ s) t h = ground (arith, rfind-append c s t h)

-- The parent of a path in normal form has one part less.
pub parent_path-render :
    (ps : List Text) (p : Text) → IsName p → parent_path (render (ps ++ p ∷ [])) ≡ render ps
unfolding parent_path
parent_path-render [] p h = unfold render join in rw (rfind-append slash [] p h.no_slash)
parent_path-render (q ∷ ps) p h =
    rw (render-append q ps p, rfind-append slash (render (q ∷ ps)) p h.no_slash)
      (unfold render in take-append (render (q ∷ ps)) (slash ∷ p))
