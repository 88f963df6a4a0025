-- ===== src/Vfs/Valid/Below.antt =====
-- Which paths in normal form lie at or below another.
use ssh_hunt.Base.{
  ◌≡◌, ◌≢◌, refl, sym, ap, ◌∙◌, Bool, true, false, ◌||◌, List, [], ◌∷◌, ◌++◌, append_assoc, join,
  Text, text_eq, text_eq_iff, starts_with, starts_with-append, starts_with_split, arith, Bool-cases,
  inl, inr,
}
use ssh_hunt.Vfs.Path.{slash, root, render, parent_path}
use ssh_hunt.Vfs.Path.Pieces.{IsName}
use ssh_hunt.Vfs.Path.Normal.{Names, IsNormal}
use ssh_hunt.Vfs.Path.Parents.{render-append, parent_path-render}
use ssh_hunt.Vfs.Tree.{below}
use ssh_hunt.Vfs.Write.{is_within}

-- The last part of a path that has one.
pub last-IsName :
    (p : Text) (ps : List Text)
    → Names (p ∷ ps)
    → (qs : List Text) × (q : Text) × Names qs × IsName q × (p ∷ ps ≡ qs ++ q ∷ [])
last-IsName p [] h = ([], p, tt, h.0, refl)
last-IsName p (r ∷ ps) h =
    let (qs, q, names, name, e) = last-IsName r ps h.1 in
    (p ∷ qs, q, (h.0, names), name, ap (λ (x : List Text). p ∷ x) e)

pub starts_with-append_right :
    (p s t : Text) → starts_with p s ≡ true → starts_with p (s ++ t) ≡ true
starts_with-append_right p s t h =
    let (r, e) = starts_with_split p s h in rw (e, append_assoc) (starts_with-append p (r ++ t))

-- A child lies below its directory.
starts_with-below : (k p : Text) → starts_with (below k) (k ++ (slash ∷ p)) ≡ true
starts_with-below k p = rw at (starts_with-append (below k) p)
  where
    at : k ++ (slash ∷ p) ≡ below k ++ p
    at = sym (append_assoc k (slash ∷ []) p)

below-ne-root : (x : Text) → starts_with (below (slash ∷ x)) root ≡ false
unfolding starts_with
below-ne-root [] = refl
below-ne-root (c ∷ x) = refl

or_right : (a b : Bool) → b ≡ true → (a || b) ≡ true
or_right a b h = ground arith

-- The root lies at or below no other path.
pub within-root : (k : Text) → IsNormal k → k ≢ root → is_within k root ≡ false
unfolding render
within-root k ([], h, e) ne = absurd (ne e)
within-root k (p ∷ ps, h, e) ne =
    ground (arith, text_eq_iff root k, e, below-ne-root (join slash (p ∷ ps)))

-- What lies at or below `k` has its children there too.
within_child :
    (k q : Text) (qs : List Text) (p : Text)
    → is_within k (render (q ∷ qs)) ≡ true
    → is_within k (render (q ∷ (qs ++ p ∷ []))) ≡ true
within_child k q qs p h = rw (render-append q qs p) (or_right _ _ starts)
  where
    starts : starts_with (below k) (render (q ∷ qs) ++ (slash ∷ p)) ≡ true
    starts = elim (Bool-cases (text_eq (render (q ∷ qs)) k)) [
      | inl e ↦ rw ((text_eq_iff (render (q ∷ qs)) k).0 e) (starts_with-below k p)
      | inr off ↦ starts_with-append_right (below k) (render (q ∷ qs)) (slash ∷ p) (ground arith)
    ]

within_render :
    (k : Text) (ps : List Text) (p : Text)
    → IsNormal k
    → k ≢ root
    → is_within k (render (ps ++ p ∷ [])) ≡ false
    → is_within k (render ps) ≡ false
within_render k [] p normal ne off = unfold render in within-root k normal ne
within_render k (q ∷ qs) p normal ne off = elim (Bool-cases (is_within k (render (q ∷ qs)))) [
  | inl at ↦ cc (off, within_child k q qs p at)
  | inr out ↦ out
]

-- What is not at or below `k` has a parent that is not.
pub within_parent :
    (k j : Text)
    → IsNormal k
    → k ≢ root
    → IsNormal j
    → j ≢ root
    → is_within k j ≡ false
    → is_within k (parent_path j) ≡ false
within_parent k j normal ne ([], h, e) not_root off = absurd (not_root (unfold render in e))
within_parent k j normal ne (p ∷ ps, h, e) not_root off =
    let (qs, q, names, name, whole) = last-IsName p ps h in
    let at : j ≡ render (qs ++ q ∷ []) = e ∙ ap render whole in
    rw (at, parent_path-render qs q name) (within_render k qs q normal ne (rw (← at) off))
