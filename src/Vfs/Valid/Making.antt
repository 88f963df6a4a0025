-- ===== src/Vfs/Valid/Making.antt =====
-- `mkdir_p` makes the directory that it names, where the way is clear.
use mathlib.Core.Path.{subst}
use ssh_hunt.Base.Actions.{bind-ok}
use ssh_hunt.Base.{
  ℕ, ◌≡◌, refl, sym, ap, ◌∙◌, false, not, some, List, [], ◌∷◌, ◌++◌, append_assoc, append-nil, Text,
  text_eq, text_eq_iff, split, join, is_empty, filter_by, All-append, arith, inl, inr, Result, ok,
  Option-cases, Bool-cases, if◌then◌else◌,
}
use ssh_hunt.Vfs.Node.{VfsNode, VfsError, dir}
use ssh_hunt.Vfs.Path.{slash, root, render, normalize_path}
use ssh_hunt.Vfs.Path.Pieces.{IsName}
use ssh_hunt.Vfs.Path.Normal.{Names, normalize_path-render, split-render, render-ne-root}
use ssh_hunt.Vfs.Path.Parents.{render-append, parent_path-render}
use ssh_hunt.Vfs.Tree.{Vfs, node_at, put_node}
use ssh_hunt.Vfs.Read.{cd}
use ssh_hunt.Vfs.Write.{ensure_dir, mkdir_segments, mkdir_p, new_dir}
use ssh_hunt.Vfs.Write.Contents.{node_at-put_self, node_at-put_ne}
use ssh_hunt.Vfs.Valid.{DirAt, IsTree}
use ssh_hunt.Vfs.Valid.Directories.{ensure_known, ensure_fresh, mkdir_p-Keeps}

-- Nothing but directories, and free places, on the way down from `qs` along the names.
abbrev pub Clear : List Text → List Text → Vfs → Type 0
Clear qs [] v = Unit
Clear qs (r ∷ rs) v =
    ((n : VfsNode) → node_at (render (qs ++ r ∷ [])) v ≡ some n → n.kind ≡ dir)
    × Clear (qs ++ r ∷ []) rs v

cur_segment :
    (qs : List Text) (r : Text)
    → Names qs
    → (if text_eq (render qs) root then render qs else render qs ++ slash ∷ []) ++ r
      ≡ render (qs ++ r ∷ [])
cur_segment [] r h = unfold render join text_eq in refl
cur_segment (q ∷ qs) r h =
    rw (render-ne-root q qs h.0, render-append q qs r) (append_assoc (render (q ∷ qs)) _ _)

Clear-put :
    (k : Text) (m : VfsNode) (qs rs : List Text) (v : Vfs)
    → m.kind ≡ dir
    → Clear qs rs v
    → Clear qs rs (put_node k m v)
Clear-put k m qs [] v d h = tt
Clear-put k m qs (r ∷ rs) v d h = (
  λ n at. elim (Bool-cases (text_eq k (render (qs ++ r ∷ [])))) [
    | inl e ↦
        let is_m : n ≡ m =
          cc (at, node_at-put_self k m v, (text_eq_iff k (render (qs ++ r ∷ []))).0 e) in
        rw is_m d
    | inr ne ↦ h.0 n (
        sym (
          node_at-put_ne k (render (qs ++ r ∷ [])) m v
            (λ e. ground (arith, text_eq_iff k (render (qs ++ r ∷ [])))))
        ∙ at)
  ],
  Clear-put k m (qs ++ r ∷ []) rs v d h.1,
)

-- One more directory.
ensure_below :
    (now : ℕ) (owner : Text) (qs : List Text) (r : Text) (rs : List Text) (v : Vfs)
    → Names (qs ++ r ∷ [])
    → IsName r
    → DirAt (render qs) v
    → Clear qs (r ∷ rs) v
    → (v' : Vfs) × (ensure_dir now (render (qs ++ r ∷ [])) owner v ≡ (ok tt, v'))
      × DirAt (render (qs ++ r ∷ [])) v'
      × Clear (qs ++ r ∷ []) rs v'
ensure_below now owner qs r rs v names name (m, at, d) clear =
    let k = render (qs ++ r ∷ []) in
    let e = normalize_path-render root (qs ++ r ∷ []) names in
    elim (Option-cases (node_at k v)) [
      | inl absent ↦ (
        put_node k (new_dir now k owner) v,
        ensure_fresh now k owner k v e m absent (rw (parent_path-render qs r name) at) d,
        (new_dir now k owner, node_at-put_self k (new_dir now k owner) v, refl),
        Clear-put k (new_dir now k owner) (qs ++ r ∷ []) rs v refl clear.1,
      )
      | inr (n, there) ↦
          (v, ensure_known now k owner k v e n there, (n, there, clear.0 n there), clear.1)
    ]

segments_made :
    (now : ℕ) (owner : Text) (qs rs : List Text) (v : Vfs)
    → Names qs
    → Names rs
    → DirAt (render qs) v
    → Clear qs rs v
    → (v' : Vfs) × (mkdir_segments now owner (render qs) rs v ≡ (ok tt, v'))
      × DirAt (render (qs ++ rs)) v'
unfolding mkdir_segments
segments_made now owner qs [] v hq hr d clear = (v, refl, rw append-nil d)
segments_made now owner qs (r ∷ rs) v hq hr d clear =
    let names = All-append IsName qs (r ∷ []) hq (hr.0, tt) in
    let (v1, made, d1, clear1) = ensure_below now owner qs r rs v names hr.0 d clear in
    let (v2, rest, d2) = segments_made now owner (qs ++ r ∷ []) rs v1 names hr.1 d1 clear1 in
    (
      v2,
      rw (cur_segment qs r hq) (
          bind-ok (ensure_dir now (render (qs ++ r ∷ [])) owner)
            (λ _. mkdir_segments now owner (render (qs ++ r ∷ [])) rs) v made
          ∙ rest),
      subst (λ x. DirAt (render x) v2) (append_assoc qs (r ∷ []) rs) d2,
    )

not_empty-name : (p : Text) → IsName p → is_empty p ≡ false
unfolding text_eq
not_empty-name [] h = absurd (ground (arith, h.not_empty))
not_empty-name (c ∷ p) h = refl

filter-Names : (ps : List Text) → Names ps → filter_by (λ s. not (is_empty s)) ps ≡ ps
unfolding text_eq
filter-Names [] h = refl
filter-Names (p ∷ ps) h = ground (arith, filter-Names ps h.1, not_empty-name p h.0)

-- The loop's segments are the parts of the normalised path.
segments_of :
    (p : Text) (ps : List Text)
    → Names (p ∷ ps)
    → filter_by (λ s. not (is_empty s)) (split slash (render (p ∷ ps))) ≡ p ∷ ps
segments_of p ps h = rw (split-render p ps h) (filter-Names (p ∷ ps) h)

cd-DirAt :
    (cwd path k : Text) (v : Vfs)
    → normalize_path cwd path ≡ ok k
    → DirAt k v
    → cd v cwd path ≡ ok k
unfolding cd
cd-DirAt cwd path k v e (m, at, d) = ground arith

module _ (now : ℕ) (cwd path owner : Text) (v : Vfs) where
  mkdir_of_root : normalize_path cwd path ≡ ok root → mkdir_p now cwd path owner v ≡ (ok root, v)
  unfolding mkdir_p text_eq
  mkdir_of_root e = ground arith

  mkdir_of_segments :
      (k : Text) (v' : Vfs)
      → normalize_path cwd path ≡ ok k
      → text_eq k root ≡ false
      → mkdir_segments now owner root (filter_by (λ s. not (is_empty s)) (split slash k)) v
        ≡ (ok tt, v')
      → mkdir_p now cwd path owner v ≡ (ok k, v')
  unfolding mkdir_p
  mkdir_of_segments k v' e ne made = ground arith

  mkdir_p_made :
      (ps : List Text)
      → Names ps
      → normalize_path cwd path ≡ ok (render ps)
      → IsTree v
      → Clear [] ps v
      → (v' : Vfs) × (mkdir_p now cwd path owner v ≡ (ok (render ps), v')) × DirAt (render ps) v'
  mkdir_p_made [] names e t clear =
      (v, unfold render in mkdir_of_root e, unfold render in t.root_dir)
  mkdir_p_made (p ∷ ps) names e t clear =
      let (v', made, d) =
        segments_made now owner [] (p ∷ ps) v tt names (unfold render in t.root_dir) clear in
      (
        v',
        mkdir_of_segments (render (p ∷ ps)) v' e (render-ne-root p ps names.0)
            (rw (segments_of p ps names) (unfold render in made)),
        d,
      )

-- `mkdir_p` on a tree where nothing but directories stands on the way succeeds: afterwards the path
-- is a directory that `cd` accepts, and the nodes still are a tree.
pub mkdir_p_lem :
    (now : ℕ) (cwd path owner : Text) (ps : List Text) (v : Vfs)
    → Names ps
    → normalize_path cwd path ≡ ok (render ps)
    → IsTree v
    → Clear [] ps v
    → let (r, v') = mkdir_p now cwd path owner v in
      (r ≡ ok (render ps)) × (cd v' cwd path ≡ ok (render ps)) × IsTree v'
mkdir_p_lem now cwd path owner ps v names e t clear =
    let (v', made, d) = mkdir_p_made now cwd path owner v ps names e t clear in
    (
      ap (λ (w : Result VfsError Text × Vfs). w.0) made,
      rw made (cd-DirAt cwd path (render ps) v' e d),
      (mkdir_p-Keeps now cwd path owner).kept v t,
    )
