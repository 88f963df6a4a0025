-- ===== src/Vfs/Path/Normal.antt =====
-- What `normalize_path` returns: the one spelling of a path that the map of nodes is keyed by.
use ssh_hunt.Base.{
  ◌≡◌, refl, true, false, List, [], ◌∷◌, ◌++◌, foldl-append, append_assoc, append-nil, Text, text,
  text_eq, split, join, All, All-append, Lacks, arith, Bool-cases, inl, inr, is_empty, starts_with,
  ok,
}
use ssh_hunt.Vfs.Path.{slash, root, pop, walk_part, walk, render, normalize_path, source_of}
use ssh_hunt.Vfs.Path.Pieces.{IsName, split-Lacks_self, split-append, split-join, split-Lacks}

abbrev pub Names : List Text → Type 0
Names = All IsName

-- A path in normal form.
abbrev pub IsNormal : Text → Type 0
IsNormal p = (ps : List Text) × Names ps × (p ≡ render ps)

pop-Names : (ps : List Text) → Names ps → Names (pop ps)
unfolding pop
pop-Names [] h = tt
pop-Names (p ∷ []) h = tt
pop-Names (p ∷ q ∷ ps) h = (h.0, pop-Names (q ∷ ps) h.1)

walk_part-Names : (ps : List Text) (p : Text) → Names ps → Lacks slash p → Names (walk_part ps p)
unfolding walk_part
walk_part-Names ps p h k = elim (Bool-cases (text_eq p [])) [
  | inl e ↦ rw e h
  | inr not_empty ↦ elim (Bool-cases (text_eq p (text "."))) [
    | inl e ↦ rw (not_empty, e) h
    | inr not_here ↦ elim (Bool-cases (text_eq p (text ".."))) [
      | inl e ↦ rw (not_empty, not_here, e) (pop-Names ps h)
      | inr not_up ↦
          rw (not_empty, not_here, not_up)
            (All-append IsName ps (p ∷ []) h (
              record { not_empty = not_empty; not_here = not_here; not_up = not_up; no_slash = k },
              tt,
            ))
    ]
  ]
]

walk-Names : (acc ps : List Text) → Names acc → All (Lacks slash) ps → Names (walk acc ps)
walk-Names acc [] h k = h
walk-Names acc (p ∷ ps) h k = walk-Names (walk_part acc p) ps (walk_part-Names acc p h k.0) k.1

walk_part_name : (acc : List Text) (p : Text) → IsName p → walk_part acc p ≡ acc ++ p ∷ []
unfolding walk_part
walk_part_name acc p h = rw (h.not_empty, h.not_here, h.not_up)

-- Names are pushed one after another.
pub walk-Names_self : (acc ps : List Text) → Names ps → walk acc ps ≡ acc ++ ps
walk-Names_self acc [] h = rw append-nil
walk-Names_self acc (p ∷ ps) h =
    rw (walk_part_name acc p h.0, walk-Names_self (acc ++ p ∷ []) ps h.1, append_assoc)

pub Names-Lacks : (ps : List Text) → Names ps → All (Lacks slash) ps
Names-Lacks [] h = tt
Names-Lacks (p ∷ ps) h = (h.0.no_slash, Names-Lacks ps h.1)

-- A rendered path splits into an empty piece and its parts.
pub split-render :
    (p : Text) (ps : List Text) → Names (p ∷ ps) → split slash (render (p ∷ ps)) ≡ [] ∷ p ∷ ps
unfolding render
split-render p ps h = rw (
  split-append slash [] (join slash (p ∷ ps)),
  split-join slash p ps h.0.no_slash (Names-Lacks ps h.1),
  split-Lacks_self slash [] tt,
)

-- The parts of a rendered path are the parts that were rendered.
pub walk-render : (acc ps : List Text) → Names ps → walk acc (split slash (render ps)) ≡ acc ++ ps
unfolding render walk_part
walk-render acc [] h = unfold split in rw append-nil
walk-render acc (p ∷ ps) h =
    rw
      (
        split-append slash [] (join slash (p ∷ ps)),
        split-join slash p ps h.0.no_slash (Names-Lacks ps h.1),
        split-Lacks_self slash [] tt,
      )
      (walk-Names_self acc (p ∷ ps) h)

pub render-ne-root : (p : Text) (ps : List Text) → IsName p → text_eq (render (p ∷ ps)) root ≡ false
unfolding render join text_eq
render-ne-root [] ps h = absurd (ground (arith, h.not_empty))
render-ne-root (c ∷ p) [] h = refl
render-ne-root (c ∷ p) (q ∷ ps) h = refl

-- From a directory in normal form a relative path is walked from the parts of the directory.
pub walked :
    (cs : List Text) (path : Text)
    → Names cs
    → is_empty path ≡ false
    → starts_with root path ≡ false
    → normalize_path (render cs) path ≡ ok (render (walk cs (split slash path)))
unfolding normalize_path
walked [] path h some relative = rw (some, relative)
walked (c ∷ cs) path h some relative = rw (
  some,
  relative,
  render-ne-root c cs h.0,
  split-append slash (render (c ∷ cs)) path,
  foldl-append walk_part [] (split slash (render (c ∷ cs))) (split slash path),
  walk-render [] (c ∷ cs) h,
)

source-Lacks : (cwd path : Text) → All (Lacks slash) (split slash (source_of cwd path))
source-Lacks cwd path = split-Lacks slash (source_of cwd path)

starts_with-render : (ps : List Text) → starts_with root (render ps) ≡ true
unfolding render starts_with
starts_with-render [] = refl
starts_with-render (p ∷ ps) = refl

is_empty-render : (ps : List Text) → is_empty (render ps) ≡ false
unfolding render
is_empty-render [] = refl
is_empty-render (p ∷ ps) = refl

-- A path in normal form is its own normal form, from any directory.
pub normalize_path-render :
    (cwd : Text) (ps : List Text) → Names ps → normalize_path cwd (render ps) ≡ ok (render ps)
unfolding normalize_path
normalize_path-render cwd ps h = rw (is_empty-render ps, starts_with-render ps, walk-render [] ps h)

-- Every path but the empty one has a normal form, and that form is its own normal form, whatever
-- the directory it is then resolved from.
pub normalize_path_total :
    (cwd path : Text)
    → is_empty path ≡ false
    → (ps : List Text) × Names ps
      × (normalize_path cwd path ≡ ok (render ps))
      × ((d : Text) → normalize_path d (render ps) ≡ ok (render ps))
unfolding normalize_path
normalize_path_total cwd path some =
    let ps = walk [] (split slash (source_of cwd path)) in
    let names = walk-Names [] (split slash (source_of cwd path)) tt (source-Lacks cwd path) in
    (ps, names, rw some, λ d. normalize_path-render d ps names)

-- What `normalize_path` returns is left alone by it, from any directory.
pub normalize_path_idem :
    (cwd d path k : Text) → normalize_path cwd path ≡ ok k → normalize_path d k ≡ ok k
normalize_path_idem cwd d path k e = elim (Bool-cases (is_empty path)) [
  | inl none ↦ absurd (unfold normalize_path in ground (arith, e, none))
  | inr some ↦
      let (ps, names, to, again) = normalize_path_total cwd path some in
      let same : k ≡ render ps = cc in rw same (again d)
]

pub normalize_path-IsNormal : (cwd path k : Text) → normalize_path cwd path ≡ ok k → IsNormal k
normalize_path-IsNormal cwd path k e = elim (Bool-cases (is_empty path)) [
  | inl none ↦ absurd (unfold normalize_path in ground (arith, e, none))
  | inr some ↦ let (ps, names, to, again) = normalize_path_total cwd path some in (ps, names, cc)
]
