-- ===== src/Vfs/Path.antt =====
-- ssh-hunt/crates/vfs/src/lib.rs: `normalize_path` and `parent_path`.
pub mod Pieces
pub mod Normal
pub mod Relative
pub mod Parents
use ssh_hunt.Base.{
  ℕ, zero, suc, Bool, ◌||◌, Option, none, some, List, [], ◌∷◌, ◌++◌, foldl, Text, text, text_eq,
  starts_with, split, join, take, is_empty, Result, ok, err, if◌then◌else◌, ◌==◌,
}
use ssh_hunt.Vfs.Node.{VfsError, invalid_path}

abbrev pub slash : ℕ
slash = b'/'

abbrev pub root : Text
root = slash ∷ []

-- `Vec::pop`, the popped part dropped
pub pop : List Text → List Text
pop [] = []
pop (p ∷ []) = []
pop (p ∷ q ∷ ps) = p ∷ pop (q ∷ ps)

-- one round of the loop over the parts of `source`
unfoldable pub walk_part : List Text → Text → List Text
unfolding text_eq pop
walk_part parts part =
    if text_eq part [] || text_eq part (text ".")
    then parts
    else if text_eq part (text "..")
    then pop parts
    else parts ++ part ∷ []

-- the loop
abbrev pub walk : List Text → List Text → List Text
walk = foldl walk_part

unfoldable pub source_of : Text → Text → Text
unfolding text_eq starts_with
source_of cwd path =
    if starts_with root path
    then path
    else if text_eq cwd root
    then root ++ path
    else cwd ++ (slash ∷ path)

unfoldable pub render : List Text → Text
unfolding join
render parts = if is_empty parts then root else slash ∷ join slash parts

unfoldable pub normalize_path : Text → Text → Result VfsError Text
unfolding source_of walk_part split render
normalize_path cwd path =
    if is_empty path
    then err invalid_path
    else ok (render (walk [] (split slash (source_of cwd path))))

-- `str::rfind`, at a character
pub rfind : ℕ → Text → Option ℕ
rfind c [] = none
rfind c (x ∷ s) = elim (rfind c s) [
  | some i ↦ some (suc i)
  | none ↦ if x == c then some zero else none
]

abbrev parent_at : Option ℕ → Text → Text
parent_at none path = root
parent_at (some zero) path = root
parent_at (some (suc i)) path = take (suc i) path

unfoldable pub parent_path : Text → Text
unfolding rfind
parent_path path = parent_at (rfind slash path) path
