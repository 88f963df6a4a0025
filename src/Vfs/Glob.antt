-- ===== src/Vfs/Glob.antt =====
-- ssh-hunt/crates/vfs/src/lib.rs: `glob_to_regex`. The regular expressions are the `regex` crate's:
-- compiling and matching are a parameter.
use ssh_hunt.Base.{
  ℕ, Bool, true, false, not, ◌||◌, Option, [], ◌∷◌, ◌++◌, Text, text, Result, ok_or, if◌then◌else◌,
  ◌==◌,
}
use ssh_hunt.Vfs.Node.{VfsError, invalid_path}

-- `Regex::new`, with the reason of a failure dropped as `map_err(|_| …)` does, and `is_match`.
pub record Regexes : Type 1 where
  pub Regex : Type 0
  pub compile : Text → Option Regex
  pub is_match : Regex → Text → Bool

-- the characters that are escaped: `. ( ) + | ^ $ { } \`
unfoldable pub is_special : ℕ → Bool
is_special c =
    c == b'.'
    || c == b'('
    || c == b')'
    || c == b'+'
    || c == b'|'
    || c == b'^'
    || c == b'$'
    || c == b'{'
    || c == b'}'
    || c == 92

-- the `while` loop; in the inner `for` loop, after a `[` and up to the `]`, characters are copied
unfoldable pub translate : Bool → Text → Text
unfolding is_special
translate in_class [] = []
translate true (c ∷ s) = c ∷ translate (not (c == b']')) s
translate false (c ∷ s) =
    let rest = translate (c == b'[') s in
    if c == b'*'
    then text ".*" ++ rest
    else if c == b'?'
    then b'.' ∷ rest
    else if is_special c
    then 92 ∷ c ∷ rest
    else c ∷ rest

module _ (regexes : Regexes) where
  open regexes use {Regex, compile}

  unfoldable pub glob_to_regex : Text → Result VfsError Regex
  unfolding translate
  glob_to_regex pattern = ok_or (compile (b'^' ∷ translate false pattern ++ b'$' ∷ [])) invalid_path
