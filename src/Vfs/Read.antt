-- ===== src/Vfs/Read.antt =====
-- ssh-hunt/crates/vfs/src/lib.rs: the methods of `Vfs` on `&self`.
use mathlib.Core.Option.{get_or}
use mathlib.Core.List.{head?}
use ssh_hunt.Base.Try.{◌>>=◌, ◌>>◌}
use ssh_hunt.Base.{
  Bool, true, not, ◌&&◌, ◌||◌, Option, none, some, List, [], ◌∷◌, map, Text, text, text_eq,
  starts_with, contains_char, split, drop, length, is_empty, filter_by, Dict, has_key,
  insert_ordered, text_key, Result, ok, ok_or, fail_if, if◌then◌else◌,
}
use ssh_hunt.Vfs.Node.{is_dir, is_file, VfsNode, VfsError, not_found, not_directory, not_file}
use ssh_hunt.Vfs.Path.{slash, normalize_path}
use ssh_hunt.Vfs.Tree.{Vfs, node_at, child_prefix}
use ssh_hunt.Vfs.Glob.{Regexes, glob_to_regex}

unfoldable pub read_file : Vfs → Text → Text → Result VfsError Text
read_file v cwd path = do
  normalized ← normalize_path cwd path
  node ← ok_or (node_at normalized v) (not_found normalized)
  fail_if (not (is_file node.kind)) (not_file normalized)
  ok (get_or node.content [])

unfoldable pub stat : Vfs → Text → Text → Result VfsError VfsNode
stat v cwd path = do
  normalized ← normalize_path cwd path
  ok_or (node_at normalized v) (not_found normalized)

unfoldable pub cd : Vfs → Text → Text → Result VfsError Text
cd v cwd path = do
  target ← normalize_path cwd path
  node ← ok_or (node_at target v) (not_found target)
  fail_if (not (is_dir node.kind)) (not_directory target)
  ok target

-- the tests of the loop of `ls_nodes`
unfoldable pub is_child : Text → Text → Text → Bool
is_child target prefix key =
    let remain = drop (length prefix) key in
    not (text_eq key target)
    && starts_with prefix key
    && not (is_empty remain || contains_char slash remain)

unfoldable pub child_nodes : Text → Dict Text VfsNode → List VfsNode
unfolding is_child
child_nodes target nodes =
    map (λ e. e.1) (filter_by (λ e. is_child target (child_prefix target) e.0) nodes)

unfoldable pub ls_nodes : Vfs → Text → Option Text → Result VfsError (List VfsNode)
unfolding child_nodes
ls_nodes v cwd path = do
  target ← normalize_path cwd (get_or path (text "."))
  node ← ok_or (node_at target v) (not_found target)
  ok (if is_file node.kind then node ∷ [] else child_nodes target v.nodes)

-- `remain.split('/').next().unwrap_or(remain)`
abbrev pub first_part : Text → Text
first_part remain = get_or (head? (split slash remain)) remain

-- one round of the loop of `ls` over the keys, on the ordered set of the names so far
unfoldable pub add_entry : Text → Text → Dict Text (Unit {0}) → Text → Dict Text (Unit {0})
add_entry target prefix entries key =
    let remain = drop (length prefix) key in
    if not (starts_with prefix key) || text_eq key target || is_empty remain
    then entries
    else insert_ordered (first_part remain) tt entries

unfoldable pub entries_below :
    Text → Dict Text (Unit {0}) → Dict Text VfsNode → Dict Text (Unit {0})
unfolding add_entry
entries_below target entries [] = entries
entries_below target entries ((key, n) ∷ nodes) =
    entries_below target (add_entry target (child_prefix target) entries key) nodes

unfoldable pub ls : Vfs → Text → Option Text → Result VfsError (List Text)
unfolding entries_below
ls v cwd path = do
  target ← normalize_path cwd (get_or path (text "."))
  node ← ok_or (node_at target v) (not_found target)
  ok (if is_file node.kind then target ∷ [] else map (λ e. e.0) (entries_below target [] v.nodes))

-- `key.rsplit('/').next().unwrap_or(key)`: the last piece
unfoldable pub last_part : Text → List Text → Text
last_part key [] = key
last_part key (p ∷ []) = p
last_part key (p ∷ q ∷ ps) = last_part key (q ∷ ps)

module _ (regexes : Regexes) where
  open regexes use {Regex, is_match}

  abbrev pub matches_name : Option Regex → Text → Bool
  matches_name none key = true
  matches_name (some re) key = is_match re (last_part key (split slash key))

  -- `pattern.map(glob_to_regex).transpose()`
  abbrev pub pattern_regex : Option Text → Result VfsError (Option Regex)
  pattern_regex none = ok none
  pattern_regex (some pattern) = do re ← glob_to_regex regexes pattern; ok (some re)

  unfoldable pub find : Vfs → Text → Text → Option Text → Result VfsError (List Text)
  unfolding last_part
  find v cwd start pattern = do
    root_path ← normalize_path cwd start
    fail_if (not (has_key root_path v.nodes)) (not_found root_path)
    regex ← pattern_regex pattern
    let prefix = child_prefix root_path
    ok (
        filter_by
          (λ key. (text_eq key root_path || starts_with prefix key) && matches_name regex key)
          (map (λ e. e.0) v.nodes))

  unfoldable pub glob : Vfs → Text → Text → Result VfsError (List Text)
  glob v cwd pattern = do
    normalized ← normalize_path cwd pattern
    re ← glob_to_regex regexes normalized
    ok (filter_by (is_match re) (map (λ e. e.0) v.nodes))
