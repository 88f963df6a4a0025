-- ===== src/Vfs/Write.antt =====
-- ssh-hunt/crates/vfs/src/lib.rs: the methods of `Vfs` on `&mut self`. `now` is what `Utc::now()`
-- returns during the call. A method returns its result and the file system as it leaves it, also
-- after an error.
pub mod Contents
pub mod Removal
pub mod Copies
pub mod RoundTrip
use ssh_hunt.Base.Actions.{◌>>=◌, ◌>>◌}
use ssh_hunt.Base.{
  ℕ, Bool, true, false, not, ◌&&◌, ◌||◌, Option, none, some, List, [], ◌∷◌, ◌++◌, foldl, Text, text,
  text_eq, starts_with, split, drop, length, is_empty, filter_by, Dict, lookup, has_key, retain,
  insert_ordered, text_key, Result, ok, err, ok_or, Exec, pure, raise, lift, query, gets, raise_if,
  modify, if◌then◌else◌,
}
use mathlib.Core.Option.{get_or}
use ssh_hunt.Vfs.Node.{
  NodeKind, dir, file, is_dir, is_file, VfsPerms, VfsMeta, VfsNode, VfsError, not_found,
  not_directory, not_file, remove_root, meta_now,
}
use ssh_hunt.Vfs.Path.{slash, root, normalize_path, parent_path}
use ssh_hunt.Vfs.Tree.{Vfs, node_at, put_node, update_node, stamp, below}

abbrev pub Method : Type 0 → Type 0
Method = Exec Vfs VfsError

-- The parent of a new node must be there, and a directory.
unfoldable pub check_parent : Text → Method (Unit {0})
check_parent normalized = do
  let parent = parent_path normalized
  parent_node ← query (λ v. ok_or (node_at parent v) (not_found parent))
  raise_if (not (is_dir parent_node.kind)) (not_directory parent)

abbrev pub new_dir : ℕ → Text → Text → VfsNode
new_dir now normalized owner = record {
  path = normalized;
  kind = dir;
  meta = meta_now now owner true;
  content = none;
}

abbrev pub new_file : ℕ → Text → Text → VfsNode
new_file now normalized owner = record {
  path = normalized;
  kind = file;
  meta = meta_now now owner false;
  content = some [];
}

unfoldable pub ensure_dir : ℕ → Text → Text → Method (Unit {0})
unfolding check_parent
ensure_dir now path owner = do
  normalized ← lift (normalize_path root path)
  known ← gets (λ v. has_key normalized v.nodes)
  if known
      then pure tt
      else (do check_parent normalized; modify (put_node normalized (new_dir now normalized owner)))

-- the loop of `mkdir_p` over the segments, with the path `cur` built so far
unfoldable pub mkdir_segments : ℕ → Text → Text → List Text → Method (Unit {0})
mkdir_segments now owner cur [] = pure tt
mkdir_segments now owner cur (segment ∷ rest) = do
  let cur' = (if text_eq cur root then cur else cur ++ slash ∷ []) ++ segment
  ensure_dir now cur' owner
  mkdir_segments now owner cur' rest

unfoldable pub mkdir_p : ℕ → Text → Text → Text → Method Text
unfolding mkdir_segments
mkdir_p now cwd path owner = do
  normalized ← lift (normalize_path cwd path)
  if text_eq normalized root then pure normalized else (do
    mkdir_segments now owner root (filter_by (λ s. not (is_empty s)) (split slash normalized))
    pure normalized)

unfoldable pub touch : ℕ → Text → Text → Text → Method Text
unfolding check_parent
touch now cwd path owner = do
  normalized ← lift (normalize_path cwd path)
  known ← gets (λ v. has_key normalized v.nodes)
  if known then (do modify (update_node normalized (stamp now)); pure normalized) else (do
    check_parent normalized
    modify (put_node normalized (new_file now normalized owner))
    pure normalized)

-- `content` after a write of `data`, the missing content standing for an empty one
abbrev pub written : Bool → Text → Option Text → Text
written append text old = if append then get_or old [] ++ text else text

unfoldable pub write_file : ℕ → Text → Text → Text → Bool → Text → Method Text
unfolding touch
write_file now cwd path contents append owner = do
  normalized ← touch now cwd path owner
  node ← query (λ v. ok_or (node_at normalized v) (not_found normalized))
  raise_if (not (is_file node.kind)) (not_file normalized)
  modify (
      update_node normalized
        (λ n. stamp now (record n { content = some (written append contents n.content) })))
  pure node.path

unfoldable pub remove : Text → Text → Method (Unit {0})
remove cwd path = do
  normalized ← lift (normalize_path cwd path)
  raise_if (text_eq normalized root) remove_root
  known ← gets (λ v. has_key normalized v.nodes)
  raise_if (not known) (not_found normalized)
  modify (λ v. record v {
    nodes =
        retain (λ k. not (text_eq k normalized) && not (starts_with (below normalized) k)) v.nodes;
  })

unfoldable pub copy : ℕ → Text → Text → Text → Method (Unit {0})
copy now cwd from to = do
  src ← lift (normalize_path cwd from)
  dst ← lift (normalize_path cwd to)
  src_node ← query (λ v. ok_or (node_at src v) (not_found src))
  raise_if (not (is_file src_node.kind)) (not_file src)
  write_file now root dst (get_or src_node.content []) false (text "system")
  pure tt

unfoldable pub mv : ℕ → Text → Text → Text → Method (Unit {0})
mv now cwd from to = do copy now cwd from to; remove cwd from

-- the snapshot of `copy_tree`: the node itself and all below it
abbrev pub is_within : Text → Text → Bool
is_within src k = text_eq k src || starts_with (below src) k

unfoldable pub snapshot : Text → Dict Text VfsNode → Dict Text VfsNode
unfolding retain
snapshot src nodes = retain (is_within src) nodes

-- where `copy_tree` puts a node of the snapshot
abbrev pub moved_path : Text → Text → Text → Text
moved_path src dst path = dst ++ (if text_eq path src then [] else drop (length src) path)

-- one round of the loop of `copy_tree`
unfoldable pub copy_node : Text → Text → Dict Text VfsNode → Text × VfsNode → Dict Text VfsNode
copy_node src dst nodes (path, node) =
    let new_path = moved_path src dst path in
    insert_ordered new_path (record node { path = new_path }) nodes

unfoldable pub copy_tree : ℕ → Text → Text → Text → Method (Unit {0})
unfolding snapshot copy_node
copy_tree now cwd from to = do
  src ← lift (normalize_path cwd from)
  dst ← lift (normalize_path cwd to)
  src_node ← query (λ v. ok_or (node_at src v) (not_found src))
  if is_file src_node.kind
      then copy now cwd from to
      else modify
          (λ v. record v { nodes = foldl (copy_node src dst) v.nodes (snapshot src v.nodes) })

unfoldable pub chmod : ℕ → Text → Text → ℕ → Method (Unit {0})
chmod now cwd path mode = do
  normalized ← lift (normalize_path cwd path)
  node ← query (λ v. ok_or (node_at normalized v) (not_found normalized))
  modify (
      update_node normalized
        (λ n. stamp now (record n { meta = record (n.meta) { perms = record { mode = mode } } })))
