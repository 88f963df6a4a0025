-- ===== src/Vfs/Write/Removal.antt =====
-- `remove`: the node and all below it go, and nothing else.
use ssh_hunt.Base.{
  ◌≡◌, ◌≢◌, refl, not, ◌&&◌, none, some, Text, text_eq, text_eq_iff, starts_with, lookup-retain,
  retain, ok, err, arith, if◌then◌else◌, text_key,
}
use ssh_hunt.Vfs.Node.{VfsNode, not_found, remove_root}
use ssh_hunt.Vfs.Path.{root, normalize_path}
use ssh_hunt.Vfs.Tree.{Vfs, node_at, below}
use ssh_hunt.Vfs.Write.{remove, is_within}

-- The map that `remove` leaves.
abbrev pub without : Text → Vfs → Vfs
without k v = record v {
  nodes = retain (λ j. not (text_eq j k) && not (starts_with (below k) j)) v.nodes;
}

pub node_at-without :
    (k j : Text) (v : Vfs) → node_at j (without k v) ≡ (if is_within k j then none else node_at j v)
node_at-without k j v =
    ground
      (arith, lookup-retain (λ j. not (text_eq j k) && not (starts_with (below k) j)) j v.nodes)

module _ (cwd path k : Text) (v : Vfs) (e : normalize_path cwd path ≡ ok k) where
  pub remove_present :
      (n : VfsNode) → k ≢ root → node_at k v ≡ some n → remove cwd path v ≡ (ok tt, without k v)
  unfolding remove
  remove_present n ne at = ground (arith, text_eq_iff k root)

  -- Removing a path that is there, and not the root, removes it and all below it, and only those.
  pub remove_lem :
      (n : VfsNode)
      → k ≢ root
      → node_at k v ≡ some n
      → let (r, v') = remove cwd path v in
        (r ≡ ok tt) × ((j : Text) → node_at j v' ≡ (if is_within k j then none else node_at j v))
  remove_lem n ne at = rw (remove_present n ne at) (refl, λ j. node_at-without k j v)

  -- The root cannot be removed.
  pub remove_of_root : k ≡ root → remove cwd path v ≡ (err remove_root, v)
  unfolding remove
  remove_of_root r = ground (arith, text_eq_iff k root)

  pub remove_missing : k ≢ root → node_at k v ≡ none → remove cwd path v ≡ (err (not_found k), v)
  unfolding remove
  remove_missing ne at = ground (arith, text_eq_iff k root)
