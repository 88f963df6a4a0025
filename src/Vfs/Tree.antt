-- ===== src/Vfs/Tree.antt =====
-- ssh-hunt/crates/vfs/src/lib.rs: the map of nodes, and what the methods share. `lookup` on it is
-- `BTreeMap::get`, `insert_ordered` is `BTreeMap::insert`.
use ssh_hunt.Base.{
  ◌≡◌, arith, ℕ, Option, none, some, [], ◌∷◌, ◌++◌, Text, text, text_eq, Dict, lookup,
  insert_ordered, text_key, true, if◌then◌else◌,
}
use ssh_hunt.Vfs.Node.{NodeKind, VfsNode, meta_now}
use ssh_hunt.Vfs.Path.{slash, root}

pub record Vfs : Type 0 where
  pub nodes : Dict Text VfsNode

-- `Vfs::default`, and its one node
abbrev pub root_node : ℕ → VfsNode
root_node now = record {
  path = root;
  kind = NodeKind.dir;
  meta = meta_now now (text "root") true;
  content = none;
}

unfoldable pub default : ℕ → Vfs
default now = record { nodes = (root, root_node now) ∷ [] }

abbrev pub node_at : Text → Vfs → Option VfsNode
node_at k v = lookup k v.nodes

abbrev pub put_node : Text → VfsNode → Vfs → Vfs
put_node k n v = record v { nodes = insert_ordered k n v.nodes }

-- A write through `get_mut`.
abbrev pub update_node : Text → (VfsNode → VfsNode) → Vfs → Vfs
update_node k f v = elim (node_at k v) [ none ↦ v | some n ↦ put_node k (f n) v ]

abbrev pub stamp : ℕ → VfsNode → VfsNode
stamp now n = record n { meta = record (n.meta) { updated_at = now } }

-- `format!("{path}/")`, and what starts the keys below a directory: `"/"` for the root
abbrev pub below : Text → Text
below path = path ++ slash ∷ []

abbrev pub child_prefix : Text → Text
child_prefix path = if text_eq path root then root else below path

pub update_absent :
    (k : Text) (f : VfsNode → VfsNode) (v : Vfs) → node_at k v ≡ none → update_node k f v ≡ v
update_absent k f v e = ground arith

pub update_present :
    (k : Text) (f : VfsNode → VfsNode) (v : Vfs) (n : VfsNode)
    → node_at k v ≡ some n
    → update_node k f v ≡ put_node k (f n) v
update_present k f v n e = ground arith
