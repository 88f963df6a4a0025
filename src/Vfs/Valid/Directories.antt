-- ===== src/Vfs/Valid/Directories.antt =====
-- `ensure_dir` and `mkdir_p`: they keep the tree.
use ssh_hunt.Base.Actions.Keeps.{Keeps, Keeps-bind, keeps_rules}
use ssh_hunt.Base.{
  ℕ, ◌≡◌, refl, none, some, List, [], ◌∷◌, ◌++◌, Text, text_eq, arith, inl, inr, ok, Result-cases,
  if◌then◌else◌,
}
use ssh_hunt.Vfs.Node.{VfsNode, dir, file}
use ssh_hunt.Vfs.Path.{slash, root, normalize_path, parent_path}
use ssh_hunt.Vfs.Path.Normal.{normalize_path-IsNormal}
use ssh_hunt.Vfs.Tree.{Vfs, node_at, put_node}
use ssh_hunt.Vfs.Write.{ensure_dir, mkdir_segments, mkdir_p, new_dir}
use ssh_hunt.Vfs.Write.Contents.{Place, at_file, at_dir, fresh, in_file, orphan, place}
use ssh_hunt.Vfs.Valid.{IsTree}
use ssh_hunt.Vfs.Valid.Writes.{add-IsTree}

module _ (now : ℕ) (path owner k : Text) (v : Vfs) (e : normalize_path root path ≡ ok k) where
  pub ensure_known : (n : VfsNode) → node_at k v ≡ some n → ensure_dir now path owner v ≡ (ok tt, v)
  unfolding ensure_dir
  ensure_known n at = ground arith

  pub ensure_fresh :
      (n : VfsNode)
      → node_at k v ≡ none
      → node_at (parent_path k) v ≡ some n
      → n.kind ≡ dir
      → ensure_dir now path owner v ≡ (ok tt, put_node k (new_dir now k owner) v)
  unfolding ensure_dir
  ensure_fresh n at up d = ground arith

  ensure_in_file :
      (n : VfsNode)
      → node_at k v ≡ none
      → node_at (parent_path k) v ≡ some n
      → n.kind ≡ file
      → (ensure_dir now path owner v).1 ≡ v
  unfolding ensure_dir
  ensure_in_file n at up f = ground arith

  ensure_orphan :
      node_at k v ≡ none → node_at (parent_path k) v ≡ none → (ensure_dir now path owner v).1 ≡ v
  unfolding ensure_dir
  ensure_orphan at up = ground arith

  ensure_at : Place k v → IsTree v → IsTree (ensure_dir now path owner v).1
  ensure_at (at_file n at f) t = rw (ensure_known n at) t
  ensure_at (at_dir n at d) t = rw (ensure_known n at) t
  ensure_at (fresh p absent up d) t = rw (ensure_fresh p absent up d) (
      add-IsTree k (new_dir now k owner) p v t absent (normalize_path-IsNormal root path k e) refl
        up d)
  ensure_at (in_file n absent up f) t = rw (ensure_in_file n absent up f) t
  ensure_at (orphan absent up) t = rw (ensure_orphan absent up) t

pub ensure_dir-Keeps : (now : ℕ) (path owner : Text) → Keeps IsTree (ensure_dir now path owner)
ensure_dir-Keeps now path owner = record {
  kept = λ v t. elim (Result-cases (normalize_path root path)) [
    | inl (k, e) ↦ ensure_at now path owner k v e (place k v) t
    | inr (x, e) ↦ unfold ensure_dir in rw e t
  ];
}

mkdir_segments-Keeps :
    (now : ℕ) (owner cur : Text) (segments : List Text)
    → Keeps IsTree (mkdir_segments now owner cur segments)
unfolding mkdir_segments
mkdir_segments-Keeps now owner cur [] = record { kept = λ v t. t }
mkdir_segments-Keeps now owner cur (s ∷ segments) =
    let cur' = (if text_eq cur root then cur else cur ++ slash ∷ []) ++ s in
    Keeps-bind (ensure_dir now cur' owner) (λ _. mkdir_segments now owner cur' segments)
      (ensure_dir-Keeps now cur' owner) (λ _. mkdir_segments-Keeps now owner cur' segments)

pub mkdir_p-Keeps : (now : ℕ) (cwd path owner : Text) → Keeps IsTree (mkdir_p now cwd path owner)
unfolding mkdir_p
mkdir_p-Keeps now cwd path owner = search (keeps_rules, mkdir_segments-Keeps) depth 10
