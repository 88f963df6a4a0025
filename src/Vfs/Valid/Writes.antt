-- ===== src/Vfs/Valid/Writes.antt =====
-- The methods that write nodes keep the tree.
use ssh_hunt.Base.Actions.Keeps.{Keeps, keeps_rules}
use ssh_hunt.Base.{
  ℕ, ◌≡◌, refl, sym, ◌∙◌, Bool, none, some, Text, arith, inl, inr, ok, Result-cases, Option-cases,
}
use mathlib.Core.Option.{some-injective}
use ssh_hunt.Vfs.Node.{VfsNode, dir}
use ssh_hunt.Vfs.Path.{normalize_path, parent_path}
use ssh_hunt.Vfs.Path.Normal.{IsNormal, normalize_path-IsNormal}
use ssh_hunt.Vfs.Tree.{Vfs, node_at, put_node, stamp, update_node, update_absent, update_present}
use ssh_hunt.Vfs.Write.{touch, write_file, new_file, written, chmod, copy}
use ssh_hunt.Vfs.Write.Contents.{
  Place, at_file, at_dir, fresh, in_file, orphan, place, touch_known, touch_fresh, touch_in_file,
  touch_orphan,
}
use ssh_hunt.Vfs.Valid.{IsTree, put-IsTree}

-- A node that is there may be replaced by one of its kind and path.
pub replace-IsTree :
    (k : Text) (n m : VfsNode) (v : Vfs)
    → IsTree v
    → node_at k v ≡ some n
    → m.path ≡ n.path
    → m.kind ≡ n.kind
    → IsTree (put_node k m v)
replace-IsTree k n m v t at same_path same_kind =
    let (normal, named) = t.keys k n at in
    put-IsTree k m v (λ o at_o d. same_kind ∙ ground (arith, some-injective n o (sym at ∙ at_o))) t
      normal (same_path ∙ named) (t.parents k n at)

-- A node may be added below a directory.
pub add-IsTree :
    (k : Text) (n p : VfsNode) (v : Vfs)
    → IsTree v
    → node_at k v ≡ none
    → IsNormal k
    → n.path ≡ k
    → node_at (parent_path k) v ≡ some p
    → p.kind ≡ dir
    → IsTree (put_node k n v)
add-IsTree k n p v t absent normal named up d =
    put-IsTree k n v (λ o at_o _. absurd (cc)) t normal named (λ _. (p, up, d))

module _ (now : ℕ) (cwd path owner k : Text) (v : Vfs) (t : IsTree v)
    (e : normalize_path cwd path ≡ ok k) where
  touch_at : Place k v → IsTree (touch now cwd path owner v).1
  touch_at (at_file n at f) =
      rw (touch_known now cwd path owner k v e n at)
        (replace-IsTree k n (stamp now n) v t at refl refl)
  touch_at (at_dir n at d) =
      rw (touch_known now cwd path owner k v e n at)
        (replace-IsTree k n (stamp now n) v t at refl refl)
  touch_at (fresh p absent up d) = rw (touch_fresh now cwd path owner k v e p absent up d) (
      add-IsTree k (new_file now k owner) p v t absent (normalize_path-IsNormal cwd path k e) refl
        up d)
  touch_at (in_file n absent up f) = rw (touch_in_file now cwd path owner k v e n absent up f) t
  touch_at (orphan absent up) = rw (touch_orphan now cwd path owner k v e absent up) t

pub touch-IsTree :
    (now : ℕ) (cwd path owner : Text) (v : Vfs) → IsTree v → IsTree (touch now cwd path owner v).1
touch-IsTree now cwd path owner v t = elim (Result-cases (normalize_path cwd path)) [
  | inl (k, e) ↦ touch_at now cwd path owner k v t e (place k v)
  | inr (x, e) ↦ unfold touch in rw e t
]

-- A write through `get_mut` that keeps the path and the kind keeps the tree.
pub update-IsTree :
    (k : Text) (f : VfsNode → VfsNode) (v : Vfs)
    → ((n : VfsNode) → ((f n).path ≡ n.path) × ((f n).kind ≡ n.kind))
    → IsTree v
    → IsTree (update_node k f v)
update-IsTree k f v same t = elim (Option-cases (node_at k v)) [
  | inl absent ↦ rw (update_absent k f v absent) t
  | inr (n, at) ↦
      rw (update_present k f v n at) (replace-IsTree k n (f n) v t at (same n).0 (same n).1)
]

pub touch-Keeps : (now : ℕ) (cwd path owner : Text) → Keeps IsTree (touch now cwd path owner)
touch-Keeps now cwd path owner = record { kept = λ v. touch-IsTree now cwd path owner v }

stamp_contents-IsTree :
    (now : ℕ) (append : Bool) (contents k : Text) (v : Vfs)
    → IsTree v
    → IsTree (
        update_node k
          (λ n. stamp now (record n { content = some (written append contents n.content) }))
          v)
stamp_contents-IsTree now append contents k v t =
    update-IsTree k
      (λ n. stamp now (record n { content = some (written append contents n.content) })) v
      (λ n. (refl, refl)) t

pub write_file-Keeps :
    (now : ℕ) (cwd path contents : Text) (append : Bool) (owner : Text)
    → Keeps IsTree (write_file now cwd path contents append owner)
unfolding write_file
write_file-Keeps now cwd path contents append owner =
    search (keeps_rules, touch-Keeps, stamp_contents-IsTree) depth 12

pub chmod-Keeps : (now : ℕ) (cwd path : Text) (mode : ℕ) → Keeps IsTree (chmod now cwd path mode)
unfolding chmod
chmod-Keeps now cwd path mode = search (keeps_rules, update_mode-IsTree) depth 12
  where
    update_mode-IsTree :
        (k : Text) (v : Vfs)
        → IsTree v
        → IsTree (
            update_node k
              (λ n.
                stamp now (record n { meta = record (n.meta) { perms = record { mode = mode } } }))
              v)
    update_mode-IsTree k v = update-IsTree k _ v (λ n. (refl, refl))

pub copy-Keeps : (now : ℕ) (cwd from to : Text) → Keeps IsTree (copy now cwd from to)
unfolding copy
copy-Keeps now cwd from to = search (keeps_rules, write_file-Keeps) depth 12
