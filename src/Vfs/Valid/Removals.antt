-- ===== src/Vfs/Valid/Removals.antt =====
-- `remove` and `mv` keep the tree.
use ssh_hunt.Base.Actions.Keeps.{Keeps, keeps_rules}
use ssh_hunt.Base.{
  ℕ, ◌≡◌, ◌≢◌, false, some, Text, text_eq, text_eq_iff, arith, inl, inr, ok, Result-cases,
  Option-cases, Bool-cases,
}
use ssh_hunt.Vfs.Node.{VfsNode}
use ssh_hunt.Vfs.Path.{root, normalize_path, parent_path}
use ssh_hunt.Vfs.Path.Normal.{IsNormal, normalize_path-IsNormal}
use ssh_hunt.Vfs.Tree.{Vfs, node_at}
use ssh_hunt.Vfs.Write.{remove, mv, is_within}
use ssh_hunt.Vfs.Write.Removal.{
  without, node_at-without, remove_present, remove_of_root, remove_missing,
}
use ssh_hunt.Vfs.Valid.{DirAt, IsTree}
use ssh_hunt.Vfs.Valid.Below.{within-root, within_parent}
use ssh_hunt.Vfs.Valid.Writes.{copy-Keeps}

module _ (k : Text) (v : Vfs) (normal : IsNormal k) (ne : k ≢ root) where
  node_left :
      (j : Text) (n : VfsNode)
      → node_at j (without k v) ≡ some n
      → (is_within k j ≡ false) × (node_at j v ≡ some n)
  node_left j n at = elim (Bool-cases (is_within k j)) [
    | inl gone ↦ cc (at, node_at-without k j v, gone)
    | inr out ↦ (out, rw (node_at-without k j v, out) at at)
  ]

  DirAt-without : (j : Text) → is_within k j ≡ false → DirAt j v → DirAt j (without k v)
  DirAt-without j out (m, at, d) = (m, rw (node_at-without k j v, out) at, d)

  -- Without a path and all below it the nodes are still a tree.
  pub without-IsTree : IsTree v → IsTree (without k v)
  without-IsTree t = record {
    root_dir = DirAt-without root (within-root k normal ne) t.root_dir;
    keys = λ j n here. t.keys j n (node_left j n here).1;
    parents = λ j n here not_root.
        let (out, was) = node_left j n here in
        DirAt-without (parent_path j) (within_parent k j normal ne (t.keys j n was).0 not_root out)
          (t.parents j n was not_root);
  }

remove_at :
    (cwd path k : Text) (v : Vfs)
    → normalize_path cwd path ≡ ok k
    → IsTree v
    → IsTree (remove cwd path v).1
remove_at cwd path k v e t = elim (Bool-cases (text_eq k root)) [
  | inl at_root ↦ rw (remove_of_root cwd path k v e ((text_eq_iff k root).0 at_root)) t
  | inr off ↦
      let ne : k ≢ root = λ r. ground (arith, text_eq_iff k root) in
      elim (Option-cases (node_at k v)) [
        | inl absent ↦ rw (remove_missing cwd path k v e ne absent) t
        | inr (n, present) ↦
            rw (remove_present cwd path k v e n ne present)
              (without-IsTree k v (normalize_path-IsNormal cwd path k e) ne t)
      ]
]

pub remove-Keeps : (cwd path : Text) → Keeps IsTree (remove cwd path)
remove-Keeps cwd path = record {
  kept = λ v t. elim (Result-cases (normalize_path cwd path)) [
    | inl (k, e) ↦ remove_at cwd path k v e t
    | inr (x, e) ↦ unfold remove in rw e t
  ];
}

pub mv-Keeps : (now : ℕ) (cwd from to : Text) → Keeps IsTree (mv now cwd from to)
unfolding mv
mv-Keeps now cwd from to = search (keeps_rules, copy-Keeps, remove-Keeps) depth 8
