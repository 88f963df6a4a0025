-- ===== src/Vfs/Valid.antt =====
-- The invariant of the map of nodes: it is a tree of directories with files as leaves.
pub mod Below
pub mod Writes
pub mod Removals
pub mod Directories
pub mod Making
pub mod Histories
use ssh_hunt.Base.{
  ℕ, ◌≡◌, ◌≢◌, refl, sym, ap, ◌∙◌, Bool, none, some, Text, text_eq, text_eq_iff, text_eq_refl,
  arith, Bool-cases, inl, inr, lookup, [],
}
use ssh_hunt.Vfs.Node.{VfsNode, dir}
use ssh_hunt.Vfs.Path.{root, render, parent_path}
use ssh_hunt.Vfs.Path.Normal.{IsNormal}
use ssh_hunt.Vfs.Tree.{Vfs, node_at, put_node, default, root_node}
use ssh_hunt.Vfs.Write.Contents.{node_at-put_self, node_at-put_ne}

-- A directory stands at the key.
abbrev pub DirAt : Text → Vfs → Type 0
DirAt k v = (m : VfsNode) × (node_at k v ≡ some m) × (m.kind ≡ dir)

pub record IsTree (v : Vfs) : Type 0 where
  pub root_dir : DirAt root v
  pub keys : (k : Text) (n : VfsNode) → node_at k v ≡ some n → IsNormal k × (n.path ≡ k)
  pub parents : (k : Text) (n : VfsNode) → node_at k v ≡ some n → k ≢ root → DirAt (parent_path k) v

module _ (k : Text) (n : VfsNode) (v : Vfs)
    (stays_dir : (m : VfsNode) → node_at k v ≡ some m → m.kind ≡ dir → n.kind ≡ dir) where
  DirAt-put : (j : Text) → DirAt j v → DirAt j (put_node k n v)
  DirAt-put j (m, at, d) = elim (Bool-cases (text_eq k j)) [
    | inl e ↦
        let same : k ≡ j = (text_eq_iff k j).0 e in
        (n, rw (← same) (node_at-put_self k n v), stays_dir m (rw same at) d)
    | inr ne ↦ (m, node_at-put_ne k j n v (λ e. ground (arith, text_eq_iff k j)) ∙ at, d)
  ]

  -- A node may be written at a key in normal form, below a directory, that is no directory turned
  -- into a file.
  pub put-IsTree :
      IsTree v
      → IsNormal k
      → n.path ≡ k
      → (k ≢ root → DirAt (parent_path k) v)
      → IsTree (put_node k n v)
  put-IsTree t normal named up = record {
    root_dir = DirAt-put root t.root_dir;
    keys = λ j m at. elim (Bool-cases (text_eq k j)) [
      | inl e ↦
          let same : k ≡ j = (text_eq_iff k j).0 e in
          let is_n : m ≡ n = cc (node_at-put_self k n v) in
          (rw (← same) normal, ap (λ (x : VfsNode). x.path) is_n ∙ named ∙ same)
      | inr ne ↦
          t.keys j m (sym (node_at-put_ne k j n v (λ e. ground (arith, text_eq_iff k j))) ∙ at)
    ];
    parents = λ j m at not_root. elim (Bool-cases (text_eq k j)) [
      | inl e ↦
          let same : k ≡ j = (text_eq_iff k j).0 e in
          DirAt-put (parent_path j) (rw (← same) (up (λ r. not_root (sym same ∙ r))))
      | inr ne ↦ DirAt-put (parent_path j) (
          t.parents j m (sym (node_at-put_ne k j n v (λ e. ground (arith, text_eq_iff k j))) ∙ at)
            not_root)
    ];
  }

default_node :
    (now : ℕ) (k : Text) (n : VfsNode)
    → node_at k (default now) ≡ some n
    → (root ≡ k) × (root_node now ≡ n)
unfolding default lookup
default_node now k n at = elim (Bool-cases (text_eq root k)) [
  | inl e ↦ ((text_eq_iff root k).0 e, cc e)
  | inr ne ↦ absurd (ground arith)
]

-- A new file system is a tree.
pub default-IsTree : (now : ℕ) → IsTree (default now)
default-IsTree now = record {
  root_dir = (root_node now, unfold default lookup text_eq in refl, refl);
  keys = λ k n at.
      let (e, is_n) = default_node now k n at in
      (([], tt, unfold render in sym e), ap (λ (x : VfsNode). x.path) (sym is_n) ∙ e);
  parents = λ k n at not_root. absurd (not_root (sym (default_node now k n at).0));
}
