-- ===== src/Vfs/Write/Contents.antt =====
-- What `touch` and `write_file` do to each node, on every branch.
use mathlib.Core.Option.{get_or}
use ssh_hunt.Base.{
  ℕ, ◌≡◌, ◌≢◌, refl, Bool, Option, none, some, [], ◌++◌, Text, text_eq_iff, text_eq_refl,
  lookup-insert_ordered, inl, inr, Result, ok, err, arith, ◌∙◌, if◌then◌else◌,
}
use ssh_hunt.Vfs.Node.{kind_cases, dir, file, VfsNode, VfsError, not_found, not_directory, not_file}
use ssh_hunt.Vfs.Path.{normalize_path, parent_path}
use ssh_hunt.Vfs.Tree.{Vfs, node_at, put_node, stamp}
use ssh_hunt.Vfs.Write.{touch, write_file, new_file, written}

-- What may stand at a key and at its parent, as `touch` and `write_file` tell them apart.
pub data Place (k : Text) (v : Vfs) : Type 0 where
  at_file : (n : VfsNode) → node_at k v ≡ some n → n.kind ≡ file → Place k v
  at_dir : (n : VfsNode) → node_at k v ≡ some n → n.kind ≡ dir → Place k v
  fresh :
      (n : VfsNode)
      → node_at k v ≡ none
      → node_at (parent_path k) v ≡ some n
      → n.kind ≡ dir
      → Place k v
  in_file :
      (n : VfsNode)
      → node_at k v ≡ none
      → node_at (parent_path k) v ≡ some n
      → n.kind ≡ file
      → Place k v
  orphan : node_at k v ≡ none → node_at (parent_path k) v ≡ none → Place k v

module _ (now : ℕ) (cwd path owner k : Text) (v : Vfs) (e : normalize_path cwd path ≡ ok k) where
  pub touch_known :
      (n : VfsNode)
      → node_at k v ≡ some n
      → touch now cwd path owner v ≡ (ok k, put_node k (stamp now n) v)
  unfolding touch
  touch_known n at = ground arith

  pub touch_fresh :
      (n : VfsNode)
      → node_at k v ≡ none
      → node_at (parent_path k) v ≡ some n
      → n.kind ≡ dir
      → touch now cwd path owner v ≡ (ok k, put_node k (new_file now k owner) v)
  unfolding touch
  touch_fresh n at par d = ground arith

  pub touch_in_file :
      (n : VfsNode)
      → node_at k v ≡ none
      → node_at (parent_path k) v ≡ some n
      → n.kind ≡ file
      → touch now cwd path owner v ≡ (err (not_directory (parent_path k)), v)
  unfolding touch
  touch_in_file n at par d = ground arith

  pub touch_orphan :
      node_at k v ≡ none
      → node_at (parent_path k) v ≡ none
      → touch now cwd path owner v ≡ (err (not_found (parent_path k)), v)
  unfolding touch
  touch_orphan at par = ground arith

place_of :
    (k : Text) (v : Vfs) (here up : Option VfsNode)
    → node_at k v ≡ here
    → node_at (parent_path k) v ≡ up
    → Place k v
place_of k v none none e p = orphan e p
place_of k v none (some n) e p = elim (kind_cases n.kind) [
  | inl d ↦ fresh n e p d
  | inr f ↦ in_file n e p f
]
place_of k v (some n) up e p = elim (kind_cases n.kind) [
  | inl d ↦ at_dir n e d
  | inr f ↦ at_file n e f
]

-- One of the places is always the case.
pub place : (k : Text) (v : Vfs) → Place k v
place k v = place_of k v (node_at k v) (node_at (parent_path k) v) refl refl

-- A file with this text stands at the key.
pub record Holds (k contents : Text) (v : Vfs) : Type 0 where
  pub node : VfsNode
  pub at : node_at k v ≡ some node
  pub is_a_file : node.kind ≡ file
  pub holds : node.content ≡ some contents

abbrev pub SameBut : Text → Vfs → Vfs → Type 0
SameBut k v v' = (j : Text) → k ≢ j → node_at j v' ≡ node_at j v

abbrev pub content_of : VfsNode → Text
content_of n = get_or n.content []

-- What `write_file` has done, by what stood at the key and at its parent.
abbrev pub Outcome :
    (now : ℕ) (append : Bool) (contents k : Text) (v : Vfs)
    → Place k v
    → Result VfsError Text × Vfs
    → Type 0
Outcome now append contents k v (at_file n _ _) (r, v') =
    (r ≡ ok n.path)
    × Holds k (if append then content_of n ++ contents else contents) v'
    × SameBut k v v'
Outcome now append contents k v (at_dir n _ _) (r, v') =
    (r ≡ err (not_file k)) × (node_at k v' ≡ some (stamp now n)) × SameBut k v v'
Outcome now append contents k v (fresh n _ _ _) (r, v') =
    (r ≡ ok k) × Holds k contents v' × SameBut k v v'
Outcome now append contents k v (in_file n _ _ _) (r, v') =
    (r ≡ err (not_directory (parent_path k))) × (v' ≡ v)
Outcome now append contents k v (orphan _ _) (r, v') =
    (r ≡ err (not_found (parent_path k))) × (v' ≡ v)

pub node_at-put_self : (k : Text) (n : VfsNode) (v : Vfs) → node_at k (put_node k n v) ≡ some n
node_at-put_self k n v = rw (lookup-insert_ordered, text_eq_refl k)

pub node_at-put_ne :
    (k j : Text) (n : VfsNode) (v : Vfs) → k ≢ j → node_at j (put_node k n v) ≡ node_at j v
node_at-put_ne k j n v ne = ground (arith, lookup-insert_ordered k j n v.nodes, text_eq_iff k j)

module _ (now : ℕ) (cwd path contents : Text) (append : Bool) (owner k : Text) (v : Vfs)
    (e : normalize_path cwd path ≡ ok k) where
  -- The second half of `write_file`, on what `touch` has left at the key.
  write_touched_file :
      (n : VfsNode) (v' : Vfs)
      → touch now cwd path owner v ≡ (ok k, v')
      → node_at k v' ≡ some n
      → n.kind ≡ file
      → write_file now cwd path contents append owner v ≡ (
        ok n.path,
        put_node k (stamp now (record n { content = some (written append contents n.content) })) v',
      )
  unfolding write_file
  write_touched_file n v' t at f = ground arith

  write_touched_dir :
      (n : VfsNode) (v' : Vfs)
      → touch now cwd path owner v ≡ (ok k, v')
      → node_at k v' ≡ some n
      → n.kind ≡ dir
      → write_file now cwd path contents append owner v ≡ (err (not_file k), v')
  unfolding write_file
  write_touched_dir n v' t at d = ground arith

  write_untouched :
      (x : VfsError)
      → touch now cwd path owner v ≡ (err x, v)
      → write_file now cwd path contents append owner v ≡ (err x, v)
  unfolding write_file
  write_untouched x t = ground arith

  put_twice :
      (n m : VfsNode) (j : Text) → k ≢ j → node_at j (put_node k m (put_node k n v)) ≡ node_at j v
  put_twice n m j ne = node_at-put_ne k j m (put_node k n v) ne ∙ node_at-put_ne k j n v ne

  put_holds :
      (n m : VfsNode) (x : Text)
      → m.kind ≡ file
      → m.content ≡ some x
      → Holds k x (put_node k m (put_node k n v))
  put_holds n m x f c = record {
    node = m;
    at = node_at-put_self k m (put_node k n v);
    is_a_file = f;
    holds = c;
  }

  written_empty : some (written append contents (some [])) ≡ some contents
  written_empty = ground arith

  -- `write_file` on every branch: over a file it replaces or extends the text, below a directory it
  -- makes the file, and elsewhere it fails with the error of the branch; no other path changes.
  pub write_file-Outcome :
      (p : Place k v)
      → Outcome now append contents k v p (write_file now cwd path contents append owner v)
  write_file-Outcome (at_file n at f) =
      rw
        (write_touched_file (stamp now n) (put_node k (stamp now n) v)
          (touch_known now cwd path owner k v e n at) (node_at-put_self k (stamp now n) v) f)
        (refl, put_holds (stamp now n) _ _ f refl, put_twice (stamp now n) _)
  write_file-Outcome (at_dir n at d) =
      rw
        (write_touched_dir (stamp now n) (put_node k (stamp now n) v)
          (touch_known now cwd path owner k v e n at) (node_at-put_self k (stamp now n) v) d)
        (refl, node_at-put_self k (stamp now n) v, λ j. node_at-put_ne k j (stamp now n) v)
  write_file-Outcome (fresh n none_at up d) =
      rw
        (write_touched_file (new_file now k owner) (put_node k (new_file now k owner) v)
          (touch_fresh now cwd path owner k v e n none_at up d)
          (node_at-put_self k (new_file now k owner) v) refl)
        (
          refl,
          put_holds (new_file now k owner) _ contents refl written_empty,
          put_twice (new_file now k owner) _,
        )
  write_file-Outcome (in_file n none_at up f) =
      rw (write_untouched _ (touch_in_file now cwd path owner k v e n none_at up f)) (refl, refl)
  write_file-Outcome (orphan none_at up) =
      rw (write_untouched _ (touch_orphan now cwd path owner k v e none_at up)) (refl, refl)
