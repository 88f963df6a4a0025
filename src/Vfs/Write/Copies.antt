-- ===== src/Vfs/Write/Copies.antt =====
-- `copy` and `mv`.
use mathlib.Core.Path.{subst}
use ssh_hunt.Base.{
  ℕ, ◌≡◌, ◌≢◌, refl, false, none, some, Text, text, text_eq_iff, text_eq_refl, ◌∙◌, ok, arith,
}
use ssh_hunt.Vfs.Node.{VfsNode, file, dir}
use ssh_hunt.Vfs.Path.{root, normalize_path, parent_path}
use ssh_hunt.Vfs.Path.Normal.{normalize_path_idem}
use ssh_hunt.Vfs.Tree.{Vfs, node_at}
use ssh_hunt.Vfs.Read.{read_file}
use ssh_hunt.Vfs.Write.{write_file, copy, mv, remove, is_within}
use ssh_hunt.Vfs.Write.Contents.{at_file, fresh, Holds, SameBut, content_of, write_file-Outcome}
use ssh_hunt.Vfs.Write.Removal.{node_at-without, remove_present}

-- A file can be written at the key.
pub data CanWrite (k : Text) (v : Vfs) : Type 0 where
  over : (n : VfsNode) → node_at k v ≡ some n → n.kind ≡ file → CanWrite k v
  create :
      (n : VfsNode)
      → node_at k v ≡ none
      → node_at (parent_path k) v ≡ some n
      → n.kind ≡ dir
      → CanWrite k v

pub read_file-Holds :
    (cwd path k x : Text) (v : Vfs)
    → normalize_path cwd path ≡ ok k
    → Holds k x v
    → read_file v cwd path ≡ ok x
unfolding read_file
read_file-Holds cwd path k x v e h = ground (arith, e, h.at, h.is_a_file, h.holds)

-- A write, not an append, where one is possible.
pub write_over :
    (now : ℕ) (cwd path contents owner k : Text) (v : Vfs)
    → normalize_path cwd path ≡ ok k
    → CanWrite k v
    → (p : Text) × (v' : Vfs) × (write_file now cwd path contents false owner v ≡ (ok p, v'))
      × Holds k contents v'
      × SameBut k v v'
write_over now cwd path contents owner k v e (over n at f) =
    let w = write_file now cwd path contents false owner v in
    let (r, holds, same) =
      write_file-Outcome now cwd path contents false owner k v e (at_file n at f) in
    (n.path, w.1, (λ i. (r i, w.1)), holds, same)
write_over now cwd path contents owner k v e (create n none_at up d) =
    let w = write_file now cwd path contents false owner v in
    let (r, holds, same) =
      write_file-Outcome now cwd path contents false owner k v e (fresh n none_at up d) in
    (k, w.1, (λ i. (r i, w.1)), holds, same)

module _ (now : ℕ) (cwd from to s d : Text) (v : Vfs) (n : VfsNode)
    (es : normalize_path cwd from ≡ ok s) (ed : normalize_path cwd to ≡ ok d)
    (at : node_at s v ≡ some n) (is_a_file : n.kind ≡ file) where
  copy_of_write :
      (p : Text) (v' : Vfs)
      → write_file now root d (content_of n) false (text "system") v ≡ (ok p, v')
      → copy now cwd from to v ≡ (ok tt, v')
  unfolding copy
  copy_of_write p v' w = ground arith

  copied :
      CanWrite d v
      → (v' : Vfs) × (copy now cwd from to v ≡ (ok tt, v'))
        × Holds d (content_of n) v'
        × SameBut d v v'
  copied can =
      let (p, v', wrote, holds, same) =
        write_over now root d (content_of n) (text "system") d v
          (normalize_path_idem cwd root to d ed) can in
      (v', copy_of_write p v' wrote, holds, same)

  -- A copy onto a path that can be written succeeds; the target then reads as the source did, and
  -- nothing else changes.
  pub copy_lem :
      CanWrite d v
      → let (r, v') = copy now cwd from to v in
        (r ≡ ok tt) × (read_file v' cwd to ≡ read_file v cwd from) × SameBut d v v'
  copy_lem can =
      let (v', e, holds, same) = copied can in
      rw (e, read_file-Holds cwd to d (content_of n) v' ed holds, read_source) (refl, refl, same)
    where
      read_source : read_file v cwd from ≡ ok (content_of n)
      read_source = unfold read_file in ground arith

  mv_of_copy :
      (v' : Vfs) → copy now cwd from to v ≡ (ok tt, v') → mv now cwd from to v ≡ remove cwd from v'
  unfolding mv
  mv_of_copy v' c = ground arith

  -- A move to a path that is not the source nor below it: the target holds the text, the source is
  -- gone, and nothing else changes but what lay below the source.
  pub mv_lem :
      CanWrite d v
      → s ≢ root
      → is_within s d ≡ false
      → let (r, v') = mv now cwd from to v in
        (r ≡ ok tt)
        × Holds d (content_of n) v'
        × (node_at s v' ≡ none)
        × ((j : Text) → d ≢ j → is_within s j ≡ false → node_at j v' ≡ node_at j v)
  mv_lem can ne off =
      let (v', copy_done, holds, same) = copied can in
      let apart : d ≢ s = λ e. ground (arith, off, e, text_eq_iff d s) in
      let removed = remove_present cwd from s v' es n ne (same s apart ∙ at) in
      rw (mv_of_copy v' copy_done, removed)
        (
          refl,
          record {
            node = holds.node;
            at = rw (node_at-without s d v', off) holds.at;
            is_a_file = holds.is_a_file;
            holds = holds.holds;
          },
          rw (node_at-without s s v', text_eq_refl s),
          λ j ne_d off_j. rw (node_at-without s j v', off_j) (same j ne_d),
        )

  -- A move of a file onto its own path, however spelled, reports success and deletes the file.
  pub mv_onto_itself :
      d ≡ s → s ≢ root → let (r, v') = mv now cwd from to v in (r ≡ ok tt) × (node_at s v' ≡ none)
  mv_onto_itself onto ne =
      let (v', copy_done, holds, same) = copied (over n (rw onto at) is_a_file) in
      let left : node_at s v' ≡ some holds.node =
        subst (λ x. node_at x v' ≡ some holds.node) onto holds.at in
      let removed = remove_present cwd from s v' es holds.node ne left in
      rw (mv_of_copy v' copy_done, removed) (refl, rw (node_at-without s s v', text_eq_refl s))
