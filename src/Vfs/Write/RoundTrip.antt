-- ===== src/Vfs/Write/RoundTrip.antt =====
-- `read_file` after `write_file`.
use ssh_hunt.Base.{
  ℕ, ◌≡◌, ◌≢◌, refl, Bool, true, false, none, some, [], ◌++◌, Text, Result, ok, arith,
  if◌then◌else◌,
}
use ssh_hunt.Vfs.Node.{VfsNode, VfsError}
use ssh_hunt.Vfs.Path.{normalize_path}
use ssh_hunt.Vfs.Read.{read_file}
use ssh_hunt.Vfs.Tree.{Vfs, node_at}
use ssh_hunt.Vfs.Write.{write_file}
use ssh_hunt.Vfs.Write.Contents.{
  Place, at_file, at_dir, fresh, in_file, orphan, place, SameBut, content_of, Holds, Outcome,
  write_file-Outcome,
}
use ssh_hunt.Vfs.Write.Copies.{read_file-Holds}

-- The text at a key, nothing standing for the empty text.
pub text_at : Text → Vfs → Text
text_at k v = elim (node_at k v) [ none ↦ [] | some n ↦ content_of n ]

text_at-some :
    (k : Text) (v : Vfs) (n : VfsNode) → node_at k v ≡ some n → text_at k v ≡ content_of n
unfolding text_at
text_at-some k v n at = ground arith

text_at-none : (k : Text) (v : Vfs) → node_at k v ≡ none → text_at k v ≡ []
unfolding text_at
text_at-none k v at = ground arith

abbrev after_write : Bool → Text → Text → Text
after_write append old contents = if append then old ++ contents else contents

after_write_none : (append : Bool) (contents : Text) → after_write append [] contents ≡ contents
after_write_none true contents = refl
after_write_none false contents = refl

module _ (now : ℕ) (append : Bool) (contents k : Text) (v : Vfs) where
  holds_after :
      (p : Place k v) (w : Result VfsError Text × Vfs) {q : Text}
      → Outcome now append contents k v p w
      → w.0 ≡ ok q
      → Holds k (after_write append (text_at k v) contents) w.1 × SameBut k v w.1
  holds_after (at_file n at f) (r, v') (e, holds, same) h = (rw (text_at-some k v n at) holds, same)
  holds_after (at_dir n at d) (r, v') (e, _, same) h = absurd (cc)
  holds_after (fresh n absent up d) (r, v') (e, holds, same) h =
      (rw (text_at-none k v absent, after_write_none append contents) holds, same)
  holds_after (in_file n absent up f) (r, v') (e, same) h = absurd (cc)
  holds_after (orphan absent up) (r, v') (e, same) h = absurd (cc)

-- After a write that succeeds the path reads as the text written, behind the old text when
-- appending, and every other path holds the node that it held.
pub read_file-write_file :
    (now : ℕ) (cwd path contents : Text) (append : Bool) (owner k : Text) (v : Vfs) {q : Text}
    → normalize_path cwd path ≡ ok k
    → (write_file now cwd path contents append owner v).0 ≡ ok q
    → let v' = (write_file now cwd path contents append owner v).1 in
      (read_file v' cwd path ≡ ok (if append then text_at k v ++ contents else contents))
      × ((j : Text) → k ≢ j → node_at j v' ≡ node_at j v)
read_file-write_file now cwd path contents append owner k v e h =
    let w = write_file now cwd path contents append owner v in
    let (holds, same) =
      holds_after now append contents k v (place k v) w
        (write_file-Outcome now cwd path contents append owner k v e (place k v)) h in
    (
      read_file-Holds cwd path k (if append then text_at k v ++ contents else contents) w.1 e holds,
      same,
    )
