-- ===== src/Vfs/Tests.antt =====
-- Runs of the file system on the inputs of the source's own tests, and the theorems at an input.
use ssh_hunt.Base.{
  ℕ, ◌≡◌, ◌≢◌, refl, true, false, none, some, List, [], ◌∷◌, ◌++◌, Text, text, text_eq, split, join,
  lookup, insert_ordered, retain, starts_with, text_lt, text_eq_iff, ok, err, arith, if◌then◌else◌,
}
use ssh_hunt.Vfs.Node.{VfsNode, dir, file, not_found}
use ssh_hunt.Vfs.Path.{root, render, normalize_path, parent_path}
use ssh_hunt.Vfs.Path.Normal.{Names}
use ssh_hunt.Vfs.Path.Relative.{surviving, normalize_path-relative}
use mathlib.Core.List.{reverse}
use ssh_hunt.Vfs.Tree.{Vfs, node_at, default}
use ssh_hunt.Vfs.Write.{
  mkdir_p, write_file, copy, mv, remove, copy_tree, ensure_dir, chmod, is_within,
}
use ssh_hunt.Vfs.Write.Contents.{Outcome, write_file-Outcome, Holds, place}
use ssh_hunt.Vfs.Write.Removal.{remove_lem}
use ssh_hunt.Vfs.Write.Copies.{CanWrite, create, mv_lem, mv_onto_itself}
use ssh_hunt.Vfs.Write.RoundTrip.{text_at, read_file-write_file}
use ssh_hunt.Vfs.Read.{read_file, stat, ls, ls_nodes, cd}
use ssh_hunt.Vfs.Valid.{IsTree, default-IsTree}
use ssh_hunt.Vfs.Valid.Making.{Clear, mkdir_p_lem}
use ssh_hunt.Vfs.Valid.Histories.{
  serve, serve_all, writing, making, removing, history-IsTree, Request,
}

normalize_paths :
    (normalize_path (text "/") (text "a/b") ≡ ok (text "/a/b"))
    × (normalize_path (text "/a") (text "../b") ≡ ok (text "/b"))
    × (normalize_path (text "/a/b") (text "./c") ≡ ok (text "/a/b/c"))
unfolding normalize_path
normalize_paths = (refl, refl, refl)

parents : (parent_path (text "/a/b") ≡ text "/a") × (parent_path (text "/a") ≡ text "/")
unfolding parent_path
parents = (refl, refl)

abbrev home : Text
home = text "/home"

abbrev log : Text
log = text "/home/log.txt"

-- A file system with a directory and a file in it. Its line names what a run computes through.
sample : Vfs
unfolding serve_all serve mkdir_p write_file ensure_dir copy mv copy_tree remove chmod default
    normalize_path parent_path lookup insert_ordered retain starts_with text_eq text_lt read_file
    split stat ls ls_nodes cd
sample =
    serve_all
      ((1, making root (text "home") (text "neo"))
        ∷ (2, writing root log (text "hello") false (text "neo"))
        ∷ [])
      (default 0)

create_and_read_file : read_file sample root log ≡ ok (text "hello")
unfolding sample
create_and_read_file = refl

copied : Vfs
unfolding sample
copied = (copy 3 root log (text "/home/b") sample).1

copy_and_move_file :
    (read_file copied root (text "/home/b") ≡ ok (text "hello"))
    × (read_file (mv 4 root (text "home/b") (text "/home/c") copied).1 root (text "/home/b")
        ≡ err (not_found (text "/home/b")))
unfolding copied
copy_and_move_file = (refl, refl)

copy_tree_recursively :
    let v = (copy_tree 5 root home (text "/dst") sample).1 in
    (read_file v root (text "/dst/log.txt") ≡ ok (text "hello"))
    × (read_file v root log ≡ ok (text "hello"))
unfolding sample
copy_tree_recursively = (refl, refl)

listing :
    (ls sample root none ≡ ok (text "home" ∷ []))
    × (ls sample root (some home) ≡ ok (text "log.txt" ∷ []))
    × (cd sample home (text "..") ≡ ok root)
unfolding sample
listing = (refl, refl, refl)

home-Names : Names (text "home" ∷ text "log.txt" ∷ [])
unfolding text_eq
home-Names = (
  record { not_empty = refl; not_here = refl; not_up = refl; no_slash = omega arith },
  (record { not_empty = refl; not_here = refl; not_up = refl; no_slash = omega arith }, tt),
)

log_normal : normalize_path root log ≡ ok log
unfolding sample
log_normal = refl

-- The witnesses.
normalize_path-relative_example :
    normalize_path (render (text "home" ∷ text "log.txt" ∷ [])) (text "../x/./y")
    ≡ ok (
        render (
          reverse (
            surviving 0
              (reverse ((text "home" ∷ text "log.txt" ∷ []) ++ split b'/' (text "../x/./y"))))))
normalize_path-relative_example =
    normalize_path-relative (text "home" ∷ text "log.txt" ∷ []) (text "../x/./y") home-Names refl
      (unfold starts_with in refl)

abbrev some_requests : List (ℕ × Request)
some_requests = (1, making root (text "a/b") (text "neo")) ∷ (2, removing root (text "a")) ∷ []

history-IsTree_example : IsTree (serve_all some_requests (default 0))
history-IsTree_example = history-IsTree 0 some_requests

log_written : (write_file 3 root log (text "!") true (text "neo") sample).0 ≡ ok log
unfolding sample
log_written = refl

read_file-write_file_example :
    let v = (write_file 3 root log (text "!") true (text "neo") sample).1 in
    (read_file v root log ≡ ok (text_at log sample ++ text "!"))
    × ((j : Text) → log ≢ j → node_at j v ≡ node_at j sample)
read_file-write_file_example =
    read_file-write_file 3 root log (text "!") true (text "neo") log sample log_normal log_written

write_file-Outcome_example :
    Outcome 3 true
      (text "!")
      log
      sample
      (place log sample)
      (write_file 3 root log (text "!") true (text "neo") sample)
write_file-Outcome_example =
    write_file-Outcome 3 root log (text "!") true (text "neo") log sample log_normal
      (place log sample)

abbrev log_node : VfsNode
log_node = record {
  path = log;
  kind = file;
  meta = record {
    owner = text "neo";
    group = text "neo";
    perms = record { mode = 0o644 };
    created_at = 2;
    updated_at = 2;
  };
  content = some (text "hello");
}

log_there : node_at log sample ≡ some log_node
unfolding sample
log_there = refl

log_ne_root : log ≢ root
unfolding text_eq
log_ne_root e = cc ((text_eq_iff log root).1 e)

remove_lem_example :
    let (r, v) = remove root log sample in
    (r ≡ ok tt) × ((j : Text) → node_at j v ≡ (if is_within log j then none else node_at j sample))
remove_lem_example = remove_lem root log log sample log_normal log_node log_ne_root log_there

abbrev moved : Text
moved = text "/home/b"

moved_normal : normalize_path root moved ≡ ok moved
unfolding sample
moved_normal = refl

moved_free :
    (node_at moved sample ≡ none)
    × ((n : VfsNode) × (node_at (parent_path moved) sample ≡ some n) × (n.kind ≡ dir))
unfolding sample
moved_free = (refl, (_, refl, refl))

CanWrite-moved : CanWrite moved sample
CanWrite-moved = create moved_free.1.0 moved_free.0 moved_free.1.1 moved_free.1.2

mv_lem_example :
    let (r, v) = mv 3 root log moved sample in
    (r ≡ ok tt)
    × Holds moved (text "hello") v
    × (node_at log v ≡ none)
    × ((j : Text) → moved ≢ j → is_within log j ≡ false → node_at j v ≡ node_at j sample)
mv_lem_example =
    mv_lem 3 root log moved log moved sample log_node log_normal moved_normal log_there refl
      CanWrite-moved log_ne_root (unfold text_eq starts_with in refl)

mv_onto_itself_example :
    let (r, v) = mv 3 root log (text "home/./log.txt") sample in
    (r ≡ ok tt) × (node_at log v ≡ none)
mv_onto_itself_example =
    mv_onto_itself 3 root log (text "home/./log.txt") log log sample log_node log_normal
      (unfold sample in refl) log_there refl refl log_ne_root

ab-Names : Names (text "a" ∷ text "b" ∷ [])
unfolding text_eq
ab-Names = (
  record { not_empty = refl; not_here = refl; not_up = refl; no_slash = omega arith },
  (record { not_empty = refl; not_here = refl; not_up = refl; no_slash = omega arith }, tt),
)

ab-Clear : Clear [] (text "a" ∷ text "b" ∷ []) (default 0)
unfolding sample render join
ab-Clear = ((λ n at. absurd (cc)), ((λ n at. absurd (cc)), tt))

mkdir_p_lem_example :
    let (r, v) = mkdir_p 1 root (text "a//b") (text "neo") (default 0) in
    (r ≡ ok (render (text "a" ∷ text "b" ∷ [])))
    × (cd v root (text "a//b") ≡ ok (render (text "a" ∷ text "b" ∷ [])))
    × IsTree v
mkdir_p_lem_example =
    mkdir_p_lem 1 root (text "a//b") (text "neo") (text "a" ∷ text "b" ∷ []) (default 0) ab-Names
      (unfold sample in refl) (default-IsTree 0) ab-Clear
