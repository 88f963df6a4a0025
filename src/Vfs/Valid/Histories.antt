-- ===== src/Vfs/Valid/Histories.antt =====
-- What a session does to its file system: any sequence of the methods, each with its own reading of
-- the clock. `copy_tree` on a directory is left out: it writes nodes whose parents may be missing.
use ssh_hunt.Base.{ℕ, Bool, List, [], ◌∷◌, Text}
use ssh_hunt.Vfs.Tree.{Vfs, default}
use ssh_hunt.Vfs.Write.{ensure_dir, mkdir_p, touch, write_file, remove, copy, mv, chmod}
use ssh_hunt.Vfs.Valid.{IsTree, default-IsTree}
use ssh_hunt.Vfs.Valid.Writes.{touch-Keeps, write_file-Keeps, chmod-Keeps, copy-Keeps}
use ssh_hunt.Vfs.Valid.Removals.{remove-Keeps, mv-Keeps}
use ssh_hunt.Vfs.Valid.Directories.{ensure_dir-Keeps, mkdir_p-Keeps}

pub data Request : Type 0 where
  ensuring : (path owner : Text) → Request
  making : (cwd path owner : Text) → Request
  touching : (cwd path owner : Text) → Request
  writing : (cwd path contents : Text) (append : Bool) (owner : Text) → Request
  removing : (cwd path : Text) → Request
  copying : (cwd from to : Text) → Request
  moving : (cwd from to : Text) → Request
  setting_mode : (cwd path : Text) (mode : ℕ) → Request

-- The file system after a request, whether it succeeded or not.
unfoldable pub serve : ℕ → Request → Vfs → Vfs
serve now (ensuring path owner) v = (ensure_dir now path owner v).1
serve now (making cwd path owner) v = (mkdir_p now cwd path owner v).1
serve now (touching cwd path owner) v = (touch now cwd path owner v).1
serve now (writing cwd path contents append owner) v =
    (write_file now cwd path contents append owner v).1
serve now (removing cwd path) v = (remove cwd path v).1
serve now (copying cwd from to) v = (copy now cwd from to v).1
serve now (moving cwd from to) v = (mv now cwd from to v).1
serve now (setting_mode cwd path mode) v = (chmod now cwd path mode v).1

unfoldable pub serve_all : List (ℕ × Request) → Vfs → Vfs
serve_all [] v = v
serve_all ((now, r) ∷ rs) v = serve_all rs (serve now r v)

serve-IsTree : (now : ℕ) (r : Request) (v : Vfs) → IsTree v → IsTree (serve now r v)
unfolding serve
serve-IsTree now (ensuring path owner) v t = (ensure_dir-Keeps now path owner).kept v t
serve-IsTree now (making cwd path owner) v t = (mkdir_p-Keeps now cwd path owner).kept v t
serve-IsTree now (touching cwd path owner) v t = (touch-Keeps now cwd path owner).kept v t
serve-IsTree now (writing cwd path contents append owner) v t =
    (write_file-Keeps now cwd path contents append owner).kept v t
serve-IsTree now (removing cwd path) v t = (remove-Keeps cwd path).kept v t
serve-IsTree now (copying cwd from to) v t = (copy-Keeps now cwd from to).kept v t
serve-IsTree now (moving cwd from to) v t = (mv-Keeps now cwd from to).kept v t
serve-IsTree now (setting_mode cwd path mode) v t = (chmod-Keeps now cwd path mode).kept v t

serve_all-IsTree : (rs : List (ℕ × Request)) (v : Vfs) → IsTree v → IsTree (serve_all rs v)
unfolding serve_all
serve_all-IsTree [] v t = t
serve_all-IsTree ((now, r) ∷ rs) v t = serve_all-IsTree rs (serve now r v) (serve-IsTree now r v t)

-- After any requests to a new file system, failed ones included, the nodes form a tree: the root is
-- a directory, every key is a normal path and the path of its node, and every node but the root
-- stands below a directory.
pub history-IsTree : (start : ℕ) (rs : List (ℕ × Request)) → IsTree (serve_all rs (default start))
history-IsTree start rs = serve_all-IsTree rs (default start) (default-IsTree start)
