-- ===== src/Shell/Engine/Redirects.antt =====
-- A redirected command and its file.
use ssh_hunt.Base.{ℕ, ◌≡◌, refl, false, none, some, List, [], ◌∷◌, Text, text_key, ok, arith}
use ssh_hunt.Vfs.Path.{root, normalize_path}
use ssh_hunt.Vfs.Path.Normal.{normalize_path_idem}
use ssh_hunt.Vfs.Tree.{Vfs}
use ssh_hunt.Vfs.Read.{read_file}
use ssh_hunt.Vfs.Write.{write_file}
use ssh_hunt.Vfs.Write.Contents.{SameBut}
use ssh_hunt.Vfs.Write.Copies.{CanWrite, write_over, read_file-Holds}
use ssh_hunt.Shell.Line.{SimpleCommand, CommandResult}
use ssh_hunt.Shell.Engine.{Context, Registry, run_program, execute_pipeline}

module _ (registry : Registry) (now : ℕ) (program : Text) (args : List Text) (path k : Text)
    (ctx : Context) where
  abbrev pub redirected : SimpleCommand
  redirected = record { program = program; args = args; stdin = none; stdout = some (path, false) }

  -- What the command itself returns.
  abbrev pub ran : CommandResult × Context
  ran = run_program registry now redirected [] ctx

  sent :
      (p : Text) (v' : Vfs)
      → normalize_path ran.1.cwd path ≡ ok k
      → write_file now root k ran.0.stdout false ran.1.user ran.1.vfs ≡ (ok p, v')
      → execute_pipeline registry now (record { commands = redirected ∷ [] }) ctx
        ≡ (record (ran.0) { stdout = [] }, record (ran.1) { vfs = v' })
  unfolding execute_pipeline
  sent p v' e w = ground arith

  -- `program args > path`, where the path can be written after the command has run: the exit code and
  -- the errors are the command's, nothing is printed, the file reads as what the command printed,
  -- and no other path changes.
  pub redirect_to_file :
      normalize_path ran.1.cwd path ≡ ok k
      → CanWrite k ran.1.vfs
      → let (r, ctx') = execute_pipeline registry now (record { commands = redirected ∷ [] }) ctx in
        (r ≡ record (ran.0) { stdout = [] })
        × (read_file ctx'.vfs ran.1.cwd path ≡ ok ran.0.stdout)
        × SameBut k ran.1.vfs ctx'.vfs
  redirect_to_file e can =
      let (p, v', wrote, holds, same) =
        write_over now root k ran.0.stdout ran.1.user k ran.1.vfs
          (normalize_path_idem ran.1.cwd root path k e) can in
      rw (sent p v' e wrote) (refl, read_file-Holds ran.1.cwd path k ran.0.stdout v' e holds, same)

  -- The directory is the one that the command leaves.
  pub redirect_cwd :
      normalize_path ran.1.cwd path ≡ ok k
      → CanWrite k ran.1.vfs
      → (execute_pipeline registry now (record { commands = redirected ∷ [] }) ctx).1.cwd
        ≡ ran.1.cwd
  redirect_cwd e can =
      let (p, v', wrote, holds, same) =
        write_over now root k ran.0.stdout ran.1.user k ran.1.vfs
          (normalize_path_idem ran.1.cwd root path k e) can in
      rw (sent p v' e wrote) refl
