-- ===== src/Server/Commands.antt =====
-- ssh-hunt/crates/ssh_hunt_server/src/builtins.rs: the commands on files, `echo`, and those that say who
-- and where the player is, as a registry of the shell. `now` is what `Utc::now()` returns.
pub mod Keeping
pub mod Echo
use ssh_hunt.Base.{
  suc, ℕ, ◌-◌, Bool, true, false, not, ◌||◌, ◌&&◌, Option, none, some, List, [], ◌∷◌, ◌++◌, Text,
  text, text_eq, text_key, insert, join, length, drop, take, is_empty, filter_by, Result, ok, err,
  unwrap_or, if◌then◌else◌,
}
use mathlib.Core.Option.{get_or}
use mathlib.Core.List.{head?}
use ssh_hunt.Base.Int.{pos}
use ssh_hunt.Vfs.Node.{VfsError}
use ssh_hunt.Vfs.Path.{root, normalize_path}
use ssh_hunt.Vfs.Tree.{Vfs}
use ssh_hunt.Vfs.Read.{read_file, cd}
use ssh_hunt.Vfs.Write.{touch, mkdir_p, remove, copy, copy_tree, mv, chmod, write_file, Method}
use ssh_hunt.Shell.Line.{CommandResult, result_ok, result_err}
use ssh_hunt.Shell.Engine.{Context, Command, Registry, show_error}
use ssh_hunt.Server.Conditions.{eval_test_expr}
use ssh_hunt.Server.Words.{
  parse_unsigned, is_number, is_flag, positional, has_arg, parse_n_flag, lines, unlines,
  interpreted, numbered,
}

abbrev pub line : Text → CommandResult
line s = result_ok (s ++ b'\n' ∷ [])

-- `CommandResult::err(format!("{name}: {e}\n"), 1)`
abbrev pub failure : Text → VfsError → CommandResult
failure name e = result_err (name ++ (text ": " ++ (show_error e ++ b'\n' ∷ []))) (pos 1)

-- A command that leaves the context alone.
abbrev pub only_tells : (Context → List Text → Text → CommandResult) → Command
only_tells f ctx args stdin = (f ctx args stdin, ctx)

-- A call of a method of the file system; the command fails with it.
abbrev pub act :
    {A : Type 0} → Text → Method A → (A → CommandResult) → Context → CommandResult × Context
act name m told ctx =
    let (r, vfs') = m ctx.vfs in
    (elim r [ ok a ↦ told a | err e ↦ failure name e ], record ctx { vfs = vfs' })

-- A call for each of the paths, until one fails.
unfoldable pub for_each :
    {A : Type 0} → Text → (Text → Method A) → List Text → Context → CommandResult × Context
for_each name m [] ctx = (result_ok [], ctx)
for_each name m (path ∷ paths) ctx =
    let (r, vfs') = m path ctx.vfs in
    let rest = for_each name m paths (record ctx { vfs = vfs' }) in
    elim r [ ok a ↦ rest | err e ↦ (failure name e, record ctx { vfs = vfs' }) ]

abbrev pub pwd : Command
pwd = only_tells (λ ctx args stdin. line ctx.cwd)

unfoldable pub cd_command : Command
unfolding insert
cd_command ctx args stdin = elim (cd ctx.vfs ctx.cwd (get_or (head? args) root)) [
  | ok path ↦ (result_ok [], record ctx { cwd = path; env = insert (text "PWD") path ctx.env })
  | err e ↦ (failure (text "cd") e, ctx)
]

-- The contents of the files one after another, or the first error.
unfoldable pub contents : Context → List Text → Result VfsError Text
contents ctx [] = ok []
contents ctx (path ∷ paths) =
    let rest = contents ctx paths in
    elim (read_file ctx.vfs ctx.cwd path) [
      | err e ↦ err e
      | ok c ↦ elim rest [ err e ↦ err e | ok s ↦ ok (c ++ s) ]
    ]

abbrev show_content : Bool → Result VfsError Text → CommandResult
show_content number_lines (err e) = failure (text "cat") e
show_content number_lines (ok content) =
    if number_lines then line (unlines (numbered 1 (lines content))) else result_ok content

unfoldable pub cat : Command
unfolding contents
cat = only_tells (λ ctx args stdin.
    let files = positional args in
    show_content (has_arg (text "-n") args)
      (if is_empty files then ok stdin else contents ctx files))

abbrev pub less : Command
less = only_tells (λ ctx args stdin. result_ok stdin)

-- The file of `head` and `tail`: the first argument that is no flag and no number.
abbrev pub file_arg : List Text → Option Text
file_arg args = head? (filter_by (λ a. not (is_flag a) && not (is_number a)) args)

abbrev pub source : Context → Option Text → Text → Result VfsError Text
source ctx none stdin = ok stdin
source ctx (some path) stdin = read_file ctx.vfs ctx.cwd path

abbrev show_lines : Text → (List Text → List Text) → Result VfsError Text → CommandResult
show_lines name f (err e) = failure name e
show_lines name f (ok s) = line (unlines (f (lines s)))

unfoldable pub head : Command
unfolding parse_n_flag lines
head = only_tells (λ ctx args stdin.
    show_lines (text "head") (take (parse_n_flag args 10)) (source ctx (file_arg args) stdin))

unfoldable pub tail : Command
unfolding parse_n_flag lines
tail = only_tells (λ ctx args stdin.
    show_lines (text "tail") (λ ls. drop (length ls - parse_n_flag args 10) ls)
      (source ctx (file_arg args) stdin))

abbrev pub missing_operand : Text → CommandResult
missing_operand name = result_err (name ++ text ": missing operand\n") (pos 1)

abbrev pub is_recursive : List Text → Bool
is_recursive args =
    has_arg (text "-r") args || has_arg (text "-R") args || has_arg (text "-rf") args

abbrev pub expected_two : Text → CommandResult
expected_two name = result_err (name ++ text ": expected source and destination\n") (pos 1)

-- A call with just two paths.
abbrev pub with_two :
    Text → (Text → Text → Method (Unit {0})) → List Text → Context → CommandResult × Context
with_two name m [] ctx = (expected_two name, ctx)
with_two name m (from ∷ []) ctx = (expected_two name, ctx)
with_two name m (from ∷ to ∷ []) ctx = act name (m from to) (λ _. result_ok []) ctx
with_two name m (from ∷ to ∷ more ∷ rest) ctx = (expected_two name, ctx)

module _ (now : ℕ) where
  unfoldable pub touch_command : Command
  unfolding for_each
  touch_command ctx args stdin =
      if is_empty args
      then (missing_operand (text "touch"), ctx)
      else for_each (text "touch") (λ path. touch now ctx.cwd path ctx.user) args ctx

  unfoldable pub mkdir : Command
  unfolding for_each
  mkdir ctx args stdin =
      if is_empty args
      then (missing_operand (text "mkdir"), ctx)
      else for_each (text "mkdir") (λ path. mkdir_p now ctx.cwd path ctx.user) args ctx

  unfoldable pub rm : Command
  unfolding for_each
  rm ctx args stdin =
      if is_empty (positional args)
      then (missing_operand (text "rm"), ctx)
      else for_each (text "rm") (λ path. remove ctx.cwd path) (positional args) ctx

  abbrev pub copying : Bool → Text → Text → Text → Method (Unit {0})
  copying true cwd from to = copy_tree now cwd from to
  copying false cwd from to = copy now cwd from to

  unfoldable pub cp : Command
  cp ctx args stdin =
      with_two (text "cp") (copying (is_recursive args) ctx.cwd) (positional args) ctx

  unfoldable pub mv_command : Command
  mv_command ctx args stdin = with_two (text "mv") (mv now ctx.cwd) (positional args) ctx

  abbrev pub write_copy : Text → Bool → Option Text → Context → CommandResult × Context
  write_copy stdin append none ctx = (result_ok stdin, ctx)
  write_copy stdin append (some path) ctx =
      act (text "tee")
        (write_file now root (unwrap_or (normalize_path ctx.cwd path) path) stdin append ctx.user)
        (λ _. result_ok stdin) ctx

  unfoldable pub tee : Command
  tee ctx args stdin = write_copy stdin (has_arg (text "-a") args) (head? (positional args)) ctx

  abbrev pub set_modes : List Text → Context → CommandResult × Context
  set_modes [] ctx = (missing_operand (text "chmod"), ctx)
  set_modes (mode ∷ []) ctx = (missing_operand (text "chmod"), ctx)
  set_modes (mode ∷ path ∷ paths) ctx =
      for_each (text "chmod")
        (λ p. chmod now ctx.cwd p (get_or (parse_unsigned 8 65536 mode) 0o644)) (path ∷ paths) ctx

  unfoldable pub chmod_command : Command
  unfolding for_each
  chmod_command ctx args stdin = set_modes (positional args) ctx

unfoldable pub echo : Command
unfolding interpreted
echo = only_tells (λ ctx args stdin.
    let words = filter_by (λ a. not (text_eq a (text "-n")) && not (text_eq a (text "-e"))) args in
    let raw = join b' ' words in
    let content = if has_arg (text "-e") args then interpreted raw else raw in
    if has_arg (text "-n") args then result_ok content else line content)

abbrev pub uname : Command
uname =
    only_tells
      (λ ctx args stdin. result_ok (text "Linux neon-grid 6.66.0-ssh-hunt #1 SMP PREEMPT\n"))

abbrev pub whoami : Command
whoami = only_tells (λ ctx args stdin. line ctx.user)

abbrev pub true_command : Command
true_command = only_tells (λ ctx args stdin. result_ok [])

abbrev pub false_command : Command
false_command = only_tells (λ ctx args stdin. result_err [] (pos 1))

-- The exit code of a condition.
abbrev pub tested : Option Bool → CommandResult
tested none = result_err [] (pos 1)
tested (some passed) = if passed then result_ok [] else result_err [] (pos 1)

unfoldable pub test : Command
unfolding eval_test_expr
test = only_tells (λ ctx args stdin. tested (eval_test_expr (suc (length args)) ctx args))

unfoldable pub bracket : Command
unfolding eval_test_expr
bracket = only_tells (λ ctx args stdin.
    let inner = filter_by (λ a. not (text_eq a (text "]"))) args in
    tested (eval_test_expr (suc (length inner)) ctx inner))

-- The registered commands. `others` are those of the source that are not modelled.
unfoldable pub default_registry : Registry → ℕ → Registry
default_registry others now =
    (text "pwd", pwd)
    ∷ (text "cd", cd_command)
    ∷ (text "cat", cat)
    ∷ (text "less", less)
    ∷ (text "head", head)
    ∷ (text "tail", tail)
    ∷ (text "touch", touch_command now)
    ∷ (text "mkdir", mkdir now)
    ∷ (text "rm", rm now)
    ∷ (text "cp", cp now)
    ∷ (text "mv", mv_command now)
    ∷ (text "echo", echo)
    ∷ (text "uname", uname)
    ∷ (text "whoami", whoami)
    ∷ (text "tee", tee now)
    ∷ (text "true", true_command)
    ∷ (text "false", false_command)
    ∷ (text "chmod", chmod_command now)
    ∷ (text "test", test)
    ∷ (text "[", bracket)
    ∷ others
