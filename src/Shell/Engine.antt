-- ===== src/Shell/Engine.antt =====
-- ssh-hunt/crates/shell/src/lib.rs: `ShellEngine::execute` and `execute_pipeline`. The registered
-- commands are a parameter: each is a function of the context, its arguments and its input. `now` is
-- what `Utc::now()` returns while the line runs.
pub mod Chains
pub mod Redirects
pub mod Trees
use ssh_hunt.Base.{
  ℕ, Bool, true, false, not, ◌&&◌, ◌||◌, Option, none, some, List, [], ◌∷◌, ◌++◌, Text, text, Dict,
  lookup, insert, text_key, is_empty, any, all, Result, ok, err, unwrap_or, Exec, if◌then◌else◌,
  leb, ◌==◌,
}
use ssh_hunt.Base.Trim.{is_whitespace, trim}
use ssh_hunt.Base.Int.{ℤ, pos, negsuc, ◌==ℤ◌}
use ssh_hunt.Base.Decimal.{show_int}
use ssh_hunt.Vfs.Node.{
  VfsError, not_found, already_exists, not_directory, not_file, permission_denied, remove_root,
  invalid_path,
}
use ssh_hunt.Vfs.Path.{root, normalize_path}
use ssh_hunt.Vfs.Tree.{Vfs}
use ssh_hunt.Vfs.Read.{read_file}
use ssh_hunt.Vfs.Write.{write_file}
use ssh_hunt.Shell.Line.{
  ShellError, SimpleCommand, Pipeline, ChainOp, always, and_then, or_else, ChainSegment, ParsedLine,
  CommandResult, result_ok, result_err,
}
use ssh_hunt.Shell.Tokens.{is_alphabetic, is_alphanumeric}
use ssh_hunt.Shell.Parser.{parse_line}

-- `ExecutionContext`
pub record Context : Type 0 where
  pub vfs : Vfs
  pub cwd : Text
  pub user : Text
  pub node : Text
  pub env : Dict Text Text
  pub last_exit : ℤ

-- `ExecutionContext::new`
unfoldable pub new_context : Vfs → Text → Text → Context
unfolding insert
new_context vfs user node = record {
  vfs = vfs;
  cwd = text "/home";
  user = user;
  node = node;
  env = insert (text "?") (text "0") (
      insert (text "NODE") node (
        insert (text "PATH") (text "/bin:/usr/bin") (
          insert (text "PWD") (text "/home")
            (insert (text "HOME") (text "/home") (insert (text "USER") user [])))));
  last_exit = pos 0;
}

-- `ExecutionContext::prompt`
unfoldable pub prompt : Context → Text
prompt ctx = ctx.user ++ (b'@' ∷ (ctx.node ++ (b':' ∷ (ctx.cwd ++ text "$ "))))

-- `CommandFn`, and `BuiltinRegistry` with its `get`
abbrev pub Command : Type 0
Command = Context → List Text → Text → CommandResult × Context

abbrev pub Registry : Type 0
Registry = Dict Text Command

-- the `Display` of `VfsError`
unfoldable pub show_error : VfsError → Text
show_error (not_found p) = text "path not found: " ++ p
show_error (already_exists p) = text "already exists: " ++ p
show_error (not_directory p) = text "not a directory: " ++ p
show_error (not_file p) = text "not a file: " ++ p
show_error (permission_denied p) = text "permission denied: " ++ p
show_error remove_root = text "cannot remove root"
show_error invalid_path = text "invalid path"

abbrev pub io_failure : VfsError → CommandResult
io_failure e = result_err (show_error e ++ 10 ∷ []) (pos 1)

-- `find('=')`, with the parts before and behind
unfoldable pub split_once : ℕ → Text → Option (Text × Text)
split_once c [] = none
split_once c (x ∷ s) =
    if x == c
    then some ([], s)
    else elim (split_once c s) [ none ↦ none | some (a, b) ↦ some (x ∷ a, b) ]

abbrev pub is_identifier : Text → Bool
is_identifier [] = false
is_identifier (c ∷ s) =
    (is_alphabetic c || c == b'_') && all (λ d. is_alphanumeric d || d == b'_') (c ∷ s)

-- the variable and the value, if the whole line is `VAR=value`
unfoldable pub assignment : Text → Option (Text × Text)
unfolding trim split_once
assignment input =
    let trimmed = trim input in
    if any is_whitespace trimmed then none else elim (split_once b'=' trimmed) [
      | none ↦ none
      | some (lhs, rhs) ↦ if is_identifier lhs then some (lhs, rhs) else none
    ]

-- `last_exit` and `$?`
abbrev pub set_exit : ℤ → Context → Context
set_exit code ctx = record ctx { last_exit = code; env = insert (text "?") (show_int code) ctx.env }

-- whether a segment runs after a command with the exit code
abbrev pub should_run : ChainOp → ℤ → Bool
should_run always code = true
should_run and_then code = code ==ℤ pos 0
should_run or_else code = not (code ==ℤ pos 0)

module _ (registry : Registry) (now : ℕ) where
  -- the command's handler, or the answer when there is none
  unfoldable pub run_program : SimpleCommand → Text → Context → CommandResult × Context
  unfolding lookup
  run_program c input ctx = elim (lookup c.program registry) [
    | some handler ↦ handler ctx c.args input
    | none ↦ (result_err (c.program ++ text ": command not found" ++ 10 ∷ []) (pos 127), ctx)
  ]

  -- `effective_input`
  abbrev pub input_of : Option Text → Text → Context → Result VfsError Text
  input_of none buffer ctx = ok buffer
  input_of (some path) buffer ctx = read_file ctx.vfs ctx.cwd path

  -- the output of a command to its file, if it has one
  unfoldable pub send_output :
      Option (Text × Bool) → CommandResult → Context → Result VfsError CommandResult × Context
  send_output none out ctx = (ok out, ctx)
  send_output (some (path, append)) out ctx =
      let normalized = unwrap_or (normalize_path ctx.cwd path) path in
      let (r, vfs') = write_file now root normalized out.stdout append ctx.user ctx.vfs in
      (elim r [ ok p ↦ ok (record out { stdout = [] }) | err e ↦ err e ], record ctx { vfs = vfs' })

  -- one round of the loop of `execute_pipeline`; an error is the early return
  unfoldable pub run_command :
      SimpleCommand → Text → Context → Result VfsError CommandResult × Context
  unfolding run_program send_output
  run_command c buffer ctx = elim (input_of c.stdin buffer ctx) [
    | err e ↦ (err e, ctx)
    | ok input ↦ let (out, ctx') = run_program c input ctx in send_output c.stdout out ctx'
  ]

  -- the loop, with `last`, whose output is the next command's input
  unfoldable pub run_commands :
      List SimpleCommand → CommandResult → Context → CommandResult × Context
  run_commands [] last ctx = (last, ctx)
  run_commands (c ∷ cs) last ctx =
      let (r, ctx') = run_command c last.stdout ctx in
      elim r [ err e ↦ (io_failure e, ctx') | ok out ↦ run_commands cs out ctx' ]

  unfoldable pub execute_pipeline : Pipeline → Context → CommandResult × Context
  unfolding run_commands run_command
  execute_pipeline p ctx = run_commands p.commands (result_ok []) ctx

  -- the loop of `execute` over the segments, with the last result
  unfoldable pub run_segments :
      List ChainSegment → CommandResult → Context → CommandResult × Context
  run_segments [] result ctx = (result, ctx)
  run_segments (s ∷ ss) result ctx = elim (should_run s.op result.exit_code) [
    | false ↦ run_segments ss result ctx
    | true ↦
        let (result', ctx') = execute_pipeline s.pipeline ctx in
        run_segments ss result' (set_exit result'.exit_code ctx')
  ]

  unfoldable pub execute : Text → Exec Context ShellError CommandResult
  execute input ctx = elim (assignment input) [
    | some (name, value) ↦
        (ok (result_ok []), set_exit (pos 0) (record ctx { env = insert name value ctx.env }))
    | none ↦ elim (parse_line ctx.env input) [
      | err e ↦ (err e, ctx)
      | ok line ↦ let (r, ctx') = run_segments line.segments (result_ok []) ctx in (ok r, ctx')
    ]
  ]
