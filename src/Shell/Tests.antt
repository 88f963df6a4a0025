-- ===== src/Shell/Tests.antt =====
-- Runs of the shell on the inputs of the source's own tests, and the theorems at an input.
use ssh_hunt.Base.{
  ◌≡◌, refl, true, false, none, some, List, [], ◌∷◌, ◌++◌, Text, text, text_eq, text_lt, lookup,
  insert, insert_ordered, text_key, Dict, All, split, join, ok, err, arith,
}
use ssh_hunt.Base.Int.{pos}
use ssh_hunt.Base.Decimal.{show_int}
use ssh_hunt.Vfs.Path.{root, normalize_path, parent_path}
use ssh_hunt.Vfs.Node.{VfsNode, dir}
use ssh_hunt.Vfs.Tree.{node_at, default}
use ssh_hunt.Vfs.Read.{read_file}
use ssh_hunt.Vfs.Write.{mkdir_p, ensure_dir, write_file}
use ssh_hunt.Vfs.Write.Contents.{SameBut}
use ssh_hunt.Vfs.Write.Copies.{CanWrite, create}
use ssh_hunt.Shell.Line.{
  SimpleCommand, ChainSegment, CommandResult, result_ok, result_err, ChainOp, always, and_then,
  or_else, parse_error,
}
use ssh_hunt.Shell.Tokens.{tokenize}
use ssh_hunt.Shell.Tokens.Quoting.{quote_all, IsQuotable, tokenize-quote_all}
use ssh_hunt.Shell.Parser.{parse_all, parse_line, kind_of}
use ssh_hunt.Shell.Parser.RoundTrip.{print_segments, IsSegment, parse_all-print_segments}
use ssh_hunt.Shell.Engine.{
  Context, Registry, new_context, assignment, run_segments, execute_pipeline, execute, set_exit,
  run_program,
}
use ssh_hunt.Shell.Engine.Chains.{IsSynced, failure_reaches_or_else, execute-IsSynced}
use ssh_hunt.Shell.Engine.Redirects.{redirect_to_file}

env : Dict Text Text
env = (text "USER", text "neo") ∷ (text "HOME", text "/home/neo") ∷ (text "?", text "0") ∷ []

quotes_escapes_and_env :
    tokenize env (text "echo \"hello $USER\" 'raw $HOME' escaped\\ value")
    ≡ ok (text "echo" ∷ text "hello neo" ∷ text "raw $HOME" ∷ text "escaped value" ∷ [])
unfolding tokenize env text_eq
quotes_escapes_and_env = refl

abbrev command : Text → List Text → SimpleCommand
command program args = record { program = program; args = args; stdin = none; stdout = none }

abbrev segment : ChainOp → List SimpleCommand → ChainSegment
segment op cs = record { op = op; pipeline = record { commands = cs } }

and_or :
    parse_line env (text "false && echo a||echo b>f")
    ≡ ok (record {
      segments =
          segment always (command (text "false") [] ∷ [])
          ∷ segment and_then (command (text "echo") (text "a" ∷ []) ∷ [])
          ∷ segment or_else (
              record (command (text "echo") (text "b" ∷ [])) { stdout = some (text "f", false) }
              ∷ [])
          ∷ [];
    })
unfolding parse_line tokenize env text_eq
and_or = refl

-- A quoted bar still makes a pipeline of two commands.
quoted_bar :
    parse_line env (text "echo '|' wc")
    ≡ ok (record {
      segments = segment always (command (text "echo") [] ∷ command (text "wc") [] ∷ []) ∷ [];
    })
unfolding parse_line tokenize env text_eq
quoted_bar = refl

unterminated : tokenize env (text "echo 'a") ≡ err (parse_error (text "unterminated quote"))
unfolding tokenize env text_eq
unterminated = refl

-- `echo` prints its first argument, `false` fails.
abbrev echo : Context → List Text → Text → CommandResult × Context
echo ctx args input = (result_ok (join b' ' args), ctx)

abbrev failing : Context → List Text → Text → CommandResult × Context
failing ctx args input = (result_err [] (pos 1), ctx)

abbrev registry : Registry
registry = (text "echo", echo) ∷ (text "false", failing) ∷ []

here : Context
unfolding new_context mkdir_p ensure_dir default normalize_path parent_path lookup insert_ordered
    text_eq text_lt split join execute run_segments execute_pipeline parse_line tokenize show_int
    insert write_file read_file run_program assignment
here =
    new_context (mkdir_p 1 root (text "home") (text "neo") (default 0)).1 (text "neo") (text "node")

or_else_runs :
    let (r, ctx) = execute registry 2 (text "false && echo a || echo b > f; cat") here in
    (r ≡ ok (result_err (text "cat: command not found" ++ 10 ∷ []) (pos 127)))
    × (read_file ctx.vfs root (text "/home/f") ≡ ok (text "b"))
    × (lookup (text "?") ctx.env ≡ some (text "127"))
unfolding here
or_else_runs = (refl, refl, refl)

here-IsSynced : IsSynced here
unfolding here
here-IsSynced = refl

-- The witnesses.
abbrev words : List Text
words = text "a b" ∷ text "$HOME" ∷ text "|" ∷ []

words-IsQuotable : All IsQuotable words
words-IsQuotable = (
  record { some_char = refl; no_quote = omega arith },
  (
    record { some_char = refl; no_quote = omega arith },
    (record { some_char = refl; no_quote = omega arith }, tt),
  ),
)

tokenize-quote_all_example : tokenize env (quote_all words) ≡ ok words
tokenize-quote_all_example = tokenize-quote_all env words words-IsQuotable

abbrev first : ChainSegment
first = segment always (command (text "false") [] ∷ command (text "wc") (text "-l" ∷ []) ∷ [])

abbrev second : ChainSegment
second = segment or_else (record (command (text "echo") []) { stdout = some (text "|", true) } ∷ [])

shapes : All IsSegment (first ∷ second ∷ [])
unfolding kind_of text_eq
shapes = (
  record {
    some_command = refl;
    commands = (
      record { program_word = refl; args_words = tt },
      (record { program_word = refl; args_words = (refl, tt) }, tt),
    );
  },
  (
    record {
      some_command = refl;
      commands = (record { program_word = refl; args_words = tt }, tt);
    },
    tt,
  ),
)

parse_all-print_segments_example :
    parse_all (print_segments (first ∷ second ∷ []))
    ≡ ok (record { segments = first ∷ second ∷ [] })
parse_all-print_segments_example = parse_all-print_segments first (second ∷ []) shapes refl

abbrev skipped : List ChainSegment
skipped = segment and_then (command (text "echo") [] ∷ []) ∷ []

failure_reaches_or_else_example :
    run_segments registry 1 (skipped ++ second ∷ []) (result_err [] (pos 1)) here ≡ (
      let (r, ctx) = execute_pipeline registry 1 second.pipeline here in
      run_segments registry 1 [] r (set_exit r.exit_code ctx))
failure_reaches_or_else_example =
    failure_reaches_or_else registry 1 skipped second [] (result_err [] (pos 1)) here (refl, tt)
      refl refl

execute-IsSynced_example : IsSynced (execute registry 1 (text "A=b") here).1
execute-IsSynced_example = execute-IsSynced registry 1 (text "A=b") here here-IsSynced

abbrev to_file : SimpleCommand
to_file = record (command (text "echo") (text "b" ∷ [])) { stdout = some (text "f", false) }

abbrev file_path : Text
file_path = text "/home/f"

file_normal : normalize_path here.cwd (text "f") ≡ ok file_path
unfolding here
file_normal = refl

file_free :
    (node_at file_path here.vfs ≡ none)
    × ((n : VfsNode) × (node_at (parent_path file_path) here.vfs ≡ some n) × (n.kind ≡ dir))
unfolding here
file_free = (refl, (_, refl, refl))

CanWrite-file : CanWrite file_path here.vfs
CanWrite-file = create file_free.1.0 file_free.0 file_free.1.1 file_free.1.2

ran_here : run_program registry 1 to_file [] here ≡ (result_ok (text "b"), here)
unfolding run_program lookup text_eq join
ran_here = refl

redirect_to_file_example :
    let ran = run_program registry 1 to_file [] here in
    let (r, ctx) = execute_pipeline registry 1 (record { commands = to_file ∷ [] }) here in
    (r ≡ record (ran.0) { stdout = [] })
    × (read_file ctx.vfs ran.1.cwd (text "f") ≡ ok ran.0.stdout)
    × SameBut file_path ran.1.vfs ctx.vfs
redirect_to_file_example =
    redirect_to_file registry 1 (text "echo") (text "b" ∷ []) (text "f") file_path here
      (rw ran_here file_normal) (rw ran_here CanWrite-file)
