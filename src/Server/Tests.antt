-- ===== src/Server/Tests.antt =====
-- Commands at concrete inputs, and the theorems at an input.
use ssh_hunt.Base.{
  ℕ, ◌≡◌, refl, arith, false, ok, any, lookup, some, none, List, [], ◌∷◌, Text, text, text_eq,
  starts_with, split,
}
use ssh_hunt.Vfs.Path.{root, parent_path, normalize_path}
use ssh_hunt.Vfs.Node.{VfsNode, dir}
use ssh_hunt.Vfs.Tree.{default, node_at}
use ssh_hunt.Vfs.Valid.{IsTree, default-IsTree}
use ssh_hunt.Vfs.Write.Copies.{CanWrite, create}
use ssh_hunt.Shell.Line.{result_ok}
use ssh_hunt.Shell.Tokens.{tokenize}
use ssh_hunt.Shell.Parser.{parse_line}
use ssh_hunt.Shell.Engine.{Context, Registry, new_context, execute_pipeline}
use ssh_hunt.Shell.Engine.Redirects.{redirected}
use ssh_hunt.Server.Words.{parse_n_flag, parse_unsigned, digits, is_flag, lines, interpreted}
use ssh_hunt.Server.Conditions.Fuel.{SameValue, eval_test_expr_total}
use ssh_hunt.Server.Commands.{cat, only_tells, default_registry}
use ssh_hunt.Server.Commands.Keeping.{IsPlain, run_lines, run_lines-IsTree}
use ssh_hunt.Server.Commands.Echo.{is_option, written, cat-echo}

counts :
    (parse_n_flag (text "-n" ∷ text "3" ∷ []) 10 ≡ 3)
    × (parse_n_flag (text "-n5" ∷ []) 10 ≡ 5)
    × (parse_n_flag (text "-n" ∷ text "x" ∷ text "+4" ∷ []) 10 ≡ 4)
    × (parse_n_flag (text "file" ∷ []) 10 ≡ 10)
unfolding parse_n_flag parse_unsigned digits text_eq starts_with
counts = (refl, refl, refl, refl)

pieces :
    (lines (text "a\r\nb\n") ≡ text "a" ∷ text "b" ∷ [])
    × (lines (text "a\n\nb\r") ≡ text "a" ∷ [] ∷ text "b\r" ∷ [])
    × (lines [] ≡ [])
unfolding lines split
pieces = (refl, refl, refl)

escapes : interpreted (text "a\\nb\\\\n") ≡ text "a\nb\\n"
unfolding interpreted
escapes = refl

here : Context
unfolding default new_context
here = record (new_context (default 0) (text "neo") (text "grid")) { cwd = root }

here-IsTree : IsTree here.vfs
unfolding here
here-IsTree = default-IsTree 0

abbrev script : List (ℕ × Text)
script = (1, text "mkdir a && cp a/b c; rm -r /home | tee d > e") ∷ []

-- A command that is not modelled here, as a function.
abbrev others : Registry
others = (text "rev", only_tells (λ ctx args stdin. result_ok stdin)) ∷ []

script-IsPlain : IsPlain others script here
unfolding here default new_context parse_line tokenize text_eq
script-IsPlain = (((refl, tt), ((refl, tt), ((refl, (refl, tt)), tt))), tt)

run_lines-IsTree_example : IsTree (run_lines others script here).vfs
run_lines-IsTree_example =
    run_lines-IsTree others script here (λ ctx args stdin t. t, tt) script-IsPlain here-IsTree

file_normal : normalize_path here.cwd (text "f") ≡ ok (text "/f")
unfolding here normalize_path
file_normal = refl

file_free :
    (node_at (text "/f") here.vfs ≡ none)
    × ((n : VfsNode) × (node_at (parent_path (text "/f")) here.vfs ≡ some n) × (n.kind ≡ dir))
unfolding here default lookup text_eq parent_path
file_free = (refl, (_, refl, refl))

CanWrite-file : CanWrite (text "/f") here.vfs
CanWrite-file = create file_free.1.0 file_free.0 file_free.1.1 file_free.1.2

abbrev words : List Text
words = text "wake" ∷ text "up" ∷ []

plain_words : (any is_option words ≡ false) × (is_flag (text "f") ≡ false)
unfolding text_eq starts_with
plain_words = (refl, refl)

cat-echo_example :
    let (r, ctx) =
      execute_pipeline
        (default_registry others 1)
        1
        (record {
          commands =
              redirected
                (default_registry others 1)
                1
                (text "echo")
                words
                (text "f")
                (text "/f")
                here
              ∷ [];
        })
        here in
    (r ≡ result_ok [])
    × ((cat ctx (text "f" ∷ []) []).0
        ≡ result_ok
            (written others 1 words (text "f") (text "/f") here plain_words.0 plain_words.1))
cat-echo_example =
    cat-echo others 1 words (text "f") (text "/f") here plain_words.0 plain_words.1 file_normal
      CanWrite-file

abbrev condition : List Text
condition = text "!" ∷ text "-z" ∷ text "x" ∷ text "-a" ∷ text "07" ∷ text "-lt" ∷ text "8" ∷ []

eval_test_expr_total_example : SameValue 8 20 here condition
eval_test_expr_total_example = eval_test_expr_total here condition 8 20 (omega arith) (omega arith)
