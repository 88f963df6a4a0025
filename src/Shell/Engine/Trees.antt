-- ===== src/Shell/Engine/Trees.antt =====
-- Lines over commands that keep the tree of the file system.
use ssh_hunt.Base.{
  ℕ, ◌≡◌, subst, true, Bool, ok, err, Result, text_eq_iff, Option, none, some, List, [], ◌∷◌, Text,
  text_key, inl, inr, lookup, All, arith, Result-cases, Option-cases, Bool-cases, unwrap_or, ◌===◌,
}
use mathlib.Core.Option.{some-injective}
use ssh_hunt.Vfs.Path.{root, normalize_path}
use ssh_hunt.Vfs.Valid.{IsTree}
use ssh_hunt.Vfs.Valid.Writes.{write_file-Keeps}
use ssh_hunt.Shell.Line.{
  ShellError, ParsedLine, SimpleCommand, ChainSegment, CommandResult, result_ok,
}
use ssh_hunt.Shell.Parser.{parse_line}
use ssh_hunt.Shell.Engine.{
  Context, Command, Registry, run_program, send_output, run_command, run_commands, execute_pipeline,
  run_segments, execute, input_of, set_exit, should_run, assignment,
}

-- The tree is kept, whatever the arguments and the input.
abbrev pub Keeping : Command → Type 0
Keeping c =
    (ctx : Context) (args : List Text) (stdin : Text)
    → IsTree ctx.vfs
    → IsTree (c ctx args stdin).1.vfs

-- A command under a name keeps the tree at the arguments that are allowed.
abbrev pub KeepsAllowed : (Text → List Text → Bool) → Text × Command → Type 0
KeepsAllowed allowed e =
    (ctx : Context) (args : List Text) (stdin : Text)
    → allowed e.0 args ≡ true
    → IsTree ctx.vfs
    → IsTree (e.1 ctx args stdin).1.vfs

-- The calls of a line, if it can be parsed, are allowed.
abbrev pub IsAllowed : (Text → List Text → Bool) → Result ShellError ParsedLine → Type 0
IsAllowed allowed (err e) = Unit
IsAllowed allowed (ok line) =
    All
      (λ (s : ChainSegment).
        All (λ (c : SimpleCommand). allowed c.program c.args ≡ true) s.pipeline.commands)
      line.segments

registered :
    (allowed : Text → List Text → Bool) (registry : Registry) (name : Text) (c : Command)
    → All (KeepsAllowed allowed) registry
    → lookup name registry ≡ some c
    → KeepsAllowed allowed (name, c)
unfolding lookup
registered allowed [] name c sound e = absurd (cc)
registered allowed ((key, d) ∷ registry) name c sound e = elim (Bool-cases (key === name)) [
  | inl same ↦
      let here : some d ≡ some c = ground arith in
      let named : key ≡ name = (text_eq_iff key name).0 same in
      subst (λ n. KeepsAllowed allowed (n, c)) named
        (subst (λ (f : Command). KeepsAllowed allowed (key, f)) (some-injective d c here) sound.0)
  | inr other ↦ registered allowed registry name c sound.1 (ground arith)
]

module _ (allowed : Text → List Text → Bool) (registry : Registry) (now : ℕ)
    (sound : All (KeepsAllowed allowed) registry) where
  run_program-IsTree :
      (c : SimpleCommand) (input : Text) (ctx : Context)
      → allowed c.program c.args ≡ true
      → IsTree ctx.vfs
      → IsTree (run_program registry now c input ctx).1.vfs
  unfolding run_program
  run_program-IsTree c input ctx may t = elim (Option-cases (lookup c.program registry)) [
    | inl e ↦ rw (run_program, e) t
    | inr (h, e) ↦
        rw (run_program, e) (registered allowed registry c.program h sound e ctx c.args input may t)
  ]

  send_output-IsTree :
      (to : Option (Text × Bool)) (out : CommandResult) (ctx : Context)
      → IsTree ctx.vfs
      → IsTree (send_output registry now to out ctx).1.vfs
  unfolding send_output
  send_output-IsTree none out ctx t = t
  send_output-IsTree (some (path, append)) out ctx t =
      (write_file-Keeps now root (unwrap_or (normalize_path ctx.cwd path) path) out.stdout append
          ctx.user).kept
        ctx.vfs t

  run_command-IsTree :
      (c : SimpleCommand) (buffer : Text) (ctx : Context)
      → allowed c.program c.args ≡ true
      → IsTree ctx.vfs
      → IsTree (run_command registry now c buffer ctx).1.vfs
  unfolding run_command
  run_command-IsTree c buffer ctx may t =
      elim (Result-cases (input_of registry now c.stdin buffer ctx)) [
        | inl (input, e) ↦
            rw (run_command, e)
              (send_output-IsTree c.stdout (run_program registry now c input ctx).0
                (run_program registry now c input ctx).1 (run_program-IsTree c input ctx may t))
        | inr (x, e) ↦ rw (run_command, e) t
      ]

  run_commands-IsTree :
      (cs : List SimpleCommand) (last : CommandResult) (ctx : Context)
      → All (λ (c : SimpleCommand). allowed c.program c.args ≡ true) cs
      → IsTree ctx.vfs
      → IsTree (run_commands registry now cs last ctx).1.vfs
  unfolding run_commands
  run_commands-IsTree [] last ctx may t = t
  run_commands-IsTree (c ∷ cs) last ctx may t =
      let t' = run_command-IsTree c last.stdout ctx may.0 t in
      elim (Result-cases (run_command registry now c last.stdout ctx).0) [
        | inl (out, e) ↦
            rw (run_commands, e)
              (run_commands-IsTree cs out (run_command registry now c last.stdout ctx).1 may.1 t')
        | inr (x, e) ↦ rw (run_commands, e) t'
      ]

  run_segments-IsTree :
      (ss : List ChainSegment) (result : CommandResult) (ctx : Context)
      → All
          (λ (s : ChainSegment).
            All (λ (c : SimpleCommand). allowed c.program c.args ≡ true) s.pipeline.commands)
          ss
      → IsTree ctx.vfs
      → IsTree (run_segments registry now ss result ctx).1.vfs
  unfolding run_segments execute_pipeline
  run_segments-IsTree [] result ctx may t = t
  run_segments-IsTree (s ∷ ss) result ctx may t =
      elim (Bool-cases (should_run s.op result.exit_code)) [
        | inr e ↦ rw (run_segments, e) (run_segments-IsTree ss result ctx may.1 t)
        | inl e ↦
            let ran = execute_pipeline registry now s.pipeline ctx in
            rw (run_segments, e)
              (run_segments-IsTree ss ran.0 (set_exit (ran.0).exit_code ran.1) may.1
                (run_commands-IsTree s.pipeline.commands (result_ok []) ctx may.0 t))
      ]

  -- A line whose calls are allowed keeps the tree, with its redirections, whether it can be parsed or not.
  pub execute-IsTree :
      (input : Text) (ctx : Context)
      → IsAllowed allowed (parse_line ctx.env input)
      → IsTree ctx.vfs
      → IsTree (execute registry now input ctx).1.vfs
  unfolding execute
  execute-IsTree input ctx may t = elim (Option-cases (assignment input)) [
    | inr ((name, value), e) ↦ rw (execute, e) t
    | inl e ↦ elim (Result-cases (parse_line ctx.env input)) [
      | inr (x, f) ↦ rw (execute, e, f) t
      | inl (line, f) ↦
          rw (execute, e, f)
            (run_segments-IsTree line.segments (result_ok []) ctx (subst (IsAllowed allowed) f may)
              t)
    ]
  ]
