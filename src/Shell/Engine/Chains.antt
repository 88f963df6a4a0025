-- ===== src/Shell/Engine/Chains.antt =====
-- Chains of segments: which run, and the exit status that they leave.
use ssh_hunt.Base.{
  ℕ, ◌≡◌, refl, ◌∙◌, true, false, none, some, List, [], ◌∷◌, ◌++◌, Text, text, text_eq_refl, lookup,
  insert, lookup-insert, text_key, All, ok, err, Bool-cases, inl, inr, Option-cases, Result-cases,
}
use ssh_hunt.Base.Int.{ℤ, pos, ◌==ℤ◌}
use ssh_hunt.Base.Decimal.{show_int}
use ssh_hunt.Shell.Line.{
  ShellError, ParsedLine, always, and_then, or_else, ChainSegment, CommandResult, result_ok,
}
use ssh_hunt.Shell.Parser.{parse_line}
use ssh_hunt.Shell.Engine.{
  Context, Registry, set_exit, should_run, run_segments, execute_pipeline, execute, assignment,
}

-- `$?` is the text of `last_exit`.
abbrev pub IsSynced : Context → Type 0
IsSynced ctx = lookup (text "?") ctx.env ≡ some (show_int ctx.last_exit)

set_exit-IsSynced : (code : ℤ) (ctx : Context) → IsSynced (set_exit code ctx)
set_exit-IsSynced code ctx =
    lookup-insert (text "?") (text "?") (show_int code) ctx.env ∙ rw (text_eq_refl (text "?"))

module _ (registry : Registry) (now : ℕ) where
  -- The context after a pipeline that is run in a chain.
  abbrev after : ChainSegment → Context → CommandResult × Context
  after s ctx =
      let (r, ctx') = execute_pipeline registry now s.pipeline ctx in (r, set_exit r.exit_code ctx')

  runs :
      (s : ChainSegment) (ss : List ChainSegment) (r : CommandResult) (ctx : Context)
      → should_run s.op r.exit_code ≡ true
      → run_segments registry now (s ∷ ss) r ctx
        ≡ run_segments registry now ss (after s ctx).0 (after s ctx).1
  unfolding run_segments
  runs s ss r ctx h = rw (h, run_segments)

  skips :
      (s : ChainSegment) (ss : List ChainSegment) (r : CommandResult) (ctx : Context)
      → should_run s.op r.exit_code ≡ false
      → run_segments registry now (s ∷ ss) r ctx ≡ run_segments registry now ss r ctx
  unfolding run_segments
  skips s ss r ctx h = rw (h, run_segments)

  -- The status that a run of segments leaves.
  abbrev Agrees : CommandResult × Context → Type 0
  Agrees w = (w.0.exit_code ≡ w.1.last_exit) × IsSynced w.1

  run_segments_agree :
      (ss : List ChainSegment) (r : CommandResult) (ctx : Context)
      → Agrees (r, ctx)
      → Agrees (run_segments registry now ss r ctx)
  run_segments_agree [] r ctx h = unfold run_segments in h
  run_segments_agree (s ∷ ss) r ctx h = elim (Bool-cases (should_run s.op r.exit_code)) [
    | inl run ↦ rw (runs s ss r ctx run) (
        run_segments_agree ss (after s ctx).0 (after s ctx).1 (
          refl,
          set_exit-IsSynced (after s ctx).0.exit_code
              (execute_pipeline registry now s.pipeline ctx).1,
        ))
    | inr skip ↦ rw (skips s ss r ctx skip) (run_segments_agree ss r ctx h)
  ]

  -- Whatever the commands do, a chain whose first segment runs always ends with the exit code of its
  -- result as the last exit code, and with `$?` showing it.
  pub status_after_chain :
      (s : ChainSegment) (ss : List ChainSegment) (r : CommandResult) (ctx : Context)
      → s.op ≡ always
      → let (r', ctx') = run_segments registry now (s ∷ ss) r ctx in
        (r'.exit_code ≡ ctx'.last_exit)
        × (lookup (text "?") ctx'.env ≡ some (show_int r'.exit_code))
  status_after_chain s ss r ctx first =
      let w = after s ctx in
      let (same, shown) =
        run_segments_agree ss w.0 w.1 (
          refl,
          set_exit-IsSynced w.0.exit_code (execute_pipeline registry now s.pipeline ctx).1,
        ) in
      rw (runs s ss r ctx (rw first)) (same, shown ∙ rw same)

  -- A failed command runs none of the `&&` segments behind it, up to the first `||` segment, which
  -- does run.
  pub failure_reaches_or_else :
      (ands : List ChainSegment) (t : ChainSegment) (rest : List ChainSegment) (r : CommandResult)
      (ctx : Context)
      → All (λ s. s.op ≡ and_then) ands
      → t.op ≡ or_else
      → (r.exit_code ==ℤ pos 0) ≡ false
      → run_segments registry now (ands ++ t ∷ rest) r ctx ≡ (
          let (r', ctx') = execute_pipeline registry now t.pipeline ctx in
          run_segments registry now rest r' (set_exit r'.exit_code ctx'))
  failure_reaches_or_else [] t rest r ctx h is_or failed = runs t rest r ctx (rw (is_or, failed))
  failure_reaches_or_else (s ∷ ands) t rest r ctx h is_or failed =
      skips s (ands ++ t ∷ rest) r ctx (rw (h.0, failed))
      ∙ failure_reaches_or_else ands t rest r ctx h.1 is_or failed

  -- A command that succeeded runs none of the `||` segments behind it, up to the first `&&`
  -- segment, which does run.
  pub success_reaches_and_then :
      (ors : List ChainSegment) (t : ChainSegment) (rest : List ChainSegment) (r : CommandResult)
      (ctx : Context)
      → All (λ s. s.op ≡ or_else) ors
      → t.op ≡ and_then
      → (r.exit_code ==ℤ pos 0) ≡ true
      → run_segments registry now (ors ++ t ∷ rest) r ctx ≡ (
          let (r', ctx') = execute_pipeline registry now t.pipeline ctx in
          run_segments registry now rest r' (set_exit r'.exit_code ctx'))
  success_reaches_and_then [] t rest r ctx h is_and done = runs t rest r ctx (rw (is_and, done))
  success_reaches_and_then (s ∷ ors) t rest r ctx h is_and done =
      skips s (ors ++ t ∷ rest) r ctx (rw (h.0, done))
      ∙ success_reaches_and_then ors t rest r ctx h.1 is_and done

  module _ (input : Text) (ctx : Context) where
    pub execute_assigns :
        (name value : Text)
        → assignment input ≡ some (name, value)
        → execute registry now input ctx
          ≡ (ok (result_ok []), set_exit (pos 0) (record ctx { env = insert name value ctx.env }))
    unfolding execute
    execute_assigns name value e = rw (e, execute)

    execute_unparsed :
        (x : ShellError)
        → assignment input ≡ none
        → parse_line ctx.env input ≡ err x
        → execute registry now input ctx ≡ (err x, ctx)
    unfolding execute
    execute_unparsed x e p = rw (e, p, execute)

    execute_parses :
        (line : ParsedLine)
        → assignment input ≡ none
        → parse_line ctx.env input ≡ ok line
        → execute registry now input ctx ≡ (
            let (r, ctx') = run_segments registry now line.segments (result_ok []) ctx in
            (ok r, ctx'))
    unfolding execute
    execute_parses line e p = rw (e, p, execute)

  run_segments-IsSynced :
      (ss : List ChainSegment) (r : CommandResult) (ctx : Context)
      → IsSynced ctx
      → IsSynced (run_segments registry now ss r ctx).1
  run_segments-IsSynced [] r ctx h = unfold run_segments in h
  run_segments-IsSynced (s ∷ ss) r ctx h = elim (Bool-cases (should_run s.op r.exit_code)) [
    | inl run ↦ rw (runs s ss r ctx run) (
        run_segments-IsSynced ss (after s ctx).0 (after s ctx).1 (
          set_exit-IsSynced (after s ctx).0.exit_code
            (execute_pipeline registry now s.pipeline ctx).1))
    | inr skip ↦ rw (skips s ss r ctx skip) (run_segments-IsSynced ss r ctx h)
  ]

  execute_line :
      (input : Text) (ctx : Context)
      → assignment input ≡ none
      → IsSynced ctx
      → IsSynced (execute registry now input ctx).1
  execute_line input ctx plain h = elim (Result-cases (parse_line ctx.env input)) [
    | inl (line, p) ↦
        rw (execute_parses input ctx line plain p)
          (run_segments-IsSynced line.segments (result_ok []) ctx h)
    | inr (x, p) ↦ rw (execute_unparsed input ctx x plain p) h
  ]

  -- `execute` keeps `$?` in step with the last exit code on every line, whatever the commands do:
  -- assignments, lines that do not parse, and chains.
  pub execute-IsSynced :
      (input : Text) (ctx : Context) → IsSynced ctx → IsSynced (execute registry now input ctx).1
  execute-IsSynced input ctx h = elim (Option-cases (assignment input)) [
    | inl plain ↦ execute_line input ctx plain h
    | inr ((name, value), e) ↦
        rw (execute_assigns input ctx name value e)
          (set_exit-IsSynced (pos 0) (record ctx { env = insert name value ctx.env }))
  ]
