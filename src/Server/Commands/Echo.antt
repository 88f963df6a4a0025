-- ===== src/Server/Commands/Echo.antt =====
-- What `echo` writes, `cat` reads.
use ssh_hunt.Base.{
  ℕ, ◌≡◌, refl, sym, subst, ◌∙◌, ap, Bool, false, not, ◌||◌, ◌&&◌, List, [], ◌∷◌, ◌++◌, Text, text,
  text_eq, text_key, lookup, starts_with, append-nil, join, any, filter_by, ok, arith,
}
use ssh_hunt.Vfs.Path.{normalize_path}
use ssh_hunt.Vfs.Read.{read_file}
use ssh_hunt.Vfs.Write.Copies.{CanWrite}
use ssh_hunt.Shell.Line.{CommandResult, result_ok}
use ssh_hunt.Shell.Engine.{Context, Registry, execute_pipeline, run_program}
use ssh_hunt.Shell.Engine.Redirects.{redirected, ran, redirect_to_file, redirect_cwd}
use ssh_hunt.Server.Words.{has_arg, is_flag}
use ssh_hunt.Server.Commands.{line, cat, echo, contents, default_registry}

abbrev pub is_option : Text → Bool
is_option a = text_eq a (text "-n") || text_eq a (text "-e")

words_kept :
    (args : List Text)
    → any is_option args ≡ false
    → filter_by (λ a. not (text_eq a (text "-n")) && not (text_eq a (text "-e"))) args ≡ args
words_kept [] e = refl
words_kept (a ∷ args) e = ground (arith, words_kept args)

no_option :
    (args : List Text)
    → any is_option args ≡ false
    → (has_arg (text "-n") args ≡ false) × (has_arg (text "-e") args ≡ false)
no_option [] e = (refl, refl)
no_option (a ∷ args) e = ground (arith, no_option args)

echo_run :
    (args : List Text) (ctx : Context) (stdin : Text)
    → any is_option args ≡ false
    → echo ctx args stdin ≡ (line (join b' ' args), ctx)
unfolding echo
echo_run args ctx stdin e =
    let (newline, plain) = no_option args e in rw (echo, newline, plain, words_kept args e) refl

no_flag_n : (path : Text) → is_flag path ≡ false → text_eq path (text "-n") ≡ false
unfolding starts_with text_eq
no_flag_n [] e = refl
no_flag_n (c ∷ s) e = ground arith

cat_run :
    (ctx : Context) (path c : Text)
    → is_flag path ≡ false
    → read_file ctx.vfs ctx.cwd path ≡ ok c
    → cat ctx (path ∷ []) [] ≡ (result_ok c, ctx)
unfolding cat contents
cat_run ctx path c plain e = ground (arith, no_flag_n path, append-nil c, plain, e)

module _ (others : Registry) (now : ℕ) (args : List Text) (path k : Text) (ctx : Context)
    (plain : any is_option args ≡ false) (file : is_flag path ≡ false) where
  abbrev pub written : Text
  written = join b' ' args ++ b'\n' ∷ []

  echo_ran :
      ran (default_registry others now) now (text "echo") args path k ctx
      ≡ (line (join b' ' args), ctx)
  unfolding run_program default_registry lookup text_eq
  echo_ran = echo_run args ctx [] plain

  abbrev result_of : CommandResult × Context
  result_of = ran (default_registry others now) now (text "echo") args path k ctx

  ran_ctx : result_of.1 ≡ ctx
  ran_ctx = ap (λ (o : CommandResult × Context). o.1) echo_ran

  ran_out : result_of.0 ≡ line (join b' ' args)
  ran_out = ap (λ (o : CommandResult × Context). o.0) echo_ran

  abbrev after : Context
  after =
      (execute_pipeline (default_registry others now) now
        (record {
          commands =
              redirected (default_registry others now) now (text "echo") args path k ctx ∷ [];
        })
        ctx).1

  -- `echo words > path` and then `cat path`, where no word is `-n` or `-e`, and the path does not
  -- start with a dash, has a normal form and can be written: echo prints nothing, and cat prints
  -- the words, parted by spaces, with a line feed.
  pub cat-echo :
      normalize_path ctx.cwd path ≡ ok k
      → CanWrite k ctx.vfs
      → let (r, ctx') =
          execute_pipeline
            (default_registry others now)
            now
            (record {
              commands =
                  redirected (default_registry others now) now (text "echo") args path k ctx ∷ [];
            })
            ctx in
        (r ≡ result_ok []) × ((cat ctx' (path ∷ []) []).0 ≡ result_ok written)
  cat-echo e can =
      let ran_e : normalize_path (result_of.1).cwd path ≡ ok k =
        ap (λ (c : Context). normalize_path c.cwd path) ran_ctx ∙ e in
      let ran_can : CanWrite k (result_of.1).vfs =
        subst (λ (c : Context). CanWrite k c.vfs) (sym ran_ctx) can in
      let (r, reads, same) =
        redirect_to_file (default_registry others now) now (text "echo") args path k ctx ran_e
          ran_can in
      let cwd =
        redirect_cwd (default_registry others now) now (text "echo") args path k ctx ran_e
          ran_can in
      (
        r ∙ ap (λ (o : CommandResult). record o { stdout = [] }) ran_out,
        ap (λ (o : CommandResult × Context). o.0)
            (cat_run after path written file (
              ap (λ d. read_file after.vfs d path) cwd
              ∙ reads
              ∙ ap (λ (o : CommandResult). ok o.stdout) ran_out)),
      )
