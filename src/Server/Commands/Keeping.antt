-- ===== src/Server/Commands/Keeping.antt =====
-- The commands and the tree of the file system.
use ssh_hunt.Base.{
  ℕ, ◌≡◌, Bool, true, false, not, ◌&&◌, text_eq, arith, Option, none, some, List, [], ◌∷◌, Text,
  text, inl, inr, All, Result-cases, Bool-cases, is_empty, unwrap_or,
}
use mathlib.Core.Option.{get_or}
use mathlib.Core.List.{head?}
use ssh_hunt.Base.Actions.Keeps.{Keeps}
use ssh_hunt.Vfs.Path.{root, normalize_path}
use ssh_hunt.Vfs.Read.{cd}
use ssh_hunt.Vfs.Write.{Method, touch, mkdir_p, remove, mv, chmod}
use ssh_hunt.Vfs.Valid.{IsTree}
use ssh_hunt.Vfs.Valid.Writes.{touch-Keeps, write_file-Keeps, chmod-Keeps, copy-Keeps}
use ssh_hunt.Vfs.Valid.Removals.{remove-Keeps, mv-Keeps}
use ssh_hunt.Vfs.Valid.Directories.{mkdir_p-Keeps}
use ssh_hunt.Shell.Engine.{Context, Registry, execute}
use ssh_hunt.Shell.Parser.{parse_line}
use ssh_hunt.Shell.Engine.Trees.{Keeping, KeepsAllowed, IsAllowed, execute-IsTree}
use ssh_hunt.Server.Words.{has_arg, positional, parse_unsigned}
use ssh_hunt.Server.Commands.{
  for_each, with_two, write_copy, set_modes, cd_command, cat, head, tail, touch_command, mkdir, rm,
  mv_command, tee, chmod_command, echo, test, bracket, cp, copying, is_recursive, default_registry,
}

infixr 30 ◌&◌
abbrev ◌&◌ : {P Q : Type 0} → P → Q → P × Q
p & q = (p, q)

-- The call is no `cp` with a flag that makes it recursive.
abbrev pub is_plain : Text → List Text → Bool
is_plain name args = not (text_eq name (text "cp") && is_recursive args)

module _ {A : Type 0} (name : Text) (m : Text → Method A)
    (keeps : (path : Text) → Keeps IsTree (m path)) where
  for_each-IsTree :
      (paths : List Text) (ctx : Context)
      → IsTree ctx.vfs
      → IsTree (for_each name m paths ctx).1.vfs
  unfolding for_each
  for_each-IsTree [] ctx t = t
  for_each-IsTree (path ∷ paths) ctx t =
      let after = (m path ctx.vfs).1 in
      let t' = (keeps path).kept ctx.vfs t in
      elim (Result-cases (m path ctx.vfs).0) [
        | inl (a, e) ↦ rw (for_each, e) (for_each-IsTree paths (record ctx { vfs = after }) t')
        | inr (x, e) ↦ rw (for_each, e) t'
      ]

with_two-IsTree :
    (name : Text) (m : Text → Text → Method (Unit {0}))
    (keeps : (a b : Text) → Keeps IsTree (m a b)) (args : List Text) (ctx : Context)
    → IsTree ctx.vfs
    → IsTree (with_two name m args ctx).1.vfs
with_two-IsTree name m keeps [] ctx t = t
with_two-IsTree name m keeps (a ∷ []) ctx t = t
with_two-IsTree name m keeps (a ∷ b ∷ []) ctx t = (keeps a b).kept ctx.vfs t
with_two-IsTree name m keeps (a ∷ b ∷ c ∷ r) ctx t = t

cd-Keeping : Keeping cd_command
unfolding cd_command
cd-Keeping ctx args stdin t = elim (Result-cases (cd ctx.vfs ctx.cwd (get_or (head? args) root))) [
  | inl (path, e) ↦ rw (cd_command, e) t
  | inr (x, e) ↦ rw (cd_command, e) t
]

module _ (now : ℕ) where
  touch-Keeping : Keeping (touch_command now)
  unfolding touch_command
  touch-Keeping ctx [] stdin t = t
  touch-Keeping ctx (a ∷ args) stdin t =
      for_each-IsTree (text "touch") (λ path. touch now ctx.cwd path ctx.user)
        (λ path. touch-Keeps now ctx.cwd path ctx.user) (a ∷ args) ctx t

  mkdir-Keeping : Keeping (mkdir now)
  unfolding mkdir
  mkdir-Keeping ctx [] stdin t = t
  mkdir-Keeping ctx (a ∷ args) stdin t =
      for_each-IsTree (text "mkdir") (λ path. mkdir_p now ctx.cwd path ctx.user)
        (λ path. mkdir_p-Keeps now ctx.cwd path ctx.user) (a ∷ args) ctx t

  rm-Keeping : Keeping (rm now)
  unfolding rm
  rm-Keeping ctx args stdin t = elim (Bool-cases (is_empty (positional args))) [
    | inl e ↦ rw (rm, e) t
    | inr e ↦
        rw (rm, e)
          (for_each-IsTree (text "rm") (λ path. remove ctx.cwd path)
            (λ path. remove-Keeps ctx.cwd path) (positional args) ctx t)
  ]

  mv-Keeping : Keeping (mv_command now)
  unfolding mv_command
  mv-Keeping ctx args stdin t =
      with_two-IsTree (text "mv") (mv now ctx.cwd) (mv-Keeps now ctx.cwd) (positional args) ctx t

  write_copy-IsTree :
      (stdin : Text) (append : Bool) (path : Option Text) (ctx : Context)
      → IsTree ctx.vfs
      → IsTree (write_copy now stdin append path ctx).1.vfs
  write_copy-IsTree stdin append none ctx t = t
  write_copy-IsTree stdin append (some path) ctx t =
      (write_file-Keeps now root (unwrap_or (normalize_path ctx.cwd path) path) stdin append
          ctx.user).kept
        ctx.vfs t

  tee-Keeping : Keeping (tee now)
  unfolding tee
  tee-Keeping ctx args stdin t =
      write_copy-IsTree stdin (has_arg (text "-a") args) (head? (positional args)) ctx t

  set_modes-IsTree :
      (args : List Text) (ctx : Context) → IsTree ctx.vfs → IsTree (set_modes now args ctx).1.vfs
  set_modes-IsTree [] ctx t = t
  set_modes-IsTree (mode ∷ []) ctx t = t
  set_modes-IsTree (mode ∷ path ∷ paths) ctx t =
      for_each-IsTree (text "chmod")
        (λ p. chmod now ctx.cwd p (get_or (parse_unsigned 8 65536 mode) 0o644))
        (λ p. chmod-Keeps now ctx.cwd p (get_or (parse_unsigned 8 65536 mode) 0o644)) (path ∷ paths)
        ctx t

  chmod-Keeping : Keeping (chmod_command now)
  unfolding chmod_command
  chmod-Keeping ctx args stdin t = set_modes-IsTree (positional args) ctx t

  copying-IsTree :
      (recursive : Bool) (paths : List Text) (ctx : Context)
      → recursive ≡ false
      → IsTree ctx.vfs
      → IsTree (with_two (text "cp") (copying now recursive ctx.cwd) paths ctx).1.vfs
  copying-IsTree true paths ctx e t = absurd (cc)
  copying-IsTree false paths ctx e t =
      with_two-IsTree (text "cp") (copying now false ctx.cwd) (copy-Keeps now ctx.cwd) paths ctx t

  cp-KeepsAllowed : KeepsAllowed is_plain (text "cp", cp now)
  unfolding cp text_eq
  cp-KeepsAllowed ctx args stdin may t =
      copying-IsTree (is_recursive args) (positional args) ctx (ground (arith, may)) t

  default_registry_keeps :
      (others : Registry)
      → All (KeepsAllowed is_plain) others
      → All (KeepsAllowed is_plain) (default_registry others now)
  unfolding default_registry test bracket cat head tail echo
  default_registry_keeps others rest =
      (λ ctx args stdin may t. t)
      & (λ ctx args stdin may t. cd-Keeping ctx args stdin t)
      & (λ ctx args stdin may t. t)
      & (λ ctx args stdin may t. t)
      & (λ ctx args stdin may t. t)
      & (λ ctx args stdin may t. t)
      & (λ ctx args stdin may t. touch-Keeping ctx args stdin t)
      & (λ ctx args stdin may t. mkdir-Keeping ctx args stdin t)
      & (λ ctx args stdin may t. rm-Keeping ctx args stdin t)
      & cp-KeepsAllowed
      & (λ ctx args stdin may t. mv-Keeping ctx args stdin t)
      & (λ ctx args stdin may t. t)
      & (λ ctx args stdin may t. t)
      & (λ ctx args stdin may t. t)
      & (λ ctx args stdin may t. tee-Keeping ctx args stdin t)
      & (λ ctx args stdin may t. t)
      & (λ ctx args stdin may t. t)
      & (λ ctx args stdin may t. chmod-Keeping ctx args stdin t)
      & (λ ctx args stdin may t. t)
      & (λ ctx args stdin may t. t)
      & rest

others_keep :
    (others : Registry) → All (λ e. Keeping e.1) others → All (KeepsAllowed is_plain) others
others_keep [] h = tt
others_keep (e ∷ others) h = (λ ctx args stdin may t. h.0 ctx args stdin t, others_keep others h.1)

module _ (others : Registry) where
  -- Lines one after another, at the instants given with them.
  abbrev pub run_lines : List (ℕ × Text) → Context → Context
  run_lines [] ctx = ctx
  run_lines ((now, line) ∷ lines) ctx =
      run_lines lines (execute (default_registry others now) now line ctx).1

  -- No call of the lines, each parsed when its turn comes, is a `cp` with `-r`, `-R` or `-rf`.
  abbrev pub IsPlain : List (ℕ × Text) → Context → Type 0
  IsPlain [] ctx = Unit
  IsPlain ((now, line) ∷ lines) ctx =
      IsAllowed is_plain (parse_line ctx.env line)
      × IsPlain lines (execute (default_registry others now) now line ctx).1

  -- Where the commands that are not modelled keep the tree of the file system, lines that do not call
  -- `cp` with `-r`, `-R` or `-rf` keep it, with their pipes, chains and redirections, those that fail
  -- and those that cannot be parsed included.
  pub run_lines-IsTree :
      (lines : List (ℕ × Text)) (ctx : Context)
      → All (λ e. Keeping e.1) others
      → IsPlain lines ctx
      → IsTree ctx.vfs
      → IsTree (run_lines lines ctx).vfs
  run_lines-IsTree [] ctx keep plain t = t
  run_lines-IsTree ((now, line) ∷ lines) ctx keep plain t =
      run_lines-IsTree lines (execute (default_registry others now) now line ctx).1 keep plain.1 (
        execute-IsTree is_plain (default_registry others now) now
          (default_registry_keeps now others (others_keep others keep)) line ctx plain.0 t)
