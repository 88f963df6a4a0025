-- ===== src/Server/Conditions.antt =====
-- ssh-hunt/crates/ssh_hunt_server/src/builtins.rs: `eval_test_expr`, behind `test` and `[`. The fuel bounds
-- the calls inside each other; one more than the number of the arguments is enough.
pub mod Fuel
use ssh_hunt.Base.{
  ℕ, zero, suc, ◌+◌, Bool, true, false, not, ◌&&◌, ◌||◌, Option, none, some, List, [], ◌∷◌, Text,
  text, text_eq, is_empty, length, Result, ok, err, ◌==◌, ltb, leb, if◌then◌else◌,
}
use ssh_hunt.Base.Int.{ℤ, pos, ltb_ℤ, leb_ℤ, ◌==ℤ◌, ◌-ℤ◌}
use ssh_hunt.Base.Trim.{trim}
use ssh_hunt.Vfs.Node.{VfsError, VfsNode, is_dir, is_file}
use ssh_hunt.Vfs.Read.{stat}
use ssh_hunt.Shell.Engine.{Context}
use ssh_hunt.Server.Words.{digits}

abbrev pub in_i64 : ℤ → Option ℤ
in_i64 x =
    if leb_ℤ x (pos 9223372036854775807) && leb_ℤ (pos 0 -ℤ pos 9223372036854775808) x
    then some x
    else none

abbrev pub signed : Bool → Text → Option ℤ
signed minus [] = none
signed minus (c ∷ s) = elim (digits 10 0 (c ∷ s)) [
  | none ↦ none
  | some n ↦ in_i64 (if minus then pos 0 -ℤ pos n else pos n)
]

-- `parse::<i64>`
unfoldable pub parse_i64 : Text → Option ℤ
unfolding digits ◌-ℤ◌
parse_i64 [] = none
parse_i64 (c ∷ s) =
    if c == b'-' then signed true s else if c == b'+' then signed false s else signed false (c ∷ s)

abbrev pub holds_of : (VfsNode → Bool) → Result VfsError VfsNode → Bool
holds_of p (ok n) = p n
holds_of p (err e) = false

abbrev pub compares : Text → ℤ → ℤ → Bool
compares op a b =
    if text_eq op (text "-lt")
    then ltb_ℤ a b
    else if text_eq op (text "-le")
    then leb_ℤ a b
    else if text_eq op (text "-gt")
    then ltb_ℤ b a
    else if text_eq op (text "-ge")
    then leb_ℤ b a
    else if text_eq op (text "-eq")
    then a ==ℤ b
    else if text_eq op (text "-ne")
    then not (a ==ℤ b)
    else false

abbrev pub compares_numbers : Text → Option ℤ → Option ℤ → Bool
compares_numbers op none b = false
compares_numbers op (some a) none = false
compares_numbers op (some a) (some b) = compares op a b

-- The tests without `!`, `-a` and `-o`.
unfoldable pub primary : Context → List Text → Bool
unfolding parse_i64
primary ctx [] = false
primary ctx (a ∷ []) = false
primary ctx (f ∷ p ∷ []) =
    let node = stat ctx.vfs ctx.cwd p in
    if text_eq f (text "-f")
    then holds_of (λ n. is_file n.kind) node
    else if text_eq f (text "-d")
    then holds_of (λ n. is_dir n.kind) node
    else if text_eq f (text "-e")
    then holds_of (λ n. true) node
    else if text_eq f (text "-z")
    then is_empty p
    else text_eq f (text "-n") && not (is_empty p)
primary ctx (a ∷ op ∷ b ∷ []) =
    if text_eq op (text "=") || text_eq op (text "==")
    then text_eq a b
    else if text_eq op (text "!=")
    then not (text_eq a b)
    else compares_numbers op (parse_i64 (trim a)) (parse_i64 (trim b))
primary ctx (a ∷ b ∷ c ∷ d ∷ rest) = false

-- The arguments before and behind the first `word`, if there is one.
unfoldable pub split_at : Text → List Text → Option (List Text × List Text)
split_at word [] = none
split_at word (a ∷ args) =
    let rest = split_at word args in
    if text_eq a word
    then some ([], args)
    else elim rest [ none ↦ none | some (l, r) ↦ some (a ∷ l, r) ]

-- The second operand is asked for only if the first has the value `ask`.
abbrev pub operands : Bool → Option Bool → Option Bool → Option Bool
operands ask none second = none
operands true (some true) second = second
operands true (some false) second = some false
operands false (some true) second = some true
operands false (some false) second = second

abbrev pub negated : Option Bool → Option Bool
negated none = none
negated (some b) = some (not b)

-- `none` when the fuel is out
unfoldable pub eval_test_expr : ℕ → Context → List Text → Option Bool
eval_test_expr zero ctx args = none
eval_test_expr (suc n) ctx [] = some false
eval_test_expr (suc n) ctx (a ∷ args) = elim (text_eq a (text "!")) [
  | true ↦ negated (eval_test_expr n ctx args)
  | false ↦ elim (split_at (text "-a") (a ∷ args)) [
    | some (l, r) ↦ operands true (eval_test_expr n ctx l) (eval_test_expr n ctx r)
    | none ↦ elim (split_at (text "-o") (a ∷ args)) [
      | some (l, r) ↦ operands false (eval_test_expr n ctx l) (eval_test_expr n ctx r)
      | none ↦ some (primary ctx (a ∷ args))
    ]
  ]
]
