-- ===== src/Server/Conditions/Fuel.antt =====
-- The fuel of a condition.
use ssh_hunt.Base.{
  ℕ, zero, suc, ◌<◌, ◌≡◌, refl, subst, not, Bool, true, false, Option, none, some, List, [], ◌∷◌,
  Text, text, text_eq, length, arith, inl, inr, Bool-cases, Option-cases,
}
use ssh_hunt.Shell.Engine.{Context}
use ssh_hunt.Server.Conditions.{eval_test_expr, split_at, primary, operands}

abbrev Shorter : List Text → Option (List Text × List Text) → Type 0
Shorter args none = Unit
Shorter args (some (l, r)) = (length l < length args) × (length r < length args)

Shorter-behind :
    (a : Text) (args : List Text) (o : Option (List Text × List Text))
    → Shorter args o
    → Shorter (a ∷ args) (elim o [ none ↦ none | some (l, r) ↦ some (a ∷ l, r) ])
Shorter-behind a args none h = tt
Shorter-behind a args (some (l, r)) h = (omega (arith, h.0), omega (arith, h.1))

-- The parts are shorter than the whole.
split_at-Shorter : (word : Text) (args : List Text) → Shorter args (split_at word args)
unfolding split_at
split_at-Shorter word [] = tt
split_at-Shorter word (a ∷ args) = elim (Bool-cases (text_eq a word)) [
  | inl e ↦ rw (split_at, e) (omega arith, omega arith)
  | inr e ↦
      rw (split_at, e) (Shorter-behind a args (split_at word args) (split_at-Shorter word args))
]

operands_total : (ask a b : Bool) → (c : Bool) × (operands ask (some a) (some b) ≡ some c)
operands_total true true b = (b, refl)
operands_total true false b = (false, refl)
operands_total false true b = (true, refl)
operands_total false false b = (b, refl)

abbrev pub SameValue : ℕ → ℕ → Context → List Text → Type 0
SameValue m n ctx args =
    (b : Bool) × (eval_test_expr m ctx args ≡ some b) × (eval_test_expr n ctx args ≡ some b)

-- The value of two operands from theirs.
joined :
    (ask : Bool) (m n : ℕ) (ctx : Context) (l r : List Text)
    → SameValue m n ctx l
    → SameValue m n ctx r
    → (c : Bool) × (operands ask (eval_test_expr m ctx l) (eval_test_expr m ctx r) ≡ some c)
      × (operands ask (eval_test_expr n ctx l) (eval_test_expr n ctx r) ≡ some c)
joined ask m n ctx l r (a, p, q) (b, u, v) =
    let (c, e) = operands_total ask a b in (c, rw (p, u) e, rw (q, v) e)

-- A condition has a value, and the same one, under any fuels beyond the number of its arguments.
pub eval_test_expr_total :
    (ctx : Context) (args : List Text) (m n : ℕ)
    → length args < m
    → length args < n
    → SameValue m n ctx args
unfolding eval_test_expr
eval_test_expr_total ctx args zero n h k = absurd (omega arith)
eval_test_expr_total ctx args (suc m) zero h k = absurd (omega arith)
eval_test_expr_total ctx [] (suc m) (suc n) h k = (false, refl, refl)
eval_test_expr_total ctx (a ∷ args) (suc m) (suc n) h k = elim (Bool-cases (text_eq a (text "!"))) [
  | inl e ↦
      let (b, p, q) = eval_test_expr_total ctx args m n (omega arith) (omega arith) in
      (not b, rw (eval_test_expr, e, p) refl, rw (eval_test_expr, e, q) refl)
  | inr e ↦ elim (Option-cases (split_at (text "-a") (a ∷ args))) [
    | inr ((l, r), f) ↦
        let short : Shorter (a ∷ args) (some (l, r)) =
          subst (Shorter (a ∷ args)) f (split_at-Shorter (text "-a") (a ∷ args)) in
        let (c, p, q) =
          joined true m n ctx l r
            (eval_test_expr_total ctx l m n (omega (arith, short.0)) (omega (arith, short.0)))
            (eval_test_expr_total ctx r m n (omega (arith, short.1)) (omega (arith, short.1))) in
        (c, rw (eval_test_expr, e, f) p, rw (eval_test_expr, e, f) q)
    | inl f ↦ elim (Option-cases (split_at (text "-o") (a ∷ args))) [
      | inr ((l, r), g) ↦
          let short : Shorter (a ∷ args) (some (l, r)) =
            subst (Shorter (a ∷ args)) g (split_at-Shorter (text "-o") (a ∷ args)) in
          let (c, p, q) =
            joined false m n ctx l r
              (eval_test_expr_total ctx l m n (omega (arith, short.0)) (omega (arith, short.0)))
              (eval_test_expr_total ctx r m n (omega (arith, short.1)) (omega (arith, short.1))) in
          (c, rw (eval_test_expr, e, f, g) p, rw (eval_test_expr, e, f, g) q)
      | inl g ↦ (
        primary ctx (a ∷ args),
        rw (eval_test_expr, e, f, g) refl,
        rw (eval_test_expr, e, f, g) refl,
      )
    ]
  ]
]
