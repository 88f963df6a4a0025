-- ===== src/Shell/Tokens/Quoting.antt =====
-- Words in single quotes come back as they are, whatever the environment.
use ssh_hunt.Base.{
  ℕ, ◌≡◌, ◌≢◌, refl, ap, ◌∙◌, Bool, true, false, List, [], ◌∷◌, ◌++◌, map, foldl, foldl-append,
  append_assoc, append-nil, Text, Dict, All, Lacks, join, is_empty, ok, arith,
}
use ssh_hunt.Shell.Tokens.{Lexer, plain, step, finish, tokenize}

abbrev pub quote_char : ℕ
quote_char = 39

-- A word in single quotes.
abbrev pub quote : Text → Text
quote w = (quote_char ∷ w) ++ quote_char ∷ []

-- The words in quotes, with a space between.
abbrev pub quote_all : List Text → Text
quote_all ws = join b' ' (map quote ws)

-- What can be written so: it is not empty, and has no quote in it.
pub record IsQuotable (w : Text) : Type 0 where
  pub some_char : is_empty w ≡ false
  pub no_quote : Lacks quote_char w

-- Outside quotes, with a word begun.
abbrev at : List Text → Text → Bool → Lexer
at ts cur quoted = record {
  tokens = ts;
  cur = cur;
  single_quote = quoted;
  double_quote = false;
  mode = plain;
}

module _ (env : Dict Text Text) where
  step_quoted :
      (ts : List Text) (cur : Text) (c : ℕ)
      → c ≢ quote_char
      → step env (at ts cur true) c ≡ at ts (cur ++ c ∷ []) true
  unfolding step
  step_quoted ts cur c ne = ground arith

  steps_quoted :
      (ts : List Text) (cur w : Text)
      → Lacks quote_char w
      → foldl (step env) (at ts cur true) w ≡ at ts (cur ++ w) true
  steps_quoted ts cur [] h = rw append-nil
  steps_quoted ts cur (c ∷ w) h =
      rw (step_quoted ts cur c h.0, steps_quoted ts (cur ++ c ∷ []) w h.1, append_assoc)

  step_open : (ts : List Text) → step env (at ts [] false) quote_char ≡ at ts [] true
  unfolding step
  step_open ts = refl

  step_close :
      (ts : List Text) (cur : Text) → step env (at ts cur true) quote_char ≡ at ts cur false
  unfolding step
  step_close ts cur = refl

  step_space :
      (ts : List Text) (w : Text)
      → is_empty w ≡ false
      → step env (at ts w false) b' ' ≡ at (ts ++ w ∷ []) [] false
  unfolding step
  step_space ts [] h = absurd (cc)
  step_space ts (c ∷ w) h = refl

  finish_word :
      (ts : List Text) (w : Text)
      → is_empty w ≡ false
      → finish env (at ts w false) ≡ ok (ts ++ w ∷ [])
  unfolding finish
  finish_word ts [] h = absurd (cc)
  finish_word ts (c ∷ w) h = refl

  steps_quote :
      (ts : List Text) (w : Text)
      → Lacks quote_char w
      → foldl (step env) (at ts [] false) (quote w) ≡ at ts w false
  steps_quote ts w h =
      ap (λ (l : Lexer). foldl (step env) l (w ++ quote_char ∷ [])) (step_open ts)
      ∙ foldl-append (step env) (at ts [] true) w (quote_char ∷ [])
      ∙ ap (λ (l : Lexer). step env l quote_char) (steps_quoted ts [] w h)
      ∙ step_close ts w

  quote_all_from :
      (ts ws : List Text)
      → All IsQuotable ws
      → finish env (foldl (step env) (at ts [] false) (quote_all ws)) ≡ ok (ts ++ ws)
  unfolding join
  quote_all_from ts [] h = unfold finish in rw append-nil
  quote_all_from ts (w ∷ []) h = rw (steps_quote ts w h.0.no_quote) (finish_word ts w h.0.some_char)
  quote_all_from ts (w ∷ w' ∷ ws) h =
      rw
        (
          foldl-append (step env) (at ts [] false) (quote w) (b' ' ∷ quote_all (w' ∷ ws)),
          steps_quote ts w h.0.no_quote,
          step_space ts w h.0.some_char,
        )
        (rw (quote_all_from (ts ++ w ∷ []) (w' ∷ ws) h.1, append_assoc))

  -- Any list of words that are not empty and have no single quote, written in single quotes with
  -- spaces between, is tokenised to exactly these words: nothing in them is split or expanded.
  pub tokenize-quote_all :
      (ws : List Text) → All IsQuotable ws → tokenize env (quote_all ws) ≡ ok ws
  unfolding tokenize
  tokenize-quote_all ws h = quote_all_from [] ws h
