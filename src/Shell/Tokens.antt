-- ===== src/Shell/Tokens.antt =====
-- ssh-hunt/crates/shell/src/lib.rs: `tokenize`. The loop over the characters is a fold of `step`; what
-- the source reads ahead with `next` and `peek` is kept as a mode, which says how the next
-- character is taken.
pub mod Quoting
use mathlib.Core.Option.{get_or}
use ssh_hunt.Base.{
  ℕ, Bool, true, false, not, ◌&&◌, ◌||◌, Option, none, some, List, [], ◌∷◌, ◌++◌, foldl, Text, text,
  Dict, lookup, text_key, is_empty, Result, ok, err, if◌then◌else◌, leb, ◌==◌,
}
use ssh_hunt.Shell.Line.{ShellError, parse_error}

pub data Mode : Type 0 where
  -- at the head of the loop
  plain : Mode
  -- after a backslash: `chars.next()` is pushed
  escaped : Mode
  -- in the loop over the name behind a `$`, with the name so far
  naming : Text → Mode
  -- behind an operator character, before `chars.peek()` is looked at
  operator : ℕ → Mode

pub record Lexer : Type 0 where
  pub tokens : List Text
  pub cur : Text
  pub single_quote : Bool
  pub double_quote : Bool
  pub mode : Mode

abbrev pub start : Lexer
start = record { tokens = []; cur = []; single_quote = false; double_quote = false; mode = plain }

-- `char::is_ascii_alphabetic`, `char::is_ascii_alphanumeric`
abbrev pub is_alphabetic : ℕ → Bool
is_alphabetic c = leb b'a' c && leb c b'z' || leb b'A' c && leb c b'Z'

abbrev pub is_alphanumeric : ℕ → Bool
is_alphanumeric c = is_alphabetic c || leb b'0' c && leb c b'9'

unfoldable pub is_name_char : ℕ → Bool
is_name_char c = is_alphanumeric c || c == b'_' || c == b'?'

unfoldable pub is_operator : ℕ → Bool
is_operator c = c == b'|' || c == b'&' || c == b'>' || c == b'<' || c == b';'

-- the pairs `&&`, `||` and `>>`
unfoldable pub is_pair : ℕ → ℕ → Bool
is_pair a b = a == b && (a == b'&' || a == b'|' || a == b'>')

abbrev pub push_token : Text → Lexer → Lexer
push_token t l = record l { tokens = l.tokens ++ t ∷ [] }

-- `if !cur.is_empty() { tokens.push(cur.clone()); cur.clear(); }`
abbrev pub flush_cur : Lexer → Lexer
flush_cur l = if is_empty l.cur then l else record l { tokens = l.tokens ++ l.cur ∷ []; cur = [] }

abbrev pub push_char : ℕ → Lexer → Lexer
push_char c l = record l { cur = l.cur ++ c ∷ [] }

-- the `match ch` at the head of the loop; the quote characters are 39 and 34, the backslash 92
unfoldable pub step_plain : Lexer → ℕ → Lexer
unfolding is_operator
step_plain l c =
    let unquoted = not l.single_quote && not l.double_quote in
    if c == 92 && not l.single_quote
    then record l { mode = escaped }
    else if c == 39 && not l.double_quote
    then record l { single_quote = not l.single_quote }
    else if c == 34 && not l.single_quote
    then record l { double_quote = not l.double_quote }
    else if c == b'$' && not l.single_quote
    then record l { mode = naming [] }
    else if (c == b' ' || c == 9) && unquoted
    then flush_cur l
    else if is_operator c && unquoted
    then record (flush_cur l) { mode = operator c }
    else push_char c l

module _ (env : Dict Text Text) where
  -- behind the name: `$` alone, or the variable's value
  unfoldable pub expand : Text → Lexer → Lexer
  unfolding lookup
  expand name l = record l {
    mode = plain;
    cur = l.cur ++ (if is_empty name then b'$' ∷ [] else get_or (lookup name env) []);
  }

  -- one character, in the mode
  unfoldable pub step_in : Mode → Lexer → ℕ → Lexer
  unfolding expand step_plain is_name_char is_pair
  step_in plain l c = step_plain l c
  step_in escaped l c = record (push_char c l) { mode = plain }
  step_in (naming name) l c =
      if is_name_char c
      then record l { mode = naming (name ++ c ∷ []) }
      else step_plain (expand name l) c
  step_in (operator a) l c =
      if is_pair a c
      then record (push_token (a ∷ c ∷ []) l) { mode = plain }
      else step_plain (record (push_token (a ∷ []) l) { mode = plain }) c

  unfoldable pub step : Lexer → ℕ → Lexer
  unfolding step_in
  step l c = step_in l.mode l c

  -- the end of the input, in the mode
  unfoldable pub finish_in : Mode → Lexer → Lexer
  unfolding expand
  finish_in plain l = l
  finish_in escaped l = l
  finish_in (naming name) l = expand name l
  finish_in (operator a) l = push_token (a ∷ []) l

  -- behind the loop
  unfoldable pub finish : Lexer → Result ShellError (List Text)
  unfolding finish_in
  finish l =
      let l' = finish_in l.mode l in
      if l'.single_quote || l'.double_quote
      then err (parse_error (text "unterminated quote"))
      else ok (flush_cur l').tokens

  unfoldable pub tokenize : Text → Result ShellError (List Text)
  unfolding step finish
  tokenize input = finish (foldl step start input)
