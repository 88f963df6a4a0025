-- ===== src/Shell/Parser.antt =====
-- ssh-hunt/crates/shell/src/lib.rs: `parse_line`, from tokens to segments.
pub mod RoundTrip
use ssh_hunt.Base.Try.{◌>>=◌}
use ssh_hunt.Base.{
  Bool, true, false, Option, none, some, List, [], ◌∷◌, ◌++◌, Text, text, text_eq, Dict, is_empty,
  Result, ok, err, if◌then◌else◌,
}
use ssh_hunt.Shell.Line.{
  ShellError, parse_error, SimpleCommand, ChainOp, always, and_then, or_else, ChainSegment,
  ParsedLine,
}
use ssh_hunt.Shell.Tokens.{tokenize}

-- the cases of `match tokens[i].as_str()`
pub data Kind : Type 0 where
  pipe : Kind
  chain : ChainOp → Kind
  redirect_in : Kind
  redirect_out : Bool → Kind
  word : Kind

unfoldable pub kind_of : Text → Kind
unfolding text_eq
kind_of t =
    if text_eq t (text "|")
    then pipe
    else if text_eq t (text "&&")
    then chain and_then
    else if text_eq t (text "||")
    then chain or_else
    else if text_eq t (text ";")
    then chain always
    else if text_eq t (text ">")
    then redirect_out false
    else if text_eq t (text ">>")
    then redirect_out true
    else if text_eq t (text "<")
    then redirect_in
    else word

-- the local variables of the loop
pub record Parser : Type 0 where
  pub segments : List ChainSegment
  pub current_op : ChainOp
  pub cur_pipeline : List SimpleCommand
  pub cur_words : List Text
  pub stdin : Option Text
  pub stdout : Option (Text × Bool)

abbrev pub start : Parser
start = record {
  segments = [];
  current_op = always;
  cur_pipeline = [];
  cur_words = [];
  stdin = none;
  stdout = none;
}

-- `flush_command`, with its command pushed on the pipeline if there is one
abbrev pub flush_words : List Text → Parser → Parser
flush_words [] p = p
flush_words (program ∷ args) p = record p {
  cur_pipeline =
      p.cur_pipeline
      ++ record { program = program; args = args; stdin = p.stdin; stdout = p.stdout } ∷ [];
  cur_words = [];
  stdin = none;
  stdout = none;
}

abbrev pub flush_command : Parser → Parser
flush_command p = flush_words p.cur_words p

abbrev pub push_segment : Parser → Parser
push_segment p = record p {
  segments =
      p.segments
      ++ record { op = p.current_op; pipeline = record { commands = p.cur_pipeline } } ∷ [];
  cur_pipeline = [];
}

-- the case of `|`
unfoldable pub on_pipe : Parser → Result ShellError Parser
on_pipe p =
    if is_empty p.cur_words
    then err (parse_error (text "unexpected pipe"))
    else ok (flush_command p)

-- the case of `&&`, `||` and `;`, behind its call of `flush_command`, and whole
unfoldable pub end_segment : ChainOp → Parser → Result ShellError Parser
end_segment op p =
    if is_empty p.cur_pipeline
    then err (parse_error (text "empty command chain segment"))
    else ok (record (push_segment p) { current_op = op })

unfoldable pub on_chain : ChainOp → Parser → Result ShellError Parser
unfolding end_segment
on_chain op p = end_segment op (flush_command p)

-- the case of `<`, `>` and `>>`, with the token behind
abbrev pub redirect : Kind → Text → Parser → Parser
redirect (redirect_out append) target p = record p { stdout = some (target, append) }
redirect _ target p = record p { stdin = some target }

abbrev pub push_word : Text → Parser → Parser
push_word t p = record p { cur_words = p.cur_words ++ t ∷ [] }

-- the loop over the tokens; a redirection takes the next one
unfoldable pub parse_tokens : Parser → List Text → Result ShellError Parser
parse_tokens p [] = ok p
parse_tokens p (t ∷ []) = elim (kind_of t) [
  | pipe ↦ on_pipe p
  | chain op ↦ on_chain op p
  | redirect_in ↦ err (parse_error (text "missing redirect target"))
  | redirect_out append ↦ err (parse_error (text "missing redirect target"))
  | word ↦ ok (push_word t p)
]
parse_tokens p (t ∷ next ∷ rest) = elim (kind_of t) [
  | pipe ↦ elim (on_pipe p) [ ok p' ↦ parse_tokens p' (next ∷ rest) | err e ↦ err e ]
  | chain op ↦ elim (on_chain op p) [ ok p' ↦ parse_tokens p' (next ∷ rest) | err e ↦ err e ]
  | redirect_in ↦ parse_tokens (redirect redirect_in next p) rest
  | redirect_out append ↦ parse_tokens (redirect (redirect_out append) next p) rest
  | word ↦ parse_tokens (push_word t p) (next ∷ rest)
]

-- behind the loop
unfoldable pub last_segment : Parser → ParsedLine
last_segment p = record {
  segments = (if is_empty p.cur_pipeline then p else push_segment p).segments;
}

abbrev pub finish : Parser → ParsedLine
finish p = last_segment (flush_command p)

unfoldable pub parse_all : List Text → Result ShellError ParsedLine
parse_all tokens =
    if is_empty tokens
    then ok (record { segments = [] })
    else do p ← parse_tokens start tokens; ok (finish p)

unfoldable pub parse_line : Dict Text Text → Text → Result ShellError ParsedLine
unfolding parse_all parse_tokens kind_of on_pipe on_chain last_segment
parse_line env input = do tokens ← tokenize env input; parse_all tokens
