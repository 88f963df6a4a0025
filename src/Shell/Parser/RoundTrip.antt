-- ===== src/Shell/Parser/RoundTrip.antt =====
-- The parser reads back the tokens of any line.
use ssh_hunt.Base.Try.{◌>>=◌}
use ssh_hunt.Base.{
  ◌≡◌, refl, ap, sym, ◌∙◌, Bool, true, false, Option, none, some, List, [], ◌∷◌, ◌++◌, append_assoc,
  append-nil, Text, text, All, is_empty, Result, ok, arith,
}
use ssh_hunt.Shell.Line.{
  ShellError, SimpleCommand, ChainOp, always, and_then, or_else, ChainSegment, ParsedLine,
}
use ssh_hunt.Shell.Parser.{
  pipe, chain, word, kind_of, Parser, start, on_pipe, on_chain, parse_tokens, parse_all,
  flush_command, push_word, finish, end_segment, last_segment,
}

print_in : Option Text → List Text
print_in none = []
print_in (some target) = text "<" ∷ target ∷ []

print_out : Option (Text × Bool) → List Text
print_out none = []
print_out (some (target, false)) = text ">" ∷ target ∷ []
print_out (some (target, true)) = text ">>" ∷ target ∷ []

abbrev print_command : SimpleCommand → List Text
print_command c = c.program ∷ (c.args ++ (print_in c.stdin ++ print_out c.stdout))

print_pipeline : List SimpleCommand → List Text
print_pipeline [] = []
print_pipeline (c ∷ []) = print_command c
print_pipeline (c ∷ d ∷ cs) = print_command c ++ (text "|" ∷ print_pipeline (d ∷ cs))

abbrev print_op : ChainOp → Text
print_op always = text ";"
print_op and_then = text "&&"
print_op or_else = text "||"

-- The tokens of a line.
pub print_segments : List ChainSegment → List Text
unfolding print_pipeline print_in print_out
print_segments [] = []
print_segments (s ∷ []) = print_pipeline s.pipeline.commands
print_segments (s ∷ t ∷ ss) =
    print_pipeline s.pipeline.commands ++ (print_op t.op ∷ print_segments (t ∷ ss))

abbrev pub IsWord : Text → Type 0
IsWord t = kind_of t ≡ word

-- The program and the arguments are no operators; the targets of redirections may be anything.
pub record IsCommand (c : SimpleCommand) : Type 0 where
  pub program_word : IsWord c.program
  pub args_words : All IsWord c.args

pub record IsSegment (s : ChainSegment) : Type 0 where
  pub some_command : is_empty s.pipeline.commands ≡ false
  pub commands : All IsCommand s.pipeline.commands

-- The parser between two commands.
abbrev between : List ChainSegment → ChainOp → List SimpleCommand → Parser
between segments op pipeline = record {
  segments = segments;
  current_op = op;
  cur_pipeline = pipeline;
  cur_words = [];
  stdin = none;
  stdout = none;
}

read_word :
    (p : Parser) (t : Text) (rest : List Text)
    → IsWord t
    → parse_tokens p (t ∷ rest) ≡ parse_tokens (push_word t p) rest
unfolding parse_tokens
read_word p t [] h = ground arith
read_word p t (n ∷ rest) h = ground arith

read_pipe :
    (p p' : Parser) (t : Text) (rest : List Text)
    → kind_of t ≡ pipe
    → on_pipe p ≡ ok p'
    → parse_tokens p (t ∷ rest) ≡ parse_tokens p' rest
unfolding parse_tokens
read_pipe p p' t [] k h = ground arith
read_pipe p p' t (n ∷ rest) k h = ground arith

read_chain :
    (p p' : Parser) (op : ChainOp) (t : Text) (rest : List Text)
    → kind_of t ≡ chain op
    → on_chain op p ≡ ok p'
    → parse_tokens p (t ∷ rest) ≡ parse_tokens p' rest
unfolding parse_tokens
read_chain p p' op t [] k h = ground arith
read_chain p p' op t (n ∷ rest) k h = ground arith

kind_of-print_op : (op : ChainOp) → kind_of (print_op op) ≡ chain op
unfolding kind_of
kind_of-print_op always = refl
kind_of-print_op and_then = refl
kind_of-print_op or_else = refl

kind_of_bar : kind_of (text "|") ≡ pipe
unfolding kind_of
kind_of_bar = refl

read_words :
    (p : Parser) (ws rest : List Text)
    → All IsWord ws
    → parse_tokens p (ws ++ rest) ≡ parse_tokens (record p { cur_words = p.cur_words ++ ws }) rest
read_words p [] rest h = rw append-nil
read_words p (w ∷ ws) rest h =
    rw (read_word p w (ws ++ rest) h.0, read_words (push_word w p) ws rest h.1, append_assoc)

module _ (segments : List ChainSegment) (op : ChainOp) where
  read_targets :
      (pipeline : List SimpleCommand) (words : List Text) (i : Option Text)
      (o : Option (Text × Bool)) (rest : List Text)
      → parse_tokens
          (record (between segments op pipeline) { cur_words = words })
          ((print_in i ++ print_out o) ++ rest)
        ≡ parse_tokens
            (record (between segments op pipeline) { cur_words = words; stdin = i; stdout = o })
            rest
  unfolding parse_tokens print_in print_out kind_of
  read_targets pipeline words none none rest = refl
  read_targets pipeline words none (some (f, false)) rest = refl
  read_targets pipeline words none (some (f, true)) rest = refl
  read_targets pipeline words (some g) none rest = refl
  read_targets pipeline words (some g) (some (f, false)) rest = refl
  read_targets pipeline words (some g) (some (f, true)) rest = refl

  -- The tokens of a command leave its parts with the parser.
  abbrev loaded : List SimpleCommand → SimpleCommand → Parser
  loaded pipeline c = record (between segments op pipeline) {
    cur_words = c.program ∷ c.args;
    stdin = c.stdin;
    stdout = c.stdout;
  }

  read_command :
      (pipeline : List SimpleCommand) (c : SimpleCommand) (rest : List Text)
      → IsCommand c
      → parse_tokens (between segments op pipeline) (print_command c ++ rest)
        ≡ parse_tokens (loaded pipeline c) rest
  read_command pipeline c rest h =
      read_word (between segments op pipeline) c.program _ h.program_word
      ∙ rw (append_assoc c.args (print_in c.stdin ++ print_out c.stdout) rest) (
          read_words (push_word c.program (between segments op pipeline)) c.args
            ((print_in c.stdin ++ print_out c.stdout) ++ rest) h.args_words
          ∙ read_targets pipeline (c.program ∷ c.args) c.stdin c.stdout rest)

  -- What the parser holds at the end of a pipeline's tokens.
  read_pipeline :
      (pipeline : List SimpleCommand) (c : SimpleCommand) (cs : List SimpleCommand)
      → All IsCommand (c ∷ cs)
      → (q : Parser) × ((rest : List Text)
          → parse_tokens (between segments op pipeline) (print_pipeline (c ∷ cs) ++ rest)
            ≡ parse_tokens q rest)
        × (flush_command q ≡ between segments op (pipeline ++ c ∷ cs))
  unfolding print_pipeline
  read_pipeline pipeline c [] h =
      (loaded pipeline c, λ rest. read_command pipeline c rest h.0, refl)
  read_pipeline pipeline c (d ∷ cs) h =
      let (q, reads, flushed) = read_pipeline (pipeline ++ c ∷ []) d cs h.1 in
      (
        q,
        λ rest.
            ap (parse_tokens (between segments op pipeline))
              (append_assoc (print_command c) (text "|" ∷ print_pipeline (d ∷ cs)) rest)
            ∙ read_command pipeline c (text "|" ∷ (print_pipeline (d ∷ cs) ++ rest)) h.0
            ∙ read_pipe (loaded pipeline c) (between segments op (pipeline ++ c ∷ [])) (text "|")
                (print_pipeline (d ∷ cs) ++ rest) kind_of_bar (unfold on_pipe in refl)
            ∙ reads rest,
        flushed ∙ ap (between segments op) (append_assoc pipeline (c ∷ []) (d ∷ cs)),
      )

  read-All :
      (cs : List SimpleCommand)
      → is_empty cs ≡ false
      → All IsCommand cs
      → (q : Parser) × ((rest : List Text)
          → parse_tokens (between segments op []) (print_pipeline cs ++ rest) ≡ parse_tokens q rest)
        × (flush_command q ≡ between segments op cs)
  read-All [] busy h = absurd (cc)
  read-All (c ∷ cs) busy h = read_pipeline [] c cs h

  ended :
      (next : ChainOp) (q : Parser) (cs : List SimpleCommand)
      → is_empty cs ≡ false
      → flush_command q ≡ between segments op cs
      → on_chain next q
        ≡ ok (
            between
              (segments ++ record { op = op; pipeline = record { commands = cs } } ∷ [])
              next
              [])
  unfolding on_chain
  ended next q cs busy e = ap (end_segment next) e ∙ rw busy

  finished :
      (q : Parser) (cs : List SimpleCommand)
      → is_empty cs ≡ false
      → flush_command q ≡ between segments op cs
      → finish q ≡ record {
        segments = segments ++ record { op = op; pipeline = record { commands = cs } } ∷ [];
      }
  unfolding last_segment
  finished q cs busy e = ap last_segment e ∙ rw busy

abbrev finishing : Result ShellError Parser → Result ShellError ParsedLine
finishing r = do p ← r; ok (finish p)

parse_nothing : (p : Parser) → parse_tokens p [] ≡ ok p
unfolding parse_tokens
parse_nothing p = refl

read_segments :
    (before : List ChainSegment) (s : ChainSegment) (ss : List ChainSegment)
    → All IsSegment (s ∷ ss)
    → finishing (parse_tokens (between before s.op []) (print_segments (s ∷ ss)))
      ≡ ok (record { segments = before ++ s ∷ ss })
unfolding print_segments
read_segments before s [] h =
    let cs = s.pipeline.commands in
    let (q, reads, flushed) = read-All before s.op cs h.0.some_command h.0.commands in
    ap (λ ts. finishing (parse_tokens (between before s.op []) ts))
      (sym (append-nil (print_pipeline cs)))
    ∙ ap finishing (reads [] ∙ parse_nothing q)
    ∙ ap {B = Result ShellError ParsedLine} ok (finished before s.op q cs h.0.some_command flushed)
read_segments before s (t ∷ ss) h =
    let cs = s.pipeline.commands in
    let (q, reads, flushed) = read-All before s.op cs h.0.some_command h.0.commands in
    let more = print_segments (t ∷ ss) in
    ap finishing (
      reads (print_op t.op ∷ more)
      ∙ read_chain q _ t.op (print_op t.op) more (kind_of-print_op t.op)
          (ended before s.op t.op q cs h.0.some_command flushed))
    ∙ read_segments (before ++ s ∷ []) t ss h.1
    ∙ ap {B = Result ShellError ParsedLine} (λ l. ok (record { segments = l }))
        (append_assoc before (s ∷ []) (t ∷ ss))

parse_all-finishing : (ts : List Text) → parse_all ts ≡ finishing (parse_tokens start ts)
unfolding parse_all
parse_all-finishing [] = unfold parse_tokens last_segment in refl
parse_all-finishing (t ∷ ts) = refl

-- The parser reads back the tokens of every line whose first segment runs always, whose pipelines
-- are not empty, and whose programs and arguments are no operators.
pub parse_all-print_segments :
    (s : ChainSegment) (ss : List ChainSegment)
    → All IsSegment (s ∷ ss)
    → s.op ≡ always
    → parse_all (print_segments (s ∷ ss)) ≡ ok (record { segments = s ∷ ss })
parse_all-print_segments s ss h first =
    parse_all-finishing (print_segments (s ∷ ss))
    ∙ ap (λ op. finishing (parse_tokens (between [] op []) (print_segments (s ∷ ss)))) (sym first)
    ∙ read_segments [] s ss h
