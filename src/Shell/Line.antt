-- ===== src/Shell/Line.antt =====
-- ssh-hunt/crates/shell/src/lib.rs: what a line of input is parsed into, and the result of a command.
use ssh_hunt.Base.{Bool, Option, List, [], Text}
use ssh_hunt.Base.Int.{ℤ, pos}

pub data ShellError : Type 0 where
  parse_error : Text → ShellError

pub record SimpleCommand : Type 0 where
  pub program : Text
  pub args : List Text
  pub stdin : Option Text
  pub stdout : Option (Text × Bool)

pub record Pipeline : Type 0 where
  pub commands : List SimpleCommand

pub data ChainOp : Type 0 where
  always and_then or_else : ChainOp

pub record ChainSegment : Type 0 where
  pub op : ChainOp
  pub pipeline : Pipeline

pub record ParsedLine : Type 0 where
  pub segments : List ChainSegment

-- `exit_code` is an `i32`; it is only compared and printed here.
pub record CommandResult : Type 0 where
  pub stdout : Text
  pub stderr : Text
  pub exit_code : ℤ

-- `CommandResult::ok` and `CommandResult::err`
abbrev pub result_ok : Text → CommandResult
result_ok out = record { stdout = out; stderr = []; exit_code = pos 0 }

abbrev pub result_err : Text → ℤ → CommandResult
result_err message code = record { stdout = []; stderr = message; exit_code = code }
