-- ===== src/Shell/Script/Joining.antt =====
-- `ShellFlavour.join` of shell/_flavour.py.
use hostctl.Prelude.{
  Bool, true, false, Option, none, some, List, [], ◌∷◌, ◌++◌, ◌&&◌, ◌||◌, not, if◌then◌else◌, null,
  Result, ok, err, value_error, ◌>>=◌,
}
use mathlib.Core.List.{flatten}
use hostctl.Shell.Text.{Text, among, same_text}
use hostctl.Shell.Script.{
  ShellFlavour, ShellToken, ShellOperator, Command, operator_token, command_token, redirecting_to,
  appending_to, command_text, redirect_operand,
}

-- The state of the loop of `join`.
pub record Joining : Type 0 where
  pub result : List Text
  pub pending : Text
  pub redirecting : Option ShellOperator
  pub has_command : Bool
  pub expecting_command : Bool

-- `redirecting` after an operator.
unfoldable pub redirection : ShellOperator → Option ShellOperator
redirection redirecting_to = some redirecting_to
redirection appending_to = some appending_to
redirection _ = none

-- `result[-1]`; the empty text where Python raises, a case that `join` does not reach.
unfoldable pub last : List Text → Text
last [] = []
last (s ∷ []) = s
last (s ∷ t ∷ ts) = last (t ∷ ts)

module _ (f : ShellFlavour) where
  -- `_separator_after`
  unfoldable pub separator_after : Text → Text
  separator_after command =
      if f.multiline_source && among 10 command then f.line_terminator else f.command_separator

  -- The state after a command or a redirection has been added.
  unfoldable pub added : Joining → List Text → Joining
  added st pieces = record {
    result = st.result ++ pieces;
    pending = f.command_separator;
    redirecting = none;
    has_command = true;
    expecting_command = false;
  }

  -- What is put between the last piece and the next command.
  unfoldable pub link : Joining → Text
  unfolding separator_after last
  link st =
      if same_text st.pending f.command_separator
      then separator_after (last st.result)
      else st.pending

  -- `if not operand: continue`, or the redirection is added.
  unfoldable pub redirected : Joining → ShellOperator → Command → Text → Result Joining
  unfolding added
  redirected st op target operand =
      if null operand
      then ok st
      else f.redirect op target operand >>= λ text. ok (added st (text ∷ []))

  -- `if not command: continue`, or the command is added.
  unfoldable pub placed : Joining → Text → Result Joining
  unfolding added link
  placed st command =
      if null command
      then ok st
      else ok (added st (if st.has_command then link st ∷ command ∷ [] else command ∷ []))

  -- The branch of `join` for a command, by `redirecting`.
  unfoldable pub join_command : Joining → Command → Option ShellOperator → Result Joining
  unfolding redirect_operand command_text redirected placed
  join_command st c (some op) = redirect_operand f c >>= redirected st op c
  join_command st c none = command_text f c >>= placed st

  -- One pass of the loop of `join`.
  unfoldable pub join_step : Joining → ShellToken → Result Joining
  unfolding redirection join_command
  join_step st (operator_token op) =
      if not st.has_command || st.expecting_command then err value_error else do
        text ← f.operator op
        ok (record st { pending = text; redirecting = redirection op; expecting_command = true })
  join_step st (command_token c) = join_command st c st.redirecting

  unfoldable pub join_loop : Joining → List ShellToken → Result Joining
  unfolding join_step
  join_loop st [] = ok st
  join_loop st (t ∷ ts) = join_step st t >>= λ st'. join_loop st' ts

  abbrev pub start : Joining
  start = record {
    result = [];
    pending = f.command_separator;
    redirecting = none;
    has_command = false;
    expecting_command = false;
  }

  -- `join`, after its loop
  unfoldable pub finished : Joining → Result Text
  finished st = if st.expecting_command then err value_error else ok (flatten st.result)

  -- `join`
  unfoldable pub join : List ShellToken → Result Text
  unfolding join_loop finished
  join tokens = join_loop start tokens >>= finished
