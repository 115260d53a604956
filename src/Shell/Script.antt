-- ===== src/Shell/Script.antt =====
-- `ShellFlavour` of shell/_flavour.py: commands, operators, environment and directory become one
-- script. What a flavour overrides is a field.
pub mod Joining
pub mod Context
pub mod Shifted
pub mod Settled
pub mod Compose
pub mod Placement
pub mod Flavours
pub mod Clean
pub mod Visible
pub mod ShVisible
pub mod Again
pub mod CwdOperand
mod Tests
use hostctl.Prelude.{
  Bool, true, false, Option, none, some, List, [], ◌∷◌, ◌++◌, ltb, ◌==◌, ◌&&◌, ◌||◌, not,
  if◌then◌else◌, any, null, map, filter_by, Error, Result, ok, err, type_error, value_error, ◌>>=◌,
  or_value_error,
}
use mathlib.Core.List.{flatten}
use hostctl.Shell.Text.{Text, space, among, same_text, text_value}
use hostctl.Shell.Cmd.Target.{ShellTarget, shell}
use hostctl.Provider.Failover.{is_environment_name}

-- `ShellOperator` of shell/_vocabulary.py
pub data ShellOperator : Type 0 where
  pipe and_then or_else redirecting_to appending_to sequence : ShellOperator

-- A member of a structured command, a `PSParam` or a value, with its text.
pub data Element : Type 0 where
  parameter : Text → Element
  word : Text → Element

-- `Command`, by the cases that `command_text` tells apart.
pub data Command : Type 0 where
  exec : Text → List Text → Command
  cmdlet ps_param : Command
  path_like : Text → Command
  raw : Text → Command
  structured : List Element → Command
  scalar : Text → Command

pub data ShellToken : Type 0 where
  operator_token : ShellOperator → ShellToken
  command_token : Command → ShellToken

-- A name in `context_order`.
pub data Part : Type 0 where
  env_part cwd_part command_part : Part

-- `cwd_guard`
pub data CwdGuard : Type 0 where
  by_operator by_statement : CwdGuard

pub record ShellFlavour : Type 0 where
  pub command_separator : Text
  pub line_terminator : Text
  pub multiline_source : Bool
  pub execution_epilogue : Text
  pub context_order : List Part
  pub cwd_guard : CwdGuard
  pub argument : ShellTarget → Text → Result Text
  pub structured_command : List Element → Result Text
  pub cmdlet_command : Result Text
  pub operator : ShellOperator → Result Text
  pub redirect : ShellOperator → Command → Text → Result Text
  pub environment_assignment : Text → Text → Result Text
  pub change_directory : Text → Result Text
  pub group : Text → Text

-- `_raw_source`
unfoldable pub raw_source : Text → Result Text
raw_source value =
    if any (λ c. (ltb c 32 && not (among c (9 ∷ 10 ∷ 13 ∷ []))) || c == 127) value
    then err value_error
    else ok value

-- Is a member a `PSParam`?
unfoldable pub is_parameter : Element → Bool
is_parameter (parameter s) = true
is_parameter (word s) = false

-- `" ".join(self.argument(value, target=target) for value in values)`, with a space before each.
unfoldable pub spaced_arguments : (Text → Result Text) → List Element → Result Text
spaced_arguments quote [] = ok []
spaced_arguments quote (parameter s ∷ values) = err type_error
spaced_arguments quote (word s ∷ values) = do
  quoted ← quote s
  rest ← spaced_arguments quote values
  ok (space ∷ quoted ++ rest)

-- `structured_command`, of a flavour that overrides neither it nor `command_target`, and has no prefix.
unfoldable pub structured_command_by :
    (ShellTarget → Text → Result Text) → ShellTarget → List Element → Result Text
unfolding is_parameter spaced_arguments
structured_command_by argument target [] = ok []
structured_command_by argument target (parameter s ∷ values) = err type_error
structured_command_by argument target (word s ∷ values) =
    if any is_parameter values then err type_error else do
      head ← argument shell s
      rest ← spaced_arguments (argument target) values
      ok (head ++ rest)

module _ (f : ShellFlavour) where
  -- `command_text`
  unfoldable pub command_text : Command → Result Text
  unfolding raw_source text_value
  command_text (exec program args) = err type_error
  command_text cmdlet = f.cmdlet_command
  command_text ps_param = err type_error
  command_text (path_like s) = f.structured_command (word s ∷ [])
  command_text (raw s) = raw_source s
  command_text (structured []) = err value_error
  command_text (structured (v ∷ values)) = f.structured_command (v ∷ values)
  command_text (scalar s) = or_value_error (text_value s)

  -- `redirect_operand`
  unfoldable pub redirect_operand : Command → Result Text
  unfolding raw_source
  redirect_operand (raw s) = raw_source s
  redirect_operand (path_like s) = f.argument shell s
  redirect_operand (structured (word s ∷ [])) = f.argument shell s
  redirect_operand (structured (parameter s ∷ [])) = f.argument shell s
  redirect_operand (structured _) = err value_error
  redirect_operand _ = err type_error
