-- ===== src/Shell/Script/Context.antt =====
-- `ShellFlavour.script` of shell/_flavour.py.
use hostctl.Prelude.{
  Bool, true, false, Option, none, some, List, [], ◌∷◌, ◌++◌, ◌&&◌, not, if◌then◌else◌, any, null,
  map, filter_by, Result, ok, err, value_error, ◌>>=◌,
}
use hostctl.Shell.Text.{Text}
use hostctl.Provider.Failover.{is_environment_name}
use hostctl.Shell.Script.{
  ShellFlavour, ShellToken, Part, env_part, cwd_part, command_part, CwdGuard, by_operator,
  by_statement, and_then,
}
use hostctl.Shell.Script.Joining.{separator_after, join}

-- `rendered[name]`
unfoldable pub rendered : Text → Text → Text → Part → Text
rendered env changed command env_part = env
rendered env changed command cwd_part = changed
rendered env changed command command_part = command

-- `[rendered[name] for name in self.context_order if rendered[name]]`
unfoldable pub kept : List Text → List Text
kept texts = filter_by (λ s. not (null s)) texts

unfoldable pub is_by_operator : CwdGuard → Bool
is_by_operator by_operator = true
is_by_operator by_statement = false

unfoldable pub is_cwd_part : Part → Bool
is_cwd_part cwd_part = true
is_cwd_part _ = false

unfoldable pub is_command_part : Part → Bool
is_command_part command_part = true
is_command_part _ = false

-- `"cwd" in self.context_order and "command" in self.context_order`
unfoldable pub has_both_parts : List Part → Bool
unfolding is_cwd_part is_command_part
has_both_parts order = any is_cwd_part order && any is_command_part order

module _ (f : ShellFlavour) where
  -- `environment_script`
  unfoldable pub environment_script : List (Text × Text) → Result Text
  unfolding is_environment_name
  environment_script [] = ok []
  environment_script ((key, value) ∷ env) =
      if not (is_environment_name key) then err value_error else do
        assignment ← f.environment_assignment key value
        rest ← environment_script env
        ok (if null env then assignment else assignment ++ (f.command_separator ++ rest))

  -- `join_cwd`
  unfoldable pub join_cwd : Text → Text → Result Text
  join_cwd changed command = do
    both ← f.operator and_then
    ok (changed ++ (both ++ f.group command))

  -- The loop over the parts of `script`.
  unfoldable pub add_parts : Text → List Text → Text
  unfolding separator_after
  add_parts script [] = script
  add_parts script (part ∷ parts) =
      add_parts (if null script then part else script ++ (separator_after f script ++ part)) parts

  -- `script` from its rendered parts on.
  unfoldable pub assembled : Bool → Text → Text → Text → Text
  unfolding rendered kept add_parts
  assembled epilogue env changed command =
      let script = add_parts [] (kept (map (rendered env changed command) f.context_order)) in
      if not (null script) && epilogue then script ++ f.execution_epilogue else script

  -- `change_directory(cwd) if cwd is not None else ""`
  unfoldable pub changed_directory : Option Text → Result Text
  changed_directory none = ok []
  changed_directory (some cwd) = f.change_directory cwd

  -- `cwd is not None and command and self.cwd_guard == "operator"`
  unfoldable pub is_guarded : Option Text → Text → Bool
  unfolding is_by_operator
  is_guarded none command = false
  is_guarded (some cwd) command = not (null command) && is_by_operator f.cwd_guard

  -- `script` from its rendered parts on, the directory change put before the command.
  unfoldable pub in_directory : Option Text → Bool → Text → Text → Text → Result Text
  unfolding is_guarded has_both_parts join_cwd assembled
  in_directory cwd epilogue env changed command =
      if not (is_guarded cwd command)
      then ok (assembled epilogue env changed command)
      else if not (has_both_parts f.context_order)
      then err value_error
      else join_cwd changed command >>= λ guarded. ok (assembled epilogue env guarded [])

  -- `script`
  unfoldable pub script : List ShellToken → Option Text → List (Text × Text) → Bool → Result Text
  unfolding join changed_directory environment_script in_directory
  script cmds cwd env epilogue = do
    command ← join f cmds
    changed ← changed_directory cwd
    environment ← environment_script env
    in_directory cwd epilogue environment changed command
