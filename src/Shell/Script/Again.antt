-- ===== src/Shell/Script/Again.antt =====
-- `script` of shell/_flavour.py: what it gives can be handed to it again as raw source.
use hostctl.Prelude.{
  Bool, false, ◌≡◌, refl, ap, Option, none, List, [], ◌∷◌, append-nil, ok, WhenOk-of, filter_by,
}
use mathlib.Core.List.{flatten}
use hostctl.Shell.Text.{Text}
use hostctl.Shell.Script.{
  ShellFlavour, ShellToken, command_token, raw, raw_source, command_text, env_part, cwd_part,
  command_part,
}
use hostctl.Shell.Script.Joining.{added, placed, join_command, join_step, join_loop, finished, join}
use hostctl.Shell.Script.Context.{
  environment_script, add_parts, rendered, kept, assembled, changed_directory, is_guarded,
  in_directory, script,
}
use hostctl.Shell.Script.Clean.{IsClean, CleanFlavour}
use hostctl.Shell.Script.Visible.{script-IsClean}

module _ (f : ShellFlavour) where
  join-raw : (s : Text) → IsClean s → join f (command_token (raw s) ∷ []) ≡ ok s
  unfolding join join_loop join_step join_command command_text raw_source placed added finished
      flatten
  join-raw [] h = refl
  join-raw (c ∷ s) h = rw h (ap ok (append-nil (c ∷ s)))

  alone :
      (s : Text)
      → f.context_order ≡ env_part ∷ cwd_part ∷ command_part ∷ []
      → assembled f false [] [] s ≡ s
  unfolding assembled kept rendered add_parts filter_by
  alone [] h = rw h refl
  alone (c ∷ s) h = rw h refl

  script-raw :
      (s : Text)
      → f.context_order ≡ env_part ∷ cwd_part ∷ command_part ∷ []
      → IsClean s
      → script f (command_token (raw s) ∷ []) none [] false ≡ ok s
  unfolding script changed_directory environment_script in_directory is_guarded
  script-raw s ho h = rw (join-raw s h) (ap ok (alone s ho))

  -- For a flavour that renders no hidden control characters and puts environment, directory and command
  -- in this order, a script rendered again as raw source, without its epilogue, is the same script.
  pub script-again :
      (cmds : List ShellToken) (cwd : Option Text) (env : List (Text × Text)) (epilogue : Bool)
      (s : Text)
      → CleanFlavour f
      → f.context_order ≡ env_part ∷ cwd_part ∷ command_part ∷ []
      → script f cmds cwd env epilogue ≡ ok s
      → script f (command_token (raw s) ∷ []) none [] false ≡ ok s
  script-again cmds cwd env epilogue s k ho h =
      script-raw s ho (WhenOk-of IsClean _ s (script-IsClean f k cmds cwd env epilogue) h)
