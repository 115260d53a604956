-- ===== src/Shell/Script/Visible.antt =====
-- `script` of shell/_flavour.py: no script holds a control character that would hide text from a
-- terminal or a log.
use hostctl.Prelude.{
  Bool, refl, Option, none, some, List, [], ◌∷◌, ◌++◌, ◌&&◌, not, if◌then◌else◌, null, map,
  filter_by, Bool-cases, WhenOk, WhenOk-then, inl, inr, All,
}
use hostctl.Shell.Text.{Text}
use hostctl.Provider.Failover.{is_environment_name}
use hostctl.Shell.Script.{
  ShellFlavour, ShellToken, Part, env_part, cwd_part, command_part, and_then,
}
use hostctl.Shell.Script.Joining.{separator_after, join}
use hostctl.Shell.Script.Context.{
  environment_script, join_cwd, add_parts, rendered, kept, assembled, changed_directory, is_guarded,
  has_both_parts, in_directory, script,
}
use hostctl.Shell.Script.Clean.{
  IsClean, clean_both, CleanFlavour, separator_after-IsClean, join-IsClean,
}

module _ (f : ShellFlavour) (k : CleanFlavour f) where
  environment_script-IsClean :
      (env : List (Text × Text)) → WhenOk IsClean (environment_script f env)
  unfolding environment_script
  environment_script-IsClean [] = refl
  environment_script-IsClean ((key, value) ∷ env) = elim (Bool-cases (is_environment_name key)) [
    | inl e ↦ rw e (
        WhenOk-then IsClean IsClean _
          (λ s hs.
            WhenOk-then IsClean IsClean _ (λ t ht. entries env s t hs ht) (environment_script f env)
              (environment_script-IsClean env))
          (f.environment_assignment key value) (k.assignment key value e))
    | inr e ↦ rw e tt
  ]
    where
      entries :
          (env : List (Text × Text)) (s t : Text)
          → IsClean s
          → IsClean t
          → IsClean (if null env then s else s ++ (f.command_separator ++ t))
      entries [] s t hs ht = hs
      entries (e ∷ env) s t hs ht =
          clean_both s _ hs (clean_both f.command_separator t k.separator ht)

  add_parts-IsClean :
      (s : Text) (parts : List Text) → IsClean s → All IsClean parts → IsClean (add_parts f s parts)
  unfolding add_parts
  add_parts-IsClean s [] hs hp = hs
  add_parts-IsClean s (part ∷ parts) hs hp = elim (Bool-cases (null s)) [
    | inl e ↦ rw e (add_parts-IsClean part parts hp.0 hp.1)
    | inr e ↦ rw e (
        add_parts-IsClean _ parts
          (clean_both s _ hs
            (clean_both (separator_after f s) part (separator_after-IsClean f k s) hp.0))
          hp.1)
  ]

  kept-IsClean : (parts : List Text) → All IsClean parts → All IsClean (kept parts)
  unfolding kept filter_by
  kept-IsClean [] h = tt
  kept-IsClean ([] ∷ parts) h = kept-IsClean parts h.1
  kept-IsClean ((c ∷ s) ∷ parts) h = (h.0, kept-IsClean parts h.1)

  module _ (env changed command : Text) (he : IsClean env) (hd : IsClean changed)
      (hc : IsClean command) where
    rendered-IsClean : (order : List Part) → All IsClean (map (rendered env changed command) order)
    unfolding rendered
    rendered-IsClean [] = tt
    rendered-IsClean (env_part ∷ order) = (he, rendered-IsClean order)
    rendered-IsClean (cwd_part ∷ order) = (hd, rendered-IsClean order)
    rendered-IsClean (command_part ∷ order) = (hc, rendered-IsClean order)

    assembled-IsClean : (epilogue : Bool) → IsClean (assembled f epilogue env changed command)
    unfolding assembled
    assembled-IsClean epilogue = elim (Bool-cases (not (null whole) && epilogue)) [
      | inl e ↦ rw e (clean_both whole f.execution_epilogue whole-IsClean k.epilogue)
      | inr e ↦ rw e whole-IsClean
    ]
      where
        whole : Text
        whole = add_parts f [] (kept (map (rendered env changed command) f.context_order))

        whole-IsClean : IsClean whole
        whole-IsClean =
            add_parts-IsClean [] _ refl (kept-IsClean _ (rendered-IsClean f.context_order))

  changed_directory-IsClean : (cwd : Option Text) → WhenOk IsClean (changed_directory f cwd)
  unfolding changed_directory
  changed_directory-IsClean none = refl
  changed_directory-IsClean (some cwd) = k.directory cwd

  join_cwd-IsClean :
      (changed command : Text)
      → IsClean changed
      → IsClean command
      → WhenOk IsClean (join_cwd f changed command)
  unfolding join_cwd
  join_cwd-IsClean changed command hd hc =
      WhenOk-then IsClean IsClean _
        (λ both hb. clean_both changed _ hd (clean_both both _ hb (k.group command hc)))
        (f.operator and_then) (k.operator and_then)

  in_directory-IsClean :
      (cwd : Option Text) (epilogue : Bool) (env changed command : Text)
      → IsClean env
      → IsClean changed
      → IsClean command
      → WhenOk IsClean (in_directory f cwd epilogue env changed command)
  unfolding in_directory
  in_directory-IsClean cwd epilogue env changed command he hd hc =
      elim (Bool-cases (is_guarded f cwd command)) [
        | inr e ↦ rw e (assembled-IsClean env changed command he hd hc epilogue)
        | inl e ↦ elim (Bool-cases (has_both_parts f.context_order)) [
          | inr o ↦ rw (e, o) tt
          | inl o ↦
              rw (e, o)
                (WhenOk-then IsClean IsClean _
                  (λ guarded hg. assembled-IsClean env guarded [] he hg refl epilogue)
                  (join_cwd f changed command) (join_cwd-IsClean changed command hd hc))
        ]
      ]

  -- If a flavour renders no control characters but tab, newline and carriage return, neither does
  -- `script`, whatever the commands, the directory and the environment are.
  pub script-IsClean :
      (cmds : List ShellToken) (cwd : Option Text) (env : List (Text × Text)) (epilogue : Bool)
      → WhenOk IsClean (script f cmds cwd env epilogue)
  unfolding script
  script-IsClean cmds cwd env epilogue =
      WhenOk-then IsClean IsClean _
        (λ command hc.
          WhenOk-then IsClean IsClean _
            (λ changed hd.
              WhenOk-then IsClean IsClean _
                (λ environment he.
                  in_directory-IsClean cwd epilogue environment changed command he hd hc)
                (environment_script f env) (environment_script-IsClean env))
            (changed_directory f cwd) (changed_directory-IsClean cwd))
        (join f cmds) (join-IsClean f k cmds)
