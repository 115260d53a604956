-- ===== src/Shell/Script/ShVisible.antt =====
-- shell/_posix.py and shell/_fish.py: the scripts of sh, zsh and fish hold no hidden control characters.
use hostctl.Prelude.{
  ℕ, Bool, true, false, ◌≡◌, refl, subst, Option, none, some, List, [], ◌∷◌, ◌++◌, arith, ◌==◌,
  if◌then◌else◌, any, all, null, Result, codes, or_value_error, Bool-cases, Option-cases, WhenOk,
  WhenOk-then, inl, inr,
}
use hostctl.Shell.Text.{Text, among, text_value, replace, tick, quotation, backslash, space}
use hostctl.Shell.Quote.{
  posix_quote, zsh_quote, fish_quote, shlex_quote, zsh_rule, fish_rule, starts_with_equals,
  is_shlex_safe, is_fish_safe,
}
use hostctl.Shell.Cmd.Target.{ShellTarget, native, shell}
use hostctl.Provider.Failover.{is_environment_name, is_name_start, is_name_rest}
use hostctl.Shell.Script.{
  ShellToken, ShellOperator, Element, word, parameter, is_parameter, spaced_arguments,
  structured_command_by, pipe, and_then, or_else, redirecting_to, appending_to, sequence,
}
use hostctl.Shell.Script.Context.{script}
use hostctl.Shell.Script.Flavours.{
  posix_flavour, zsh_flavour, fish_flavour, sh_flavour, posix_operator, fish_operator,
  posix_assignment, fish_assignment, cd_command, brace_group, fish_group, plain_redirect,
  posix_cwd_operand,
}
use hostctl.Shell.Script.Clean.{is_hidden, IsClean, clean_both, CleanFlavour, text_value-IsClean}
use hostctl.Shell.Script.Visible.{script-IsClean}

-- `replace` by a clean text keeps a text clean.
pub replace-IsClean : (c : ℕ) (by s : Text) → IsClean by → IsClean s → IsClean (replace c by s)
replace-IsClean c by [] hb hs = refl
replace-IsClean c by (d ∷ s) hb hs =
    let rest : IsClean (replace c by s) = replace-IsClean c by s hb (ground arith) in
    elim (Bool-cases (d == c)) [
      | inl e ↦ rw e (clean_both by (replace c by s) hb rest)
      | inr e ↦ rw e (ground arith)
    ]

pub quote_of :
    (rule : Text → Text)
    → ((s : Text) → IsClean s → IsClean (rule s))
    → (s : Text)
    → WhenOk IsClean (or_value_error (elim (text_value s) [ none ↦ none | some t ↦ some (rule t) ]))
quote_of rule h s = elim (Option-cases (text_value s)) [
  | inl e ↦ rw e tt
  | inr (t, e) ↦
      rw e (h t (subst (λ o. WhenOk IsClean (or_value_error o)) e (text_value-IsClean s)))
]

pub if-IsClean : (b : Bool) (s t : Text) → IsClean s → IsClean t → IsClean (if b then s else t)
if-IsClean true s t hs ht = hs
if-IsClean false s t hs ht = ht

in_ticks : (s : Text) → IsClean s → IsClean (tick ∷ s ++ tick ∷ [])
in_ticks s h = clean_both s (tick ∷ []) h refl

abbrev quoted_tick : Text
quoted_tick = tick ∷ quotation ∷ tick ∷ quotation ∷ tick ∷ []

shlex_quote-IsClean : (s : Text) → IsClean s → IsClean (shlex_quote s)
unfolding shlex_quote
shlex_quote-IsClean s h = if-IsClean (null s) _ _ refl (
    if-IsClean (all is_shlex_safe s) _ _ h
      (in_ticks (replace tick quoted_tick s) (replace-IsClean tick quoted_tick s refl h)))

zsh_rule-IsClean : (s : Text) → IsClean s → IsClean (zsh_rule s)
unfolding zsh_rule
zsh_rule-IsClean s h = elim (Bool-cases (starts_with_equals (shlex_quote s))) [
  | inl e ↦ rw e (in_ticks (shlex_quote s) (shlex_quote-IsClean s h))
  | inr e ↦ rw e (shlex_quote-IsClean s h)
]

fish_rule-IsClean : (s : Text) → IsClean s → IsClean (fish_rule s)
unfolding fish_rule
fish_rule-IsClean s h =
    let doubled : Text = replace backslash (backslash ∷ backslash ∷ []) s in
    if-IsClean (null s) _ _ refl (
      if-IsClean (all is_fish_safe s) _ _ h (
        in_ticks (replace tick (backslash ∷ tick ∷ []) doubled) (
          replace-IsClean tick (backslash ∷ tick ∷ []) doubled refl
            (replace-IsClean backslash (backslash ∷ backslash ∷ []) s refl h))))

rest-IsClean : (key : Text) → all is_name_rest key ≡ true → IsClean key
unfolding is_name_start is_name_rest
rest-IsClean [] h = refl
rest-IsClean (c ∷ key) h = let rest : IsClean key = rest-IsClean key (ground arith) in ground arith

pub key-IsClean : (key : Text) → is_environment_name key ≡ true → IsClean key
unfolding is_environment_name is_name_start is_name_rest
key-IsClean [] h = refl
key-IsClean (c ∷ key) h = let rest : IsClean key = rest-IsClean key (ground arith) in ground arith

module _ (argument : ShellTarget → Text → Result Text)
    (clean : (target : ShellTarget) (s : Text) → WhenOk IsClean (argument target s)) where
  pub spaced_arguments-IsClean :
      (target : ShellTarget) (values : List Element)
      → WhenOk IsClean (spaced_arguments (argument target) values)
  unfolding spaced_arguments
  spaced_arguments-IsClean target [] = refl
  spaced_arguments-IsClean target (parameter s ∷ values) = tt
  spaced_arguments-IsClean target (word s ∷ values) =
      WhenOk-then IsClean IsClean _
        (λ quoted hq.
          WhenOk-then IsClean IsClean _ (λ rest hr. clean_both (space ∷ quoted) rest hq hr)
            (spaced_arguments (argument target) values) (spaced_arguments-IsClean target values))
        (argument target s) (clean target s)

  structured-IsClean :
      (target : ShellTarget) (values : List Element)
      → WhenOk IsClean (structured_command_by argument target values)
  unfolding structured_command_by
  structured-IsClean target [] = refl
  structured-IsClean target (parameter s ∷ values) = tt
  structured-IsClean target (word s ∷ values) = elim (Bool-cases (any is_parameter values)) [
    | inl e ↦ rw e tt
    | inr e ↦ rw e (
        WhenOk-then IsClean IsClean _
          (λ head hh.
            WhenOk-then IsClean IsClean _ (λ rest hr. clean_both head rest hh hr)
              (spaced_arguments (argument target) values) (spaced_arguments-IsClean target values))
          (argument shell s) (clean shell s))
  ]

assignment_clean :
    (start key : Text) (c : ℕ) (value : Text)
    → IsClean start
    → IsClean key
    → is_hidden c ≡ false
    → IsClean value
    → IsClean (start ++ (key ++ c ∷ value))
assignment_clean start key c value hs hk hc hv =
    clean_both start (key ++ c ∷ value) hs (clean_both key (c ∷ value) hk (ground arith))

group_clean :
    (start s one other : Text)
    → IsClean start
    → IsClean s
    → IsClean one
    → IsClean other
    → IsClean (start ++ (s ++ (if among 10 s then one else other)))
group_clean start s one other h hs ho ht =
    clean_both start (s ++ (if among 10 s then one else other)) h (
      clean_both s (if among 10 s then one else other) hs (if-IsClean (among 10 s) one other ho ht))

posix_operator-IsClean : (op : ShellOperator) → IsClean (posix_operator op)
unfolding posix_operator
posix_operator-IsClean pipe = refl
posix_operator-IsClean and_then = refl
posix_operator-IsClean or_else = refl
posix_operator-IsClean redirecting_to = refl
posix_operator-IsClean appending_to = refl
posix_operator-IsClean sequence = refl

fish_operator-IsClean : (op : ShellOperator) → IsClean (fish_operator op)
unfolding fish_operator
fish_operator-IsClean pipe = refl
fish_operator-IsClean and_then = refl
fish_operator-IsClean or_else = refl
fish_operator-IsClean redirecting_to = refl
fish_operator-IsClean appending_to = refl
fish_operator-IsClean sequence = refl

fish_quote-IsClean : (s : Text) → WhenOk IsClean (or_value_error (fish_quote s))
unfolding fish_quote
fish_quote-IsClean = quote_of fish_rule fish_rule-IsClean

module _ (quote : Text → Result Text) (clean : (s : Text) → WhenOk IsClean (quote s)) where
  cd_command-IsClean : (cwd : Text) → WhenOk IsClean (cd_command quote cwd)
  unfolding cd_command
  cd_command-IsClean cwd =
      WhenOk-then IsClean IsClean _ (λ s hs. clean_both (codes "cd -- ") s refl hs)
        (quote (posix_cwd_operand cwd)) (clean (posix_cwd_operand cwd))

  sh_flavour-IsClean : CleanFlavour (sh_flavour quote)
  unfolding sh_flavour posix_operator posix_assignment brace_group plain_redirect
  sh_flavour-IsClean = record {
    separator = refl;
    terminator = refl;
    epilogue = refl;
    argument = λ target s. clean s;
    structured = structured-IsClean (λ target s. quote s) (λ target s. clean s) native;
    cmdlet_command = tt;
    operator = posix_operator-IsClean;
    redirect = λ op c s hs. clean_both (posix_operator op) s (posix_operator-IsClean op) hs;
    assignment = λ key value h.
        WhenOk-then IsClean IsClean _
          (λ s hs. assignment_clean (codes "export ") key b'=' s refl (key-IsClean key h) refl hs)
          (quote value) (clean value);
    directory = cd_command-IsClean;
    group = λ s h. group_clean (codes "{ ") s (10 ∷ codes "}") (codes "; }") refl h refl refl;
  }

fish_flavour-IsClean : CleanFlavour fish_flavour
unfolding fish_flavour fish_operator fish_assignment fish_group plain_redirect
fish_flavour-IsClean = record {
  separator = refl;
  terminator = refl;
  epilogue = refl;
  argument = λ target s. fish_quote-IsClean s;
  structured =
      structured-IsClean (λ target s. or_value_error (fish_quote s))
        (λ target s. fish_quote-IsClean s) native;
  cmdlet_command = tt;
  operator = fish_operator-IsClean;
  redirect = λ op c s hs. clean_both (fish_operator op) s (fish_operator-IsClean op) hs;
  assignment = λ key value h.
      WhenOk-then IsClean IsClean _
        (λ s hs. assignment_clean (codes "set -gx ") key b' ' s refl (key-IsClean key h) refl hs)
        (or_value_error (fish_quote value)) (fish_quote-IsClean value);
  directory = cd_command-IsClean _ fish_quote-IsClean;
  group =
      λ s h. group_clean (codes "begin; ") s (10 ∷ codes "end") (codes "; end") refl h refl refl;
}

pub posix_flavour-IsClean : CleanFlavour posix_flavour
unfolding posix_flavour posix_quote
posix_flavour-IsClean = sh_flavour-IsClean _ (quote_of shlex_quote shlex_quote-IsClean)

-- Whatever the commands, the directory and the environment are, the scripts of sh and bash, of zsh and
-- of fish hold no control character but tab, newline and carriage return.
pub sh_scripts-IsClean :
    (cmds : List ShellToken) (cwd : Option Text) (env : List (Text × Text)) (epilogue : Bool)
    → WhenOk IsClean (script posix_flavour cmds cwd env epilogue)
      × WhenOk IsClean (script zsh_flavour cmds cwd env epilogue)
      × WhenOk IsClean (script fish_flavour cmds cwd env epilogue)
unfolding zsh_flavour zsh_quote
sh_scripts-IsClean cmds cwd env epilogue = (
  script-IsClean posix_flavour posix_flavour-IsClean cmds cwd env epilogue,
  script-IsClean zsh_flavour (sh_flavour-IsClean _ (quote_of zsh_rule zsh_rule-IsClean)) cmds cwd
      env epilogue,
  script-IsClean fish_flavour fish_flavour-IsClean cmds cwd env epilogue,
)
