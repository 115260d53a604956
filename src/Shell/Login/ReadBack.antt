-- ===== src/Shell/Login/ReadBack.antt =====
-- Every shell that can be a login shell reads the words of `login_join` back.
use hostctl.Prelude.{
  ℕ, true, false, ◌≡◌, refl, ap, sym, ◌∙◌, inl, inr, none, some, List, [], ◌∷◌, ◌++◌, append_assoc,
  append-nil, arith, ◌&&◌, all, null, Bool-cases,
}
use mathlib.Core.List.{flatten}
use hostctl.Shell.Text.{Text, backslash, space}
use hostctl.Shell.Reader.{Reader, word_before, is_ordinary}
use hostctl.Shell.Reader.Posix
use hostctl.Shell.Reader.Fish
use hostctl.Shell.Login.{
  is_login_safe, flush, parts, no_equals_first, login_word, join_words, login_join,
}

-- an ordinary character joins the run, any other cuts it
parts_more :
    (c : ℕ) (s run : Text) → is_ordinary c ≡ true → parts (c ∷ s) run ≡ parts s (run ++ c ∷ [])
unfolding parts
parts_more c s run h = ground arith

parts_cut :
    (c : ℕ) (s run : Text)
    → is_ordinary c ≡ false
    → parts (c ∷ s) run ≡ flush run ++ (backslash ∷ c ∷ []) ∷ parts s []
unfolding parts
parts_cut c s run h = ground arith

all_ordinary-append :
    (run : Text) (c : ℕ)
    → all is_ordinary run ≡ true
    → is_ordinary c ≡ true
    → all is_ordinary (run ++ c ∷ []) ≡ true
all_ordinary-append [] c h k = ground arith
all_ordinary-append (d ∷ run) c h k = ground (arith, all_ordinary-append run c)

null-append : (run : Text) (c : ℕ) (s : Text) → null ((run ++ c ∷ []) ++ s) ≡ false
null-append [] c s = refl
null-append (d ∷ run) c s = refl

flatten-append : (xs ys : List Text) → flatten (xs ++ ys) ≡ flatten xs ++ flatten ys
unfolding flatten
flatten-append [] ys = refl
flatten-append (x ∷ xs) ys = simp (flatten-append xs ys, append_assoc)

-- a cut value: the run in quotes, the escaped character, and the rest
cut_text :
    (c : ℕ) (s run rest : Text)
    → is_ordinary c ≡ false
    → flatten (parts (c ∷ s) run) ++ rest
      ≡ flatten (flush run) ++ backslash ∷ c ∷ (flatten (parts s []) ++ rest)
cut_text c s run rest e =
    rw (parts_cut c s run e, flatten-append) (unfold flatten in simp append_assoc)

module _ (r : Reader) (safe : (c : ℕ) → is_login_safe c ≡ true → r.is_plain c ≡ true) where
  -- a run in quotes, or no run, behind a word under way
  read-flush :
      (w run s : Text)
      → all is_ordinary run ≡ true
      → r.words (some w) (flatten (flush run) ++ s) ≡ r.words (some (w ++ run)) s
  unfolding flush flatten
  read-flush w [] s h = rw append-nil
  read-flush w (c ∷ run) s h = simp append_assoc (r.quoted (some w) (c ∷ run) s h)

  read-parts :
      (s run w rest : Text)
      → all is_ordinary run ≡ true
      → r.words (some w) (flatten (parts s run) ++ rest) ≡ r.words (some (w ++ run ++ s)) rest
  read-parts [] run w rest h = unfold parts in rw append-nil (read-flush w run rest h)
  read-parts (c ∷ s) run w rest h = elim (Bool-cases (is_ordinary c)) [
    | inl e ↦ rw (parts_more c s run e) (
        read-parts s (run ++ c ∷ []) w rest (all_ordinary-append run c h e)
        ∙ ap (λ v. r.words (some v) rest) (simp append_assoc))
    | inr e ↦
        ap (r.words (some w)) (cut_text c s run rest e)
        ∙ read-flush w run _ h
        ∙ r.escaped (some (w ++ run)) c _ e
        ∙ read-parts s [] ((w ++ run) ++ c ∷ []) rest refl
        ∙ ap (λ v. r.words (some v) rest) (simp append_assoc)
  ]

  read-flush_open :
      (run : Text) (c : ℕ) (s : Text)
      → all is_ordinary run ≡ true
      → is_ordinary c ≡ false
      → r.words none (flatten (flush run) ++ backslash ∷ c ∷ s)
        ≡ r.words (some []) (flatten (flush run) ++ backslash ∷ c ∷ s)
  unfolding flush flatten
  read-flush_open [] c s h e = r.escaped none c s e ∙ sym (r.escaped (some []) c s e)
  read-flush_open (d ∷ run) c s h e =
      simp append_assoc (r.quoted none (d ∷ run) _ h ∙ sym (r.quoted (some []) (d ∷ run) _ h))

  -- with no word under way the first part opens one
  read-parts_open :
      (s run rest : Text)
      → all is_ordinary run ≡ true
      → null (run ++ s) ≡ false
      → r.words none (flatten (parts s run) ++ rest)
        ≡ r.words (some []) (flatten (parts s run) ++ rest)
  read-parts_open [] [] rest h k = cc
  read-parts_open [] (d ∷ run) rest h k =
      unfold parts flush flatten in
      simp append_assoc (r.quoted none (d ∷ run) rest h ∙ sym (r.quoted (some []) (d ∷ run) rest h))
  read-parts_open (c ∷ s) run rest h k = elim (Bool-cases (is_ordinary c)) [
    | inl e ↦ rw (parts_more c s run e) (
        read-parts_open s (run ++ c ∷ []) rest (all_ordinary-append run c h e)
          (null-append run c s))
    | inr e ↦ rw (cut_text c s run rest e) (read-flush_open run c _ h e)
  ]

  read-safe_more :
      (s w rest : Text)
      → all is_login_safe s ≡ true
      → r.words (some w) (s ++ rest) ≡ r.words (some (w ++ s)) rest
  read-safe_more [] w rest h = rw append-nil
  read-safe_more (c ∷ s) w rest h =
      r.plain (some w) c (s ++ rest) (safe c (ground arith)) (inr refl)
      ∙ read-safe_more s (w ++ c ∷ []) rest (ground arith)
      ∙ ap (λ v. r.words (some v) rest) (append_assoc w (c ∷ []) s)

  read-safe :
      (s rest : Text)
      → null s ≡ false
      → no_equals_first s ≡ true
      → all is_login_safe s ≡ true
      → r.words none (s ++ rest) ≡ r.words (some s) rest
  unfolding no_equals_first
  read-safe [] rest n f h = cc
  read-safe (c ∷ s) rest n f h =
      r.plain none c (s ++ rest) (safe c (ground arith)) (inl (ground arith))
      ∙ read-safe_more s (c ∷ []) rest (ground arith)

  read-login_word : (v rest : Text) → r.words none (login_word v ++ rest) ≡ r.words (some v) rest
  unfolding login_word
  read-login_word [] rest = r.quoted none [] rest refl
  read-login_word (c ∷ s) rest =
      elim (Bool-cases (no_equals_first (c ∷ s) && all is_login_safe (c ∷ s))) [
        | inl h ↦ rw (h, login_word) (read-safe (c ∷ s) rest refl (ground arith) (ground arith))
        | inr h ↦
            rw (h, login_word)
              (read-parts_open (c ∷ s) [] rest refl refl ∙ read-parts (c ∷ s) [] [] rest refl)
      ]

  -- The words of a line written by `login_join` are the values it was given, for every reader whose
  -- plain characters include those that the rule leaves bare.
  pub read-login_join : (vs : List Text) → r.words none (login_join vs) ≡ some vs
  unfolding login_join join_words
  read-login_join [] = r.at_end none
  read-login_join (v ∷ []) =
      ap (r.words none) (sym (append-nil (login_word v))) ∙ read-login_word v [] ∙ r.at_end (some v)
  read-login_join (v ∷ u ∷ vs) =
      read-login_word v (space ∷ login_join (u ∷ vs))
      ∙ r.at_space (some v) (login_join (u ∷ vs))
      ∙ ap (word_before (some v)) (read-login_join (u ∷ vs))

login_safe_posix : (c : ℕ) → is_login_safe c ≡ true → Posix.is_plain c ≡ true
unfolding is_login_safe Posix.is_plain
login_safe_posix c h = ground arith

login_safe_fish : (c : ℕ) → is_login_safe c ≡ true → Fish.is_plain c ≡ true
unfolding is_login_safe Fish.is_plain
login_safe_fish c h = ground arith

-- Whatever the values are, sh, bash, dash and ash, zsh that expands a leading `=`, and fish all read
-- the line that `login_join` writes as exactly these values.
pub login_join-agrees :
    (vs : List Text)
    → (Posix.read false Posix.bare none (login_join vs) ≡ some vs)
      × (Posix.read true Posix.bare none (login_join vs) ≡ some vs)
      × (Fish.read Fish.bare none (login_join vs) ≡ some vs)
unfolding Posix.posix Fish.fish
login_join-agrees vs = (
  read-login_join (Posix.posix false) login_safe_posix vs,
  read-login_join (Posix.posix true) login_safe_posix vs,
  read-login_join Fish.fish login_safe_fish vs,
)
