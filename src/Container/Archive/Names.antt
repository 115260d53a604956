-- ===== src/Container/Archive/Names.antt =====
-- A member name that `_safe_name` accepts stays below the directory it is unpacked in.
use hostctl.Prelude.{
  ℕ, Bool, true, false, ◌≡◌, refl, ap, ◌∙◌, sym, append-nil, some, List, [], ◌∷◌, ◌++◌, arith, ◌==◌,
  ◌&&◌, ◌||◌, not, null, any, all, filter_by, Bool-cases, inl, inr,
}
use hostctl.Shell.Text.{Text, backslash}
use hostctl.Container.Archive.{
  slash, normalized, cons_first, split, is_dot, is_dot_dot, is_absolute, safe_name,
}

-- A component that names an entry of a directory: not empty, not `.` or `..`, with no separator.
abbrev pub is_component : Text → Bool
is_component part =
    not (null part || is_dot part || is_dot_dot part)
    && all (λ c. not (c == slash || c == backslash)) part

abbrev no_separator : Text → Bool
no_separator part = all (λ c. not (c == slash || c == backslash)) part

abbrev no_backslash : Text → Bool
no_backslash s = all (λ c. not (c == backslash)) s

normalized-clean : (s : Text) → no_backslash (normalized s) ≡ true
normalized-clean [] = refl
normalized-clean (c ∷ s) = ground (arith, normalized-clean s)

cons_first-clean :
    (c : ℕ) (parts : List Text)
    → (c == slash || c == backslash) ≡ false
    → all no_separator parts ≡ true
    → all no_separator (cons_first c parts) ≡ true
cons_first-clean c [] h k = ground arith
cons_first-clean c (part ∷ parts) h k = ground arith

split-clean : (s : Text) → no_backslash s ≡ true → all no_separator (split s) ≡ true
split-clean [] h = refl
split-clean (c ∷ s) h = elim (Bool-cases (c == slash)) [
  | inl e ↦ rw e (split-clean s (ground arith))
  | inr e ↦ rw e (cons_first-clean c (split s) (ground arith) (split-clean s (ground arith)))
]

or_false : (a b : Bool) → (a || b) ≡ false → (a ≡ false) × (b ≡ false)
or_false a b h = (ground arith, ground arith)

and_true : (a b : Bool) → (a && b) ≡ true → (a ≡ true) × (b ≡ true)
and_true a b h = (ground arith, ground arith)

both : (a b : Bool) → a ≡ true → b ≡ true → (a && b) ≡ true
both a b h k = rw (h, k) refl

component :
    (part : Text)
    → (null part || is_dot part) ≡ false
    → is_dot_dot part ≡ false
    → no_separator part ≡ true
    → is_component part ≡ true
component part h k j = ground arith

kept_components :
    (parts : List Text)
    → all no_separator parts ≡ true
    → any is_dot_dot (filter_by (λ part. not (null part || is_dot part)) parts) ≡ false
    → all is_component (filter_by (λ part. not (null part || is_dot part)) parts) ≡ true
unfolding filter_by
kept_components [] h k = refl
kept_components (part ∷ parts) h k = elim (Bool-cases (null part || is_dot part)) [
  | inl e ↦ rw e (kept_components parts (ground arith) (rw e at k))
  | inr e ↦
      let (here, later) = or_false (is_dot_dot part) _ (rw e at k) in
      let (clean, rest) = and_true (no_separator part) (all no_separator parts) h in
      rw e (
        both (is_component part) _ (component part e here clean) (kept_components parts rest later))
]

safe_name-some :
    (name : Text) (parts : List Text)
    → safe_name name ≡ some parts
    → (parts ≡ filter_by (λ part. not (null part || is_dot part)) (split (normalized name)))
      × (any is_dot_dot
            (filter_by (λ part. not (null part || is_dot part)) (split (normalized name)))
          ≡ false)
unfolding safe_name
safe_name-some name parts h = ground arith

safe_name-components :
    (name : Text) (parts : List Text) → safe_name name ≡ some parts → all is_component parts ≡ true
safe_name-components name parts h =
    let (same, dots) = safe_name-some name parts h in
    rw same (
      kept_components (split (normalized name))
        (split-clean (normalized name) (normalized-clean name)) dots)

-- `"/".join(parts)`
abbrev pub joined_parts : List Text → Text
joined_parts [] = []
joined_parts (part ∷ []) = part
joined_parts (part ∷ next ∷ parts) = part ++ slash ∷ joined_parts (next ∷ parts)

split_part : (part s : Text) → no_separator part ≡ true → split (part ++ slash ∷ s) ≡ part ∷ split s
split_part [] s h = refl
split_part (c ∷ part) s h =
    let plain : (c == slash) ≡ false = ground arith in
    rw plain (ap (cons_first c) (split_part part s (ground arith)))

split_last : (part : Text) → no_separator part ≡ true → split part ≡ part ∷ []
split_last [] h = refl
split_last (c ∷ part) h =
    let plain : (c == slash) ≡ false = ground arith in
    rw plain (ap (cons_first c) (split_last part (ground arith)))

normalized_part :
    (part s : Text) → no_separator part ≡ true → normalized (part ++ s) ≡ part ++ normalized s
normalized_part [] s h = refl
normalized_part (c ∷ part) s h =
    let plain : (c == backslash) ≡ false = ground arith in
    rw plain (ap (λ r. c ∷ r) (normalized_part part s (ground arith)))

component-clean : (part : Text) → is_component part ≡ true → no_separator part ≡ true
component-clean part h = ground arith

normalized-joined :
    (parts : List Text)
    → all is_component parts ≡ true
    → normalized (joined_parts parts) ≡ joined_parts parts
normalized-joined [] h = refl
normalized-joined (part ∷ []) h =
    sym (ap normalized (append-nil part))
    ∙ normalized_part part [] (component-clean part (and_true (is_component part) _ h).0)
    ∙ append-nil part
normalized-joined (part ∷ next ∷ parts) h =
    normalized_part part (slash ∷ joined_parts (next ∷ parts))
      (component-clean part (and_true (is_component part) _ h).0)
    ∙ ap (λ r. part ++ slash ∷ r)
        (normalized-joined (next ∷ parts) (and_true (is_component part) _ h).1)

split-joined :
    (part : Text) (parts : List Text)
    → all is_component (part ∷ parts) ≡ true
    → split (joined_parts (part ∷ parts)) ≡ part ∷ parts
split-joined part [] h = split_last part (component-clean part (and_true (is_component part) _ h).0)
split-joined part (next ∷ parts) h =
    split_part part (joined_parts (next ∷ parts))
      (component-clean part (and_true (is_component part) _ h).0)
    ∙ ap (λ r. part ∷ r) (split-joined next parts (and_true (is_component part) _ h).1)

filter_components :
    (parts : List Text)
    → all is_component parts ≡ true
    → filter_by (λ part. not (null part || is_dot part)) parts ≡ parts
unfolding filter_by
filter_components [] h = refl
filter_components (part ∷ parts) h =
    let (here, later) = and_true (is_component part) (all is_component parts) h in
    let kept : not (null part || is_dot part) ≡ true = ground arith in
    rw kept (ap (λ r. part ∷ r) (filter_components parts later))

no_dots : (parts : List Text) → all is_component parts ≡ true → any is_dot_dot parts ≡ false
no_dots [] h = refl
no_dots (part ∷ parts) h =
    let (here, later) = and_true (is_component part) (all is_component parts) h in
    let plain : is_dot_dot part ≡ false = ground arith in rw plain (no_dots parts later)

joined-relative :
    (parts : List Text) → all is_component parts ≡ true → is_absolute (joined_parts parts) ≡ false
joined-relative [] h = refl
joined-relative ([] ∷ []) h = refl
joined-relative ((c ∷ part) ∷ []) h = ground arith
joined-relative ([] ∷ next ∷ parts) h = ground arith
joined-relative ((c ∷ part) ∷ next ∷ parts) h = ground arith

safe_name-accepts :
    (name : Text) (parts : List Text)
    → is_absolute (normalized name) ≡ false
    → filter_by (λ part. not (null part || is_dot part)) (split (normalized name)) ≡ parts
    → any is_dot_dot parts ≡ false
    → safe_name name ≡ some parts
unfolding safe_name
safe_name-accepts name parts h k j = rw (h, k, j) refl

split_kept :
    (parts : List Text)
    → all is_component parts ≡ true
    → filter_by (λ part. not (null part || is_dot part)) (split (joined_parts parts)) ≡ parts
split_kept [] h = unfold filter_by in refl
split_kept (part ∷ parts) h = rw (split-joined part parts h) (filter_components (part ∷ parts) h)

safe_name-joined :
    (parts : List Text)
    → all is_component parts ≡ true
    → safe_name (joined_parts parts) ≡ some parts
safe_name-joined parts h =
    let same = normalized-joined parts h in
    safe_name-accepts (joined_parts parts) parts (rw same (joined-relative parts h))
      (rw same (split_kept parts h)) (no_dots parts h)

-- What `_safe_name` accepts it gives as components that are neither empty nor `.` or `..` and hold no
-- separator, and their path, joined by `/`, is a name that it accepts with the same components.
pub safe_name_lem :
    (name : Text) (parts : List Text)
    → safe_name name ≡ some parts
    → (all is_component parts ≡ true) × (safe_name (joined_parts parts) ≡ some parts)
safe_name_lem name parts h =
    let clean = safe_name-components name parts h in (clean, safe_name-joined parts clean)
