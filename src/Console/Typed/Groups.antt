-- ===== src/Console/Typed/Groups.antt =====
-- `_typed_batches` of console/_posix.py: what holds as the lines are grouped.
use hostctl.Prelude.{
  ℕ, ◌+◌, ◌≤◌, Bool, true, false, ◌≡◌, refl, ap, sym, subst, ◌∙◌, List, [], ◌∷◌, ◌++◌, length,
  length-append, null, not, ◌&&◌, ltb, All, All-append, arith, Bool-cases, inl, inr, append_assoc,
  append-nil, if◌then◌else◌,
}
use hostctl.Console.Typed.{Batches, add_line, add_lines, no_batches}
use hostctl.Console.Typed.Sizes.{AllShort}

-- The bytes that are typed for some lines, each with its newline.
abbrev pub typed_size : List (List ℕ) → ℕ
typed_size [] = 0
typed_size (line ∷ lines) = length line + 1 + typed_size lines

pub typed_size-append :
    (xs ys : List (List ℕ)) → typed_size (xs ++ ys) ≡ typed_size xs + typed_size ys
typed_size-append [] ys = omega arith
typed_size-append (x ∷ xs) ys = omega (arith, typed_size-append xs ys)

-- `flatten` of batches
abbrev pub all_lines : List (List (List ℕ)) → List (List ℕ)
all_lines [] = []
all_lines (batch ∷ batches) = batch ++ all_lines batches

pub all_lines-append :
    (xs ys : List (List (List ℕ))) → all_lines (xs ++ ys) ≡ all_lines xs ++ all_lines ys
all_lines-append [] ys = refl
all_lines-append (x ∷ xs) ys =
    ap (λ r. x ++ r) (all_lines-append xs ys) ∙ sym (append_assoc x (all_lines xs) (all_lines ys))

-- A batch that is not empty, fits, and has lines of at most 814 bytes.
pub record Fits (budget : ℕ) (batch : List (List ℕ)) : Type 0 where
  pub some_line : null batch ≡ false
  pub bounded : typed_size batch ≤ budget
  pub short : AllShort batch

-- What holds after each line.
pub record IsGrouped (budget : ℕ) (lines : List (List ℕ)) (s : Batches) : Type 0 where
  pub content : all_lines s.closed ++ s.current ≡ lines
  pub sized : s.size ≡ typed_size s.current
  pub bounded : s.size ≤ budget
  pub short : AllShort s.current
  pub closed_fit : All (Fits budget) s.closed
  pub count : length s.closed ≤ length lines

pub no_batches-IsGrouped : (budget : ℕ) → IsGrouped budget [] no_batches
no_batches-IsGrouped budget = record {
  content = refl;
  sized = refl;
  bounded = omega arith;
  short = tt;
  closed_fit = tt;
  count = omega arith;
}

null-size : (xs : List (List ℕ)) → null xs ≡ true → typed_size xs ≡ 0
null-size [] h = refl
null-size (x ∷ xs) h = cc

if-IsGrouped :
    (budget : ℕ) (lines : List (List ℕ)) (b : Bool) (x y : Batches)
    → (b ≡ true → IsGrouped budget lines x)
    → (b ≡ false → IsGrouped budget lines y)
    → IsGrouped budget lines (if b then x else y)
if-IsGrouped budget lines true x y h k = h refl
if-IsGrouped budget lines false x y h k = k refl

null-append : (xs : List (List ℕ)) (x : List ℕ) → null (xs ++ x ∷ []) ≡ false
null-append [] x = refl
null-append (y ∷ xs) x = refl

module _ (budget : ℕ) (lines : List (List ℕ)) (line : List ℕ) (s : Batches)
    (h : IsGrouped budget lines s) (short : length line ≤ 814)
    (fits : length line + 1 ≤ budget) where
  -- the line opens a batch
  opened-IsGrouped :
      null s.current ≡ false
      → IsGrouped budget (lines ++ line ∷ []) (record {
        closed = s.closed ++ s.current ∷ [];
        current = line ∷ [];
        size = 0 + length line + 1;
      })
  opened-IsGrouped some_line = record {
    content =
        rw (all_lines-append s.closed (s.current ∷ []), append-nil s.current)
          (ap (λ r. r ++ line ∷ []) h.content);
    sized = omega arith;
    bounded = omega arith;
    short = (short, tt);
    closed_fit = All-append (Fits budget) s.closed _ h.closed_fit (
      record {
        some_line = some_line;
        bounded = subst (λ n. n ≤ budget) h.sized h.bounded;
        short = h.short;
      },
      tt,
    );
    count =
        let before = length-append s.closed (s.current ∷ []) in
        let after = length-append lines (line ∷ []) in let n = h.count in omega arith;
  }

  joined-IsGrouped :
      s.size + length line + 1 ≤ budget
      → IsGrouped budget
          (lines ++ line ∷ [])
          (record s { current = s.current ++ line ∷ []; size = s.size + length line + 1 })
  joined-IsGrouped room = record {
    content =
        sym (append_assoc (all_lines s.closed) s.current (line ∷ []))
        ∙ ap (λ r. r ++ line ∷ []) h.content;
    sized = let n = h.sized in let both = typed_size-append s.current (line ∷ []) in omega arith;
    bounded = room;
    short = All-append (λ line. length line ≤ 814) s.current _ h.short (short, tt);
    closed_fit = h.closed_fit;
    count = let after = length-append lines (line ∷ []) in let n = h.count in omega arith;
  }

  empty_room : null s.current ≡ true → s.size + length line + 1 ≤ budget
  empty_room e = let none_typed = null-size s.current e in let n = h.sized in omega arith

  room_lem :
      (not (null s.current) && ltb budget (s.size + length line + 1)) ≡ false
      → s.size + length line + 1 ≤ budget
  room_lem test = elim (Bool-cases (null s.current)) [ inl e ↦ empty_room e | inr e ↦ ground arith ]

  pub add_line-IsGrouped : IsGrouped budget (lines ++ line ∷ []) (add_line budget s line)
  unfolding add_line
  add_line-IsGrouped =
      if-IsGrouped budget (lines ++ line ∷ [])
        (not (null s.current) && ltb budget (s.size + length line + 1)) _ _
        (λ test. opened-IsGrouped (ground arith)) (λ test. joined-IsGrouped (room_lem test))

module _ (budget : ℕ) (enough : 815 ≤ budget) where
  pub add_lines-IsGrouped :
      (before lines : List (List ℕ)) (s : Batches)
      → AllShort lines
      → IsGrouped budget before s
      → IsGrouped budget (before ++ lines) (add_lines budget s lines)
  unfolding add_lines
  add_lines-IsGrouped before [] s short h = rw (append-nil before) h
  add_lines-IsGrouped before (line ∷ lines) s (short, more) h =
      rw⁻¹ (append_assoc before (line ∷ []) lines) (
        add_lines-IsGrouped (before ++ line ∷ []) lines (add_line budget s line) more
          (add_line-IsGrouped budget before line s h short (omega arith)))

-- The last batch after a line is not empty.
pub some_current :
    (budget : ℕ) (s : Batches) (line : List ℕ) → null (add_line budget s line).current ≡ false
unfolding add_line
some_current budget s line =
    elim (Bool-cases (not (null s.current) && ltb budget (s.size + length line + 1))) [
      | inl e ↦ rw e refl
      | inr e ↦ rw e (null-append s.current line)
    ]
