-- ===== src/Shell/Script/CwdOperand.antt =====
-- `posix_cwd_operand` of shell/_vocabulary.py, and where `cd` looks for a directory.
use hostctl.Prelude.{
  ℕ, Bool, true, false, ◌≡◌, refl, List, [], ◌∷◌, arith, ◌==◌, ◌&&◌, ◌||◌, not, if◌then◌else◌,
  Bool-cases, inl, inr, ◌⊎◌,
}
use hostctl.Shell.Text.{Text}
use hostctl.Container.Archive.{slash, is_dot, is_dot_dot}
use hostctl.Shell.Script.Flavours.{
  root_of, components, slash_joined, path_text, operand_of, posix_cwd_operand,
}

-- The first component of an operand, up to its first slash.
unfoldable pub first_component : Text → Text
first_component [] = []
first_component (c ∷ s) = let rest = first_component s in if c == slash then [] else c ∷ rest

-- When `cd` consults CDPATH: the operand neither starts with a slash nor has `.` or `..` as its first
-- component.
unfoldable pub uses_cdpath : Text → Bool
unfolding first_component
uses_cdpath [] = true
uses_cdpath (c ∷ s) =
    let first = first_component (c ∷ s) in
    not (c == slash) && not (is_dot first || is_dot_dot first)

operand_of-root :
    (c : ℕ) (root : Text) (parts : List Text)
    → c ≡ slash
    → uses_cdpath (operand_of (c ∷ root) parts) ≡ false
unfolding operand_of path_text uses_cdpath
operand_of-root c root parts h = rw h refl

dotted :
    (p : Text) (parts : List Text)
    → is_dot p || is_dot_dot p ≡ true
    → uses_cdpath (path_text [] (p ∷ parts)) ≡ false
unfolding path_text uses_cdpath first_component slash_joined
dotted [] parts h = cc
dotted (c ∷ []) [] h = ground arith
dotted (c ∷ []) (q ∷ parts) h = ground arith
dotted (c ∷ d ∷ []) [] h = ground arith
dotted (c ∷ d ∷ []) (q ∷ parts) h = ground arith
dotted (c ∷ d ∷ e ∷ s) parts h = cc

operand_of-relative : (parts : List Text) → uses_cdpath (operand_of [] parts) ≡ false
unfolding operand_of path_text uses_cdpath first_component
operand_of-relative [] = refl
operand_of-relative (p ∷ parts) = elim (Bool-cases (is_dot p || is_dot_dot p)) [
  | inl e ↦ rw e (dotted p parts e)
  | inr e ↦ rw e refl
]

root_of-slash : (cwd : Text) → (root_of cwd ≡ []) ⊎ ((root : Text) × (root_of cwd ≡ slash ∷ root))
unfolding root_of
root_of-slash [] = inl refl
root_of-slash (c ∷ []) = elim (Bool-cases (c == slash)) [
  | inl e ↦ inr ([], rw e refl)
  | inr e ↦ inl (rw e refl)
]
root_of-slash (c ∷ d ∷ []) = elim (Bool-cases (c == slash)) [
  | inl e ↦ elim (Bool-cases (d == slash)) [
    | inl e' ↦ inr (slash ∷ [], rw (e, e') refl)
    | inr e' ↦ inr ([], rw (e, e') refl)
  ]
  | inr e ↦ inl (rw e refl)
]
root_of-slash (c ∷ d ∷ e ∷ s) = elim (Bool-cases (c == slash)) [
  | inl h ↦ elim (Bool-cases (d == slash && not (e == slash))) [
    | inl h' ↦ inr (slash ∷ [], rw (h, h') refl)
    | inr h' ↦ inr ([], rw (h, h') refl)
  ]
  | inr h ↦ inl (rw h refl)
]

-- The operand of `cd` never makes the shell look in CDPATH, whatever the directory is.
pub posix_cwd_operand_lem : (cwd : Text) → uses_cdpath (posix_cwd_operand cwd) ≡ false
unfolding posix_cwd_operand
posix_cwd_operand_lem cwd = elim (root_of-slash cwd) [
  | inl e ↦ rw e (operand_of-relative (components cwd))
  | inr (root, e) ↦ rw e (operand_of-root slash root (components cwd) refl)
]
