-- ===== src/Container/Tests.antt =====
-- Archives with empty chunks, odd member names and special modes.
use hostctl.Prelude.{
  ℕ, ◌+◌, ◌<◌, ◌≤◌, true, false, ◌≡◌, refl, some, List, [], ◌∷◌, ◌++◌, arith, all, null, length,
  codes, filter_by,
}
use mathlib.Core.List.{flatten}
use hostctl.Container.Archive.{open_chunks, readinto, safe_name, posix_mode}
use hostctl.Container.Archive.Chunks.{
  IsConsistent, remaining, readinto_lem, drain, drain-open_chunks,
}
use hostctl.Container.Archive.Names.{is_component, joined_parts, safe_name_lem}

abbrev response : List (List ℕ)
response = [] ∷ (1 ∷ 2 ∷ 3 ∷ []) ∷ [] ∷ (4 ∷ []) ∷ []

readinto_lem_example :
    ((readinto 2 (open_chunks response)).0 ++ remaining (readinto 2 (open_chunks response)).1
      ≡ remaining (open_chunks response))
    × (length (readinto 2 (open_chunks response)).0 ≤ 2)
    × IsConsistent (readinto 2 (open_chunks response)).1
    × (0 < 2
        → null (readinto 2 (open_chunks response)).0 ≡ true
        → remaining (open_chunks response) ≡ [])
readinto_lem_example = readinto_lem 2 (open_chunks response) (λ h. ground arith)

drain-open_chunks_example :
    drain (length (flatten response) + 1) 2 (open_chunks response) ≡ flatten response
drain-open_chunks_example = drain-open_chunks response 2 (omega arith)

accepted : safe_name (codes "./etc\\a//b") ≡ some (codes "etc" ∷ codes "a" ∷ codes "b" ∷ [])
unfolding safe_name filter_by
accepted = refl

safe_name_lem_example :
    (all is_component (codes "etc" ∷ codes "a" ∷ codes "b" ∷ []) ≡ true)
    × (safe_name (joined_parts (codes "etc" ∷ codes "a" ∷ codes "b" ∷ []))
        ≡ some (codes "etc" ∷ codes "a" ∷ codes "b" ∷ []))
safe_name_lem_example =
    safe_name_lem (codes "./etc\\a//b") (codes "etc" ∷ codes "a" ∷ codes "b" ∷ []) accepted

-- a directory with the sticky bit, `drwxrwxrwt`
abbrev tmp_mode : ℕ
tmp_mode = 2148532735

sticky_directory : posix_mode tmp_mode false ≡ 17407
unfolding posix_mode
sticky_directory = refl
