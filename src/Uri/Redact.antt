-- ===== src/Uri/Redact.antt =====
-- uri/_parse.py: how `redact_uri` takes the password out of a URI that does not parse. A text is the
-- list of its code points.
pub mod Secret
use hostctl.Prelude.{
  ℕ, zero, suc, ◌+◌, Bool, true, false, not, Option, none, some, List, [], ◌∷◌, ◌++◌, take, drop,
  length, leb, if◌then◌else◌, ◌==◌, ◌&&◌,
}
use hostctl.Shell.Text.{Text}

-- `text.startswith("://")`
unfoldable pub is_separator : Text → Bool
is_separator (a ∷ b ∷ c ∷ rest) = a == b':' && b == b'/' && c == b'/'
is_separator _ = false

-- `len(head) + len(separator)` for `uri.partition("://")`
unfoldable pub authority_start : Text → ℕ
unfolding is_separator
authority_start [] = 0
authority_start (c ∷ cs) =
    let later = authority_start cs in if is_separator (c ∷ cs) then 3 else suc later

-- `uri.rfind("@")`
unfoldable pub last_at : Text → Option ℕ
last_at [] = none
last_at (c ∷ cs) = elim (last_at cs) [
  | some i ↦ some (suc i)
  | none ↦ if c == b'@' then some 0 else none
]

-- `userinfo.partition(":")`, if there is a colon: what stands before it.
unfoldable pub before_colon : Text → Option Text
before_colon [] = none
before_colon (c ∷ cs) =
    let rest : Option Text = elim (before_colon cs) [ none ↦ none | some name ↦ some (c ∷ name) ] in
    if c == b':' then some [] else rest

unfoldable pub without_secret : Text → ℕ → ℕ → Option Text → Text
without_secret uri start end none = uri
without_secret uri start end (some username) = take start uri ++ username ++ drop end uri

-- The end of `redact_uri`.
unfoldable pub redact_textually : Text → Text
unfolding authority_start last_at before_colon without_secret
redact_textually uri =
    let start = authority_start uri in
    elim (last_at uri) [
      | none ↦ uri
      | some end ↦
          if leb end start
          then uri
          else without_secret uri start end (before_colon (drop start (take end uri)))
    ]
