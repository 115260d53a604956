-- ===== src/Uri/Tests.antt =====
-- Queries, credentials and broken URIs, and the theorems about them at these.
use hostctl.Prelude.{◌≡◌, refl, true, String, List, [], ◌∷◌, ◌++◌, codes, filter_by, ok}
use hostctl.Prelude.Dict.{get, put}
use hostctl.Prelude.Sorting.{sorted}
use hostctl.Uri.Query.{
  single, several, shown, not_shown, duplicate, unknown, parsed, refused, strict_uri_query,
}
use hostctl.Uri.Query.Strict.{Explains, strict_uri_query-Explains}
use hostctl.Uri.Redact.{redact_textually}
use hostctl.Uri.Redact.Secret.{uri_of, redact_textually-uri_of}
use hostctl.Uri.Credentials.{Extras, is_line_end, strip, parse_credentials}
use hostctl.Uri.Credentials.Written.{
  IsName, Writable, has_name, one_line, written_extras, parse_credentials-written,
}

abbrev pairs : List (String × String)
pairs = ("executor", "ssh") ∷ ("timeout", "5") ∷ ("executor", "winrm") ∷ []

reads_pairs :
    strict_uri_query ("executor" ∷ "timeout" ∷ []) ("executor" ∷ []) "executor=ssh" pairs
    ≡ parsed (("executor", several ("ssh" ∷ "winrm" ∷ [])) ∷ ("timeout", single "5") ∷ [])
unfolding strict_uri_query get sorted filter_by put
reads_pairs = refl

refuses_misspelt :
    strict_uri_query ("executor" ∷ []) [] "exectuor=ssh" (("exectuor", "ssh") ∷ [])
    ≡ refused (unknown (shown "exectuor"))
unfolding strict_uri_query get sorted filter_by put
refuses_misspelt = refl

-- a part of a password is not shown
hides_password :
    strict_uri_query [] [] "cret@host" (("cret@host", "") ∷ []) ≡ refused (unknown not_shown)
unfolding strict_uri_query get sorted filter_by put
hides_password = refl

refuses_second :
    strict_uri_query ("executor" ∷ "timeout" ∷ []) [] "executor=ssh" pairs
    ≡ refused (duplicate (shown "executor"))
unfolding strict_uri_query get sorted filter_by put
refuses_second = refl

strict_uri_query-Explains_example :
    Explains
      ("executor" ∷ "timeout" ∷ [])
      ("executor" ∷ [])
      "executor=ssh"
      pairs
      (strict_uri_query ("executor" ∷ "timeout" ∷ []) ("executor" ∷ []) "executor=ssh" pairs)
strict_uri_query-Explains_example =
    strict_uri_query-Explains ("executor" ∷ "timeout" ∷ []) ("executor" ∷ []) "executor=ssh" pairs

redact_textually-uri_of_example :
    (redact_textually (uri_of (codes "ssh") (codes "user" ++ b':' ∷ codes "a@b/c") (codes "host:x"))
      ≡ uri_of (codes "ssh") (codes "user") (codes "host:x"))
    × (redact_textually (uri_of (codes "ssh") (codes "user") (codes "host:x"))
        ≡ uri_of (codes "ssh") (codes "user") (codes "host:x"))
redact_textually-uri_of_example =
    redact_textually-uri_of (codes "ssh") (codes "user") (codes "a@b/c") (codes "host:x") refl refl
      refl

-- a lone line end stays on the password
keeps_return :
    parse_credentials (λ s. s) (codes "pw" ++ 13 ∷ 10 ∷ []) ≡ ok (codes "pw" ++ 13 ∷ 10 ∷ [], [])
unfolding parse_credentials
keeps_return = refl

abbrev extras : Extras
extras = (codes "otp", codes " 12:34 ") ∷ (codes "interactive", []) ∷ []

otp_IsName : IsName (λ s. s) (codes "otp")
unfolding is_line_end strip
otp_IsName = record {
  some_name = refl;
  plain = refl;
  no_colon = refl;
  stripped = refl;
  folded = refl;
}

interactive_IsName : IsName (λ s. s) (codes "interactive")
unfolding is_line_end strip
interactive_IsName = record {
  some_name = refl;
  plain = refl;
  no_colon = refl;
  stripped = refl;
  folded = refl;
}

extras-Writable : Writable (λ s. s) [] extras
unfolding is_line_end has_name
extras-Writable = (otp_IsName, refl, refl, (interactive_IsName, refl, refl, tt))

one_line-password : one_line (codes "pw") ≡ true
unfolding is_line_end
one_line-password = refl

parse_credentials-written_example :
    parse_credentials (λ s. s) (codes "pw" ++ written_extras extras) ≡ ok (codes "pw", extras)
parse_credentials-written_example =
    parse_credentials-written (λ s. s) (codes "pw") extras one_line-password extras-Writable
