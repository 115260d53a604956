-- ===== src/Uri/Redact/Secret.antt =====
-- The end of `redact_uri` of uri/_parse.py leaves nothing of the password.
use hostctl.Prelude.{
  ℕ, ◌+◌, ◌≡◌, ◌≤◌, refl, ap, Bool, true, false, none, some, [], ◌∷◌, ◌++◌, take, drop, length,
  length-append, append_assoc, leb, arith, if◌then◌else◌, ◌==◌, codes, member,
}
use hostctl.Shell.Text.{Text}
use hostctl.Uri.Redact.{
  is_separator, authority_start, last_at, before_colon, without_secret, redact_textually,
}

take-append : (xs ys : Text) → take (length xs) (xs ++ ys) ≡ xs
take-append [] ys = refl
take-append (x ∷ xs) ys = ap (◌∷◌ x) (take-append xs ys)

drop-append : (xs ys : Text) → drop (length xs) (xs ++ ys) ≡ ys
drop-append [] ys = refl
drop-append (x ∷ xs) ys = drop-append xs ys

is_separator-head : (c : ℕ) (rest : Text) → (b':' == c) ≡ false → is_separator (c ∷ rest) ≡ false
unfolding is_separator
is_separator-head c [] h = refl
is_separator-head c (x ∷ []) h = refl
is_separator-head c (x ∷ y ∷ rest) h = ground arith

authority_start-append :
    (scheme rest : Text)
    → member b':' scheme ≡ false
    → authority_start (scheme ++ codes "://" ++ rest) ≡ length (scheme ++ codes "://")
unfolding authority_start is_separator
authority_start-append [] rest h = refl
authority_start-append (c ∷ cs) rest h =
    let head : (b':' == c) ≡ false = ground arith in
    let tail : member b':' cs ≡ false = ground arith in
    rw (is_separator-head c (cs ++ codes "://" ++ rest) head, authority_start-append cs rest tail)
      refl

last_at-none : (rest : Text) → member b'@' rest ≡ false → last_at rest ≡ none
unfolding last_at
last_at-none [] h = refl
last_at-none (c ∷ cs) h =
    let tail : member b'@' cs ≡ false = ground arith in rw (last_at-none cs tail) (ground arith)

last_at-append :
    (before rest : Text)
    → member b'@' rest ≡ false
    → last_at (before ++ b'@' ∷ rest) ≡ some (length before)
unfolding last_at
last_at-append [] rest h = rw (last_at-none rest h) refl
last_at-append (c ∷ cs) rest h = rw (last_at-append cs rest h) refl

before_colon-append :
    (user secret : Text)
    → member b':' user ≡ false
    → before_colon (user ++ b':' ∷ secret) ≡ some user
unfolding before_colon
before_colon-append [] secret h = refl
before_colon-append (c ∷ cs) secret h =
    let tail : member b':' cs ≡ false = ground arith in
    rw (before_colon-append cs secret tail) (ground arith)

before_colon-none : (user : Text) → member b':' user ≡ false → before_colon user ≡ none
unfolding before_colon
before_colon-none [] h = refl
before_colon-none (c ∷ cs) h =
    let tail : member b':' cs ≡ false = ground arith in
    rw (before_colon-none cs tail) (ground arith)

if_same : (b : Bool) (x : Text) → (if b then x else x) ≡ x
if_same true x = refl
if_same false x = refl

-- A URI with the given parts.
unfoldable pub uri_of : Text → Text → Text → Text
uri_of scheme userinfo rest = (scheme ++ codes "://") ++ userinfo ++ b'@' ∷ rest

module _ (scheme userinfo rest : Text) (h : member b':' scheme ≡ false)
    (k : member b'@' rest ≡ false) where
  abbrev prefix : Text
  prefix = scheme ++ codes "://"

  abbrev before : Text
  before = prefix ++ userinfo

  uri_of-before : uri_of scheme userinfo rest ≡ before ++ b'@' ∷ rest
  unfolding uri_of
  uri_of-before = refl

  start_lem : authority_start (uri_of scheme userinfo rest) ≡ length prefix
  unfolding uri_of
  start_lem =
      rw (append_assoc prefix userinfo (b'@' ∷ rest))
        (authority_start-append scheme (userinfo ++ b'@' ∷ rest) h)

  end_lem : last_at (uri_of scheme userinfo rest) ≡ some (length before)
  end_lem = rw uri_of-before (last_at-append before rest k)

  userinfo_lem :
      drop (length prefix) (take (length before) (uri_of scheme userinfo rest)) ≡ userinfo
  userinfo_lem = rw (uri_of-before, take-append before (b'@' ∷ rest)) (drop-append prefix userinfo)

  take_lem : take (length prefix) (uri_of scheme userinfo rest) ≡ prefix
  unfolding uri_of
  take_lem =
      rw (append_assoc prefix userinfo (b'@' ∷ rest)) (take-append prefix (userinfo ++ b'@' ∷ rest))

  drop_lem : drop (length before) (uri_of scheme userinfo rest) ≡ b'@' ∷ rest
  drop_lem = rw uri_of-before (drop-append before (b'@' ∷ rest))

  -- the part that names the user stays
  redact_textually-some :
      (user : Text)
      → 1 ≤ length userinfo
      → before_colon userinfo ≡ some user
      → redact_textually (uri_of scheme userinfo rest) ≡ uri_of scheme user rest
  unfolding redact_textually
  redact_textually-some user some_info e =
      let longer : length before ≡ length prefix + length userinfo =
        length-append prefix userinfo in
      let after : leb (length before) (length prefix) ≡ false = ground arith in
      rw (end_lem, start_lem, redact_textually, after, userinfo_lem, e)
        (rw (take_lem, drop_lem) (unfold uri_of in refl))

  redact_textually-none :
      before_colon userinfo ≡ none
      → redact_textually (uri_of scheme userinfo rest) ≡ uri_of scheme userinfo rest
  unfolding redact_textually without_secret
  redact_textually-none e =
      rw (end_lem, start_lem, redact_textually, userinfo_lem, e)
        (if_same (leb (length before) (length prefix)) (uri_of scheme userinfo rest))

-- Of a URI that does not parse, whose scheme and user have no colon and which has no `@` after the one
-- that ends its userinfo, everything stays but the colon and the password after the user, whatever the
-- password is. What is left is not changed again.
pub redact_textually-uri_of :
    (scheme user secret rest : Text)
    → member b':' scheme ≡ false
    → member b':' user ≡ false
    → member b'@' rest ≡ false
    → (redact_textually (uri_of scheme (user ++ b':' ∷ secret) rest) ≡ uri_of scheme user rest)
      × (redact_textually (uri_of scheme user rest) ≡ uri_of scheme user rest)
redact_textually-uri_of scheme user secret rest h u k =
    let longer = length-append user (b':' ∷ secret) in
    (
      redact_textually-some scheme (user ++ b':' ∷ secret) rest h k user (omega arith)
          (before_colon-append user secret u),
      redact_textually-none scheme user rest h k (before_colon-none user u),
    )
