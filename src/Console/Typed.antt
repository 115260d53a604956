-- ===== src/Console/Typed.antt =====
-- `_typed_batches` and `_type` of console/_posix.py: the lines that are typed to run a command, in
-- batches that the shell acknowledges and in writes. A text is the list of its character codes.
-- `_CHUNK` is 768 and `_ACK_ROOM` 64.
pub mod Decimal
pub mod Sizes
pub mod Groups
pub mod Bounds
pub mod Writes
pub mod Tests
use hostctl.Prelude.{
  ℕ, zero, suc, ◌+◌, ◌-◌, ◌*◌, ◌/◌, ◌%◌, ◌==◌, Bool, true, false, ◌&&◌, not, Option, none, some,
  List, [], ◌∷◌, ◌++◌, length, take, drop, null, ltb, leb, map, if◌then◌else◌, codes,
}

-- `base64.b64encode`: the character of six bits, and the text of some bytes.
unfoldable pub sextet : ℕ → ℕ
sextet n =
    if ltb n 26
    then n + b'A'
    else if ltb n 52
    then n - 26 + b'a'
    else if ltb n 62
    then n - 52 + b'0'
    else if n == 62
    then b'+'
    else b'/'

unfoldable pub b64encode : List ℕ → List ℕ
unfolding sextet
b64encode [] = []
b64encode (a ∷ []) = sextet (a / 4) ∷ sextet (a % 4 * 16) ∷ codes "=="
b64encode (a ∷ b ∷ []) =
    sextet (a / 4) ∷ sextet (a % 4 * 16 + b / 16) ∷ sextet (b % 16 * 4) ∷ codes "="
b64encode (a ∷ b ∷ c ∷ rest) =
    sextet (a / 4)
    ∷ sextet (a % 4 * 16 + b / 16)
    ∷ sextet (b % 16 * 4 + c / 64)
    ∷ sextet (c % 64)
    ∷ b64encode rest

-- `sep.join(parts)`
abbrev pub joined_by : List ℕ → List (List ℕ) → List ℕ
joined_by sep [] = []
joined_by sep (part ∷ []) = part
joined_by sep (part ∷ next ∷ parts) = part ++ (sep ++ joined_by sep (next ∷ parts))

abbrev pub percents : List (List ℕ) → List ℕ
percents [] = []
percents (part ∷ parts) = codes "%s" ++ percents parts

abbrev pub quoted : List ℕ → List ℕ
quoted part = codes "\"" ++ (part ++ codes "\"")

-- `_halves`
abbrev pub halves : List (List ℕ) → List ℕ
halves parts =
    codes "printf " ++ (percents parts ++ (codes " " ++ joined_by (codes " ") (map quoted parts)))

-- `str(number)`, on fuel.
unfoldable pub decimal_from : ℕ → ℕ → List ℕ
decimal_from zero n = (b'0' + n % 10) ∷ []
decimal_from (suc fuel) n =
    let higher = decimal_from fuel (n / 10) in
    if ltb n 10 then (b'0' + n) ∷ [] else higher ++ ((b'0' + n % 10) ∷ [])

unfoldable pub decimal : ℕ → List ℕ
decimal n = decimal_from n n

-- `encoded[offset:offset + _CHUNK]` for each offset.
unfoldable pub slices : ℕ → List ℕ → List (List ℕ)
slices zero text = []
slices (suc fuel) text =
    let later = slices fuel (drop 768 text) in if null text then [] else take 768 text ∷ later

module _ (token : List ℕ) where
  abbrev pub var : List ℕ
  var = codes "__hc" ++ token

  abbrev pub tmp : List ℕ
  tmp = codes "\"$" ++ (b'{' ∷ (var ++ (codes "d:?" ++ (b'}' ∷ codes "\""))))

  -- `append` for one piece of the encoding.
  unfoldable pub append_line : List ℕ → List ℕ → List ℕ
  append_line name piece =
      codes "printf %s '" ++ (piece ++ (codes "' >> " ++ (tmp ++ (codes "/" ++ name))))

  unfoldable pub append_lines : List ℕ → List ℕ → List (List ℕ)
  unfolding slices append_line
  append_lines content name =
      map (append_line name) (slices (length (b64encode content)) (b64encode content))

  unfoldable pub input_lines : Option (List ℕ) → List (List ℕ)
  input_lines none = []
  input_lines (some []) = []
  input_lines (some (c ∷ cs)) =
      append_lines (c ∷ cs) (codes "i")
      ++ (codes "base64 -d < " ++ (tmp ++ (codes "/i > " ++ (tmp ++ codes "/f")))) ∷ []

  -- The lines before the one that runs the command.
  unfoldable pub setup_lines : List ℕ → Option (List ℕ) → List (List ℕ)
  setup_lines command input =
      (var ++ codes "d=$(mktemp -d)") ∷ (append_lines command (codes "c") ++ input_lines input)

  abbrev pub stdin_of : Option (List ℕ) → List ℕ
  stdin_of (some (c ∷ cs)) = tmp ++ codes "/f"
  stdin_of _ = codes "/dev/null"

  abbrev pub stderr_of : Bool → List ℕ
  stderr_of true = codes "2>&1"
  stderr_of false = codes "2>" ++ (tmp ++ codes "/e")

  -- `main`, and the commands in it
  abbrev pub main_parts : Option (List ℕ) → Bool → List (List ℕ)
  main_parts input merge_stderr =
      (var ++ codes "s=$(stty -g 2>/dev/null)")
      ∷ codes "stty -opost 2>/dev/null"
      ∷ halves (codes "__ST" ∷ (token ++ codes "__") ∷ [])
      ∷ (codes "eval \"$(base64 -d < "
          ++ (tmp
              ++ (codes "/c)\" < " ++ (stdin_of input ++ (codes " " ++ stderr_of merge_stderr)))))
      ∷ (var ++ codes "r=$?")
      ∷ halves (codes "__OUT" ∷ (token ++ codes "__") ∷ [])
      ∷ (codes "cat " ++ (tmp ++ codes "/e 2>/dev/null"))
      ∷ (codes "rm -rf " ++ tmp)
      ∷ (codes "stty \"$" ++ (var ++ codes "s\" 2>/dev/null"))
      ∷ halves (
          codes "__EN"
          ∷ (token ++ codes "_")
          ∷ (codes "$" ++ (var ++ codes "r"))
          ∷ codes "_EN__"
          ∷ [])
      ∷ (codes "unset " ++ (var ++ (codes "d " ++ (var ++ (codes "r " ++ (var ++ codes "s"))))))
      ∷ []

  unfoldable pub main_line : Option (List ℕ) → Bool → List ℕ
  main_line input merge_stderr = joined_by (codes "; ") (main_parts input merge_stderr)

  -- `"; " + _halves("__AK", ...)`
  unfoldable pub acknowledgement : ℕ → List ℕ
  acknowledgement number =
      codes "; "
      ++ halves (codes "__AK" ∷ (token ++ (codes "_" ++ (decimal number ++ codes "__"))) ∷ [])

-- `batches[:-1]`, `batches[-1]` and `size`.
pub record Batches : Type 0 where
  pub closed : List (List (List ℕ))
  pub current : List (List ℕ)
  pub size : ℕ

-- One round of the loop over the lines.
unfoldable pub add_line : ℕ → Batches → List ℕ → Batches
add_line budget s line =
    if not (null s.current) && ltb budget (s.size + length line + 1)
    then record {
      closed = s.closed ++ s.current ∷ [];
      current = line ∷ [];
      size = 0 + length line + 1;
    }
    else record s { current = s.current ++ line ∷ []; size = s.size + length line + 1 }

unfoldable pub add_lines : ℕ → Batches → List (List ℕ) → Batches
unfolding add_line
add_lines budget s [] = s
add_lines budget s (line ∷ lines) = add_lines budget (add_line budget s line) lines

abbrev pub no_batches : Batches
no_batches = record { closed = []; current = []; size = 0 }

-- Each batch but the last, the last line of which also acknowledges it.
unfoldable pub with_ack : List ℕ → List (List ℕ) → List (List ℕ)
with_ack ack [] = []
with_ack ack (line ∷ []) = (line ++ ack) ∷ []
with_ack ack (line ∷ next ∷ lines) = line ∷ with_ack ack (next ∷ lines)

unfoldable pub acknowledged : List ℕ → ℕ → List (List (List ℕ)) → List (List (List ℕ))
unfolding with_ack acknowledgement
acknowledged token number [] = []
acknowledged token number (batch ∷ batches) =
    with_ack (acknowledgement token number) batch ∷ acknowledged token (suc number) batches

-- `_typed_batches`; a batch of `none` is one batch.
unfoldable pub typed_batches :
    List ℕ → List ℕ → Option (List ℕ) → Bool → Option ℕ → List (List (List ℕ))
typed_batches token command input merge_stderr none =
    (setup_lines token command input ++ main_line token input merge_stderr ∷ []) ∷ []
typed_batches token command input merge_stderr (some batch) =
    let s = add_lines (batch - 64) no_batches (setup_lines token command input) in
    let last = add_line (batch - 64) s (main_line token input merge_stderr) in
    acknowledged token 1 last.closed ++ last.current ∷ []
