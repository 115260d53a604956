-- ===== src/Container/Archive/Modes.antt =====
-- The POSIX mode of a Go mode: its permissions, its special bits and its type.
use hostctl.Prelude.{
  ℕ, ◌+◌, ◌*◌, ◌/◌, ◌%◌, ◌^◌, ◌<◌, Bool, true, false, ◌≡◌, ◌↔◌, refl, ap, ◌∙◌, arith, ◌||◌,
  if◌then◌else◌,
}
use hostctl.Container.Archive.{has_bit, or_bit, posix_mode}

-- `stat.S_IFMT` of a mode, in units of its lowest bit.
abbrev pub type_of : ℕ → ℕ
type_of mode = mode / 4096 % 16

abbrev pub bit_value : Bool → ℕ → ℕ
bit_value b v = if b then v else 0

or_bit_clear : (k n : ℕ) → has_bit k n ≡ false → or_bit k n ≡ n + 2 ^ k
unfolding or_bit
or_bit_clear k n h = rw h refl

has_bit_small : (k n : ℕ) → n / 2 ^ k % 2 ≡ 0 → has_bit k n ≡ false
unfolding has_bit
has_bit_small k n h = rw h refl

or_bit_small : (k n : ℕ) → n / 2 ^ k % 2 ≡ 0 → or_bit k n ≡ n + 2 ^ k
or_bit_small k n h = or_bit_clear k n (has_bit_small k n h)

special_bit :
    (b : Bool) (k n : ℕ)
    → n / 2 ^ k % 2 ≡ 0
    → (if b then or_bit k n else n) ≡ n + bit_value b (2 ^ k)
special_bit true k n h = or_bit_small k n h
special_bit false k n h = omega arith

-- the permissions with the three special bits
abbrev low_bits : ℕ → ℕ
low_bits mode =
    mode % 512
    + bit_value (has_bit 23 mode) 2048
    + bit_value (has_bit 22 mode) 1024
    + bit_value (has_bit 20 mode) 512

abbrev special : ℕ → Bool → Bool → Bool → ℕ
special start u g t =
    let uid = if u then or_bit 11 start else start in
    let gid = if g then or_bit 10 uid else uid in if t then or_bit 9 gid else gid

special_sum :
    (start : ℕ) (u g t : Bool)
    → start < 512
    → special start u g t ≡ start + bit_value u 2048 + bit_value g 1024 + bit_value t 512
special_sum start u g t h =
    let first = special_bit u 11 start (omega arith) in
    let second = special_bit g 10 (start + bit_value u 2048) (ground arith) in
    let third = special_bit t 9 (start + bit_value u 2048 + bit_value g 1024) (ground arith) in
    rw (first, second) third

or_type :
    (n : ℕ)
    → n < 4096
    → (or_bit 14 n ≡ n + 4096 * 4)
      × (or_bit 13 (or_bit 15 n) ≡ n + 4096 * 10)
      × (or_bit 13 n ≡ n + 4096 * 2)
      × (or_bit 13 (or_bit 14 n) ≡ n + 4096 * 6)
      × (or_bit 12 n ≡ n + 4096 * 1)
      × (or_bit 14 (or_bit 15 n) ≡ n + 4096 * 12)
      × (or_bit 15 n ≡ n + 4096 * 8)
or_type n h =
    let b12 = or_bit_small 12 n (omega arith) in
    let b13 = or_bit_small 13 n (omega arith) in
    let b14 = or_bit_small 14 n (omega arith) in
    let b15 = or_bit_small 15 n (omega arith) in
    (
      b14,
      rw b15 (or_bit_small 13 (n + 2 ^ 15) (omega arith) ∙ omega arith),
      b13,
      rw b14 (or_bit_small 13 (n + 2 ^ 14) (omega arith) ∙ omega arith),
      b12,
      rw b15 (or_bit_small 14 (n + 2 ^ 15) (omega arith) ∙ omega arith),
      b15,
    )

abbrev typed : ℕ → Bool → Bool → Bool → Bool → Bool → Bool → Bool → ℕ
typed n dir symlink device char fifo socket link =
    if dir
    then or_bit 14 n
    else if symlink
    then or_bit 13 (or_bit 15 n)
    else if device
    then if char then or_bit 13 n else or_bit 13 (or_bit 14 n)
    else if fifo
    then or_bit 12 n
    else if socket
    then or_bit 14 (or_bit 15 n)
    else if link
    then or_bit 13 (or_bit 15 n)
    else or_bit 15 n

abbrev go_kind : Bool → Bool → Bool → Bool → Bool → Bool → Bool → ℕ
go_kind dir symlink device char fifo socket link =
    if dir
    then 4
    else if symlink
    then 10
    else if device
    then if char then 2 else 6
    else if fifo
    then 1
    else if socket
    then 12
    else if link
    then 10
    else 8

typed_sum :
    (n : ℕ) (dir symlink device char fifo socket link : Bool)
    → n < 4096
    → typed n dir symlink device char fifo socket link
      ≡ n + 4096 * go_kind dir symlink device char fifo socket link
typed_sum n dir symlink device char fifo socket link h =
    let (d, s, c, b, f, k, r) = or_type n h in ground arith

abbrev kind_of : ℕ → Bool → ℕ
kind_of mode link =
    go_kind (has_bit 31 mode) (has_bit 27 mode) (has_bit 26 mode) (has_bit 21 mode)
      (has_bit 24 mode) (has_bit 25 mode) link

low_bits-bound : (mode : ℕ) → low_bits mode < 4096
low_bits-bound mode = ground arith

posix_mode_sum :
    (mode : ℕ) (link : Bool) → posix_mode mode link ≡ low_bits mode + 4096 * kind_of mode link
unfolding posix_mode
posix_mode_sum mode link =
    let low =
      special_sum (mode % 512) (has_bit 23 mode) (has_bit 22 mode) (has_bit 20 mode)
        (omega arith) in
    ap
      (λ n.
        typed n (has_bit 31 mode) (has_bit 27 mode) (has_bit 26 mode) (has_bit 21 mode)
          (has_bit 24 mode) (has_bit 25 mode) link)
      low
    ∙ typed_sum (low_bits mode) (has_bit 31 mode) (has_bit 27 mode) (has_bit 26 mode)
        (has_bit 21 mode) (has_bit 24 mode) (has_bit 25 mode) link (low_bits-bound mode)

read_low :
    (p k : ℕ) (u g t : Bool)
    → p < 512
    → ((p + bit_value u 2048 + bit_value g 1024 + bit_value t 512 + 4096 * k) % 512 ≡ p)
      × (has_bit 11 (p + bit_value u 2048 + bit_value g 1024 + bit_value t 512 + 4096 * k) ≡ u)
      × (has_bit 10 (p + bit_value u 2048 + bit_value g 1024 + bit_value t 512 + 4096 * k) ≡ g)
      × (has_bit 9 (p + bit_value u 2048 + bit_value g 1024 + bit_value t 512 + 4096 * k) ≡ t)
unfolding has_bit
read_low p k u g t h = (ground arith, ground arith, ground arith, ground arith)

read_type : (n k : ℕ) → n < 4096 → k < 16 → type_of (n + 4096 * k) ≡ k
read_type n k h j = omega arith

go_kind_lem :
    (dir symlink device char fifo socket link : Bool)
    → (go_kind dir symlink device char fifo socket link < 16)
      × ((go_kind dir symlink device char fifo socket link ≡ 4) ↔ (dir ≡ true))
      × ((go_kind dir symlink device char fifo socket link ≡ 8)
          ↔ ((dir || symlink || device || fifo || socket || link) ≡ false))
go_kind_lem dir symlink device char fifo socket link = (ground arith, ground arith, ground arith)

-- `_posix_mode` keeps the nine permission bits, gives the setuid, setgid and sticky bits of the Go
-- mode, and a type that is a directory just for Go's directory bit and a regular file just when no
-- type bit is set and no link target is known.
pub posix_mode_lem :
    (mode : ℕ) (link : Bool)
    → (posix_mode mode link % 512 ≡ mode % 512)
      × (has_bit 11 (posix_mode mode link) ≡ has_bit 23 mode)
      × (has_bit 10 (posix_mode mode link) ≡ has_bit 22 mode)
      × (has_bit 9 (posix_mode mode link) ≡ has_bit 20 mode)
      × ((type_of (posix_mode mode link) ≡ 4) ↔ (has_bit 31 mode ≡ true))
      × ((type_of (posix_mode mode link) ≡ 8) ↔ (
          (has_bit 31 mode
            || has_bit 27 mode
            || has_bit 26 mode
            || has_bit 24 mode
            || has_bit 25 mode
            || link)
          ≡ false))
posix_mode_lem mode link =
    let (perms, uid, gid, sticky) =
      read_low (mode % 512) (kind_of mode link) (has_bit 23 mode) (has_bit 22 mode)
        (has_bit 20 mode) (omega arith) in
    let (small, dir, regular) =
      go_kind_lem (has_bit 31 mode) (has_bit 27 mode) (has_bit 26 mode) (has_bit 21 mode)
        (has_bit 24 mode) (has_bit 25 mode) link in
    rw
      (
        posix_mode_sum mode link,
        read_type (low_bits mode) (kind_of mode link) (low_bits-bound mode) small,
      )
      (perms, uid, gid, sticky, dir, regular)
