-- ===== src/Prelude/Bytes.antt =====
-- Facts about every ASCII code, checked one by one.
use Prim.Native.Nat.{ℕ, zero, suc, ◌+◌, ◌<◌}
use mathlib.Core.Path.{◌≡◌}
use mathlib.Core.Bool.{Bool, true, ◌&&◌}
use native.Mathlib.Omega.{arith}

module _ (holds : ℕ → Bool) where
  -- the `count` codes from `start` on
  holds_from : ℕ → ℕ → Bool
  holds_from start zero = true
  holds_from start (suc count) = holds start && holds_from (start + 1) count

  holds_from-lt :
      (count start c : ℕ) → holds_from start count ≡ true → c < count → holds (start + c) ≡ true
  unfolding holds_from
  holds_from-lt zero start c h lt = absurd (omega arith)
  holds_from-lt (suc count) start zero h lt = ground arith
  holds_from-lt (suc count) start (suc c) h lt = ground (arith, holds_from-lt count (start + 1) c)

  unfoldable pub every_ascii : Bool
  unfolding holds_from
  every_ascii = holds_from 0 128

  pub every_ascii-lt : (c : ℕ) → every_ascii ≡ true → c < 128 → holds c ≡ true
  unfolding every_ascii
  every_ascii-lt c h lt = ground (arith, holds_from-lt 128 0 c h lt)
