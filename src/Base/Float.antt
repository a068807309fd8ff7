-- ===== src/Base/Float.antt =====
-- Python's floats with their comparisons. A finite one is a whole number of units of 2^-1074, the
-- smallest positive float, of which every finite float is a multiple; zero has no sign.
use Prim.Native.Nat.{ℕ, ◌*◌, ◌^◌}
use mathlib.Core.Bool.{Bool, true, false}
use supervisor_agent.Base.Int.{ℤ, pos, leℤ}
use supervisor_agent.Base.Tests.{if◌then◌else◌}

pub data Float : Type 0 where
  nan : Float
  minus_infinity : Float
  finite : ℤ → Float
  infinity : Float

-- `float(n)` of a small whole number, in units
abbrev pub units : ℕ → ℤ
units n = pos (n * 2 ^ 1074)

abbrev pub whole : ℕ → Float
whole n = finite (units n)

-- `a <= b`, which is false where one of them is NaN
abbrev pub le : Float → Float → Bool
le nan b = false
le a nan = false
le minus_infinity b = true
le a infinity = true
le (finite a) (finite b) = leℤ a b
le (finite a) minus_infinity = false
le infinity b = false

-- `a < b`
abbrev pub lt : Float → Float → Bool
lt nan b = false
lt a nan = false
lt a b = if le b a then false else true
