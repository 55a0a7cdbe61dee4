-- ===== src/Base/Words.antt =====
-- Go's fixed-width integers as bit patterns. An `int32` is a number below 2 ^ 32, an `int` and an
-- `int64` one below 2 ^ 64, both in two's complement.
use Prim.Native.Nat.{ℕ, ◌+◌, ◌-◌, ◌%◌, ◌^◌, ◌<◌}
use mathlib.Core.Path.{◌≡◌}
use mathlib.Core.Bool.{Bool, ◌&&◌}
use mathlib.Core.List.{List}
use native.Mathlib.Omega.{arith}
use mcp_k8s.Base.Test.{ltb, if◌then◌else◌}

-- A Go string that need not be valid UTF-8: its bytes.
abbrev pub Bytes : Type 0
Bytes = List ℕ

-- `a + b` on int32
abbrev pub add32 : ℕ → ℕ → ℕ
add32 a b = (a + b) % 2 ^ 32

-- `a < b` on int32
abbrev pub lt32 : ℕ → ℕ → Bool
lt32 a b = ltb ((a + 2 ^ 31) % 2 ^ 32) ((b + 2 ^ 31) % 2 ^ 32)

-- `int32(a)` for an `int` a
abbrev pub to_int32 : ℕ → ℕ
to_int32 a = a % 2 ^ 32

-- `int(a)` for an `int32` a: the sign is extended
abbrev pub to_int : ℕ → ℕ
to_int a = if ltb a (2 ^ 31) then a else a + 2 ^ 64 - 2 ^ 32

-- `a > 0` on int
abbrev pub is_pos : ℕ → Bool
is_pos a = ltb 0 a && ltb a (2 ^ 63)

-- `a + 1` on uint64
abbrev pub inc64 : ℕ → ℕ
inc64 a = (a + 1) % 2 ^ 64

-- A limit that fits int32 survives the trip through int32 and back.
pub to_int-to_int32 : (a : ℕ) → a < 2 ^ 31 → to_int (to_int32 a) ≡ a
to_int-to_int32 a h = ground arith

pub add32_assoc : (a b c : ℕ) → add32 (add32 a b) c ≡ add32 a (add32 b c)
add32_assoc a b c = omega arith
