-- ===== src/Prelude/Words.antt =====
-- `uint32_t` and `uint8_t` as native numbers below the modulus, with the wrap-around written out.
use Prim.Native.Nat.{ℕ, ◌+◌, ◌-◌, ◌%◌, ◌^◌}

abbrev pub add32 : ℕ → ℕ → ℕ
add32 a b = (a + b) % 2 ^ 32

abbrev pub sub32 : ℕ → ℕ → ℕ
sub32 a b = (a + 2 ^ 32 - b) % 2 ^ 32

abbrev pub to_uint8 : ℕ → ℕ
to_uint8 a = a % 2 ^ 8
