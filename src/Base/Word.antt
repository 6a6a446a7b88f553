-- ===== src/Base/Word.antt =====
-- Unsigned machine integers as native numbers: each width's modulus and wrapping operations.
use Prim.Native.Nat.{ℕ, zero, suc, ◌+◌, ◌*◌, ◌-◌, ◌/◌, ◌%◌}
use mathlib.Core.List.{List, [], ◌∷◌}

abbrev pub u8 : ℕ → ℕ
u8 n = n % 256

abbrev pub u16 : ℕ → ℕ
u16 n = n % 65536

abbrev pub u32 : ℕ → ℕ
u32 n = n % 4294967296

abbrev pub u64 : ℕ → ℕ
u64 n = n % 18446744073709551616

abbrev pub u64_max : ℕ
u64_max = 18446744073709551615

-- a - b on `uint64_t`, for operands in range
abbrev pub sub64 : ℕ → ℕ → ℕ
sub64 a b = u64 (a + 18446744073709551616 - b)

-- the `n` bytes of a value, low byte first, as `memcpy` lays them out on x86-64
abbrev pub le_bytes : ℕ → ℕ → List ℕ
le_bytes zero v = []
le_bytes (suc n) v = (v % 256) ∷ le_bytes n (v / 256)

-- the value of the first `n` bytes
abbrev pub from_le : ℕ → List ℕ → ℕ
from_le zero bs = 0
from_le (suc n) [] = 0
from_le (suc n) (b ∷ bs) = b + 256 * from_le n bs
