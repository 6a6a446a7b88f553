-- ===== src/Pcid/Bitmap.antt =====
-- The bitmaps of kernel/pcid.c: a bit is set, cleared and read by its index, and counted.
use reaper_operating_system.Base.{
  ℕ, zero, suc, ◌/◌, ◌%◌, ◌^◌, ◌≤◌, ◌<◌, ◌≡◌, bit_and, bit_or, Bool, true, false, not, ◌||◌, ◌&&◌,
  List, arith, ltb, ◌==◌, if◌then◌else◌, get_or, set, length, length-set, get_or-set,
}
use native.Mathlib.Nat.{pow-le-pow_right}
use reaper_operating_system.Base.Bits.{
  testbit, has_flag, bit_not, has_flag-pow, testbit-bit_or, testbit-bit_and, testbit-pow,
  testbit-bit_not,
}

unfoldable pub bitmap_set_relative : List ℕ → ℕ → List ℕ
bitmap_set_relative bitmap i =
    set bitmap (i / 64) (bit_or (get_or bitmap (i / 64) 0) (2 ^ (i % 64)))

unfoldable pub bitmap_clear_relative : List ℕ → ℕ → List ℕ
bitmap_clear_relative bitmap i =
    set bitmap (i / 64) (bit_and (get_or bitmap (i / 64) 0) (bit_not 64 (2 ^ (i % 64))))

unfoldable pub bitmap_test_relative : List ℕ → ℕ → Bool
bitmap_test_relative bitmap i = has_flag (get_or bitmap (i / 64) 0) (2 ^ (i % 64))

pow-lt : (k : ℕ) → k < 64 → 2 ^ k < 2 ^ 64
pow-lt k h =
    let below : 2 ^ k ≤ 2 ^ 63 = pow-le-pow_right (omega arith) {j = 63} (omega arith) in
    omega arith

bitmap_test-bit :
    (bm : List ℕ) (i : ℕ) → bitmap_test_relative bm i ≡ testbit (get_or bm (i / 64) 0) (i % 64)
unfolding bitmap_test_relative
bitmap_test-bit bm i = has_flag-pow (i % 64) (get_or bm (i / 64) 0)

pub bitmap_test-set :
    (bm : List ℕ) (i j : ℕ)
    → i / 64 < length bm
    → bitmap_test_relative (bitmap_set_relative bm i) j ≡ (i == j || bitmap_test_relative bm j)
unfolding bitmap_set_relative
bitmap_test-set bm i j fits =
    let w = get_or bm (i / 64) 0 in
    rw (bitmap_test-bit, bitmap_test-bit)
      (ground (
        arith,
        get_or-set bm (i / 64) (j / 64) (bit_or w (2 ^ (i % 64))) 0 fits,
        testbit-bit_or (j % 64) w (2 ^ (i % 64)),
        testbit-pow (i % 64) (j % 64),
      ))

pub bitmap_test-clear :
    (bm : List ℕ) (i j : ℕ)
    → i / 64 < length bm
    → bitmap_test_relative (bitmap_clear_relative bm i) j
      ≡ (not (i == j) && bitmap_test_relative bm j)
unfolding bitmap_clear_relative
bitmap_test-clear bm i j fits =
    let w = get_or bm (i / 64) 0 in
    rw (bitmap_test-bit, bitmap_test-bit)
      (ground (
        arith,
        get_or-set bm (i / 64) (j / 64) (bit_and w (bit_not 64 (2 ^ (i % 64)))) 0 fits,
        testbit-bit_and (j % 64) w (bit_not 64 (2 ^ (i % 64))),
        testbit-bit_not 64 (j % 64) (2 ^ (i % 64)) (omega arith) (pow-lt (i % 64) (omega arith)),
        testbit-pow (i % 64) (j % 64),
      ))

pub length-bitmap_set : (bm : List ℕ) (i : ℕ) → length (bitmap_set_relative bm i) ≡ length bm
unfolding bitmap_set_relative
length-bitmap_set bm i = length-set bm _ _

pub length-bitmap_clear : (bm : List ℕ) (i : ℕ) → length (bitmap_clear_relative bm i) ≡ length bm
unfolding bitmap_clear_relative
length-bitmap_clear bm i = length-set bm _ _

-- how many of the first `n` bits are set
abbrev pub count_set : List ℕ → ℕ → ℕ
count_set bm zero = 0
count_set bm (suc n) =
    let rest = count_set bm n in if bitmap_test_relative bm n then suc rest else rest

pub count_set-le : (bm : List ℕ) (n : ℕ) → count_set bm n ≤ n
count_set-le bm zero = omega arith
count_set-le bm (suc n) = ground (arith, count_set-le bm n)

-- setting a clear bit below `n` counts one more, and no bit at or above `n` counts
pub count_set-set :
    (bm : List ℕ) (i n : ℕ)
    → i / 64 < length bm
    → bitmap_test_relative bm i ≡ false
    → count_set (bitmap_set_relative bm i) n
      ≡ (if ltb i n then suc (count_set bm n) else count_set bm n)
count_set-set bm i zero fits clear = ground arith
count_set-set bm i (suc n) fits clear =
    ground (arith, count_set-set bm i n fits clear, bitmap_test-set bm i n fits)

pub count_set-clear :
    (bm : List ℕ) (i n : ℕ)
    → i / 64 < length bm
    → bitmap_test_relative bm i ≡ true
    → count_set bm n ≡ (
        if ltb i n
        then suc (count_set (bitmap_clear_relative bm i) n)
        else count_set (bitmap_clear_relative bm i) n)
count_set-clear bm i zero fits taken = ground arith
count_set-clear bm i (suc n) fits taken =
    ground (arith, count_set-clear bm i n fits taken, bitmap_test-clear bm i n fits)

pub count_set-clear_below :
    (bm : List ℕ) (i n : ℕ)
    → i / 64 < length bm
    → bitmap_test_relative bm i ≡ true
    → i < n
    → count_set bm n ≡ suc (count_set (bitmap_clear_relative bm i) n)
count_set-clear_below bm i n fits taken below = ground (arith, count_set-clear bm i n fits taken)
