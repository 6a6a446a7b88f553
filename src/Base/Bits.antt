-- ===== src/Base/Bits.antt =====
-- Facts about `&`, `|` and `~` on words, one bit at a time.
mod Step
use Step.{bit_and_step, bit_or_step, bit_xor_step}
use Prim.Native.Nat.{
  ℕ, zero, suc, ◌+◌, ◌-◌, ◌*◌, ◌/◌, ◌%◌, ◌^◌, ◌≤◌, ◌<◌, min, max, bit_and, bit_or, bit_xor, differ,
  bit_and-bitwise,
}
use mathlib.Core.Path.{◌≡◌, refl, ap, ◌∙◌}
use mathlib.Core.Logic.{◌⊎◌, inl, inr}
use mathlib.Core.Bool.{Bool, true, false, not, ◌&&◌, ◌||◌}
use native.Mathlib.Omega.{arith}
use native.Mathlib.Nat.{pow-suc, one-le-pow}
use reaper_operating_system.Base.Tests.{ltb, ◌==◌, ==→eq, Bool-cases}

-- Is bit `i` of `a` set?
abbrev pub testbit : ℕ → ℕ → Bool
testbit a zero = a % 2 == 1
testbit a (suc i) = testbit (a / 2) i

-- `~a` on `w` bits
abbrev pub bit_not : ℕ → ℕ → ℕ
bit_not w a = 2 ^ w - 1 - a

-- `(a & m) != 0`
abbrev pub has_flag : ℕ → ℕ → Bool
has_flag a m = not (bit_and a m == 0)

below_zero : (n a : ℕ) → a ≤ n → bit_and a 0 ≡ 0
below_zero n zero h = refl
below_zero zero (suc a) h = absurd (omega arith)
below_zero (suc n) (suc a) h =
    omega (arith, bit_and_step (suc a) 0, below_zero n (suc a / 2) (omega arith))

pub bit_and-zero : (a : ℕ) → bit_and a 0 ≡ 0
bit_and-zero a = below_zero a a (omega arith)

pub half-bit_and : (a b : ℕ) → bit_and a b / 2 ≡ bit_and (a / 2) (b / 2)
half-bit_and a b = omega (arith, bit_and_step a b)

pub half-bit_or : (a b : ℕ) → bit_or a b / 2 ≡ bit_or (a / 2) (b / 2)
half-bit_or a b = omega (arith, bit_or_step a b)

pub testbit-bit_and : (i a b : ℕ) → testbit (bit_and a b) i ≡ (testbit a i && testbit b i)
testbit-bit_and zero a b = ground (arith, bit_and_step a b)
testbit-bit_and (suc i) a b = rw (half-bit_and a b) (testbit-bit_and i (a / 2) (b / 2))

pub testbit-bit_or : (i a b : ℕ) → testbit (bit_or a b) i ≡ (testbit a i || testbit b i)
testbit-bit_or zero a b = ground (arith, bit_or_step a b)
testbit-bit_or (suc i) a b = rw (half-bit_or a b) (testbit-bit_or i (a / 2) (b / 2))

pub testbit-zero : (i : ℕ) → testbit 0 i ≡ false
testbit-zero zero = refl
testbit-zero (suc i) = testbit-zero i

half_pow : (k : ℕ) → 2 ^ suc k / 2 ≡ 2 ^ k
half_pow k = omega (arith, pow-suc 2 k)

even_pow : (k : ℕ) → 2 ^ suc k % 2 ≡ 0
even_pow k = omega (arith, pow-suc 2 k)

pub testbit-pow : (k i : ℕ) → testbit (2 ^ k) i ≡ (k == i)
testbit-pow zero zero = refl
testbit-pow zero (suc i) = rw (testbit-zero i) (ground arith)
testbit-pow (suc k) zero = rw (even_pow k) (ground arith)
testbit-pow (suc k) (suc i) = rw (half_pow k) (testbit-pow k i ∙ ground arith)

-- Within the width, `~` flips each bit.
pub testbit-bit_not : (w i a : ℕ) → i < w → a < 2 ^ w → testbit (bit_not w a) i ≡ not (testbit a i)
testbit-bit_not zero i a h fits = absurd (omega arith)
testbit-bit_not (suc w) zero a h fits = ground (arith, pow-suc 2 w, one-le-pow w 2)
testbit-bit_not (suc w) (suc i) a h fits =
    rw (halved) (testbit-bit_not w i (a / 2) (omega arith) (omega (arith, pow-suc 2 w)))
  where
    halved : (2 ^ suc w - 1 - a) / 2 ≡ 2 ^ w - 1 - a / 2
    halved = omega (arith, pow-suc 2 w, one-le-pow w 2)

pub bit_or-lt : (w a b : ℕ) → a < 2 ^ w → b < 2 ^ w → bit_or a b < 2 ^ w
bit_or-lt zero a b ha hb =
    let none_a : a ≡ 0 = omega arith in
    let none_b : b ≡ 0 = omega arith in rw (none_a, none_b) (omega arith)
bit_or-lt (suc w) a b ha hb = omega (
  arith,
  pow-suc 2 w,
  bit_or_step a b,
  bit_or-lt w (a / 2) (b / 2) (omega (arith, pow-suc 2 w)) (omega (arith, pow-suc 2 w)),
)

-- `a & b` is below either operand's bound.
pub bit_and-lt : (w a b : ℕ) → b < 2 ^ w → bit_and a b < 2 ^ w
bit_and-lt zero a b hb = let none_b : b ≡ 0 = omega arith in rw (none_b, bit_and-zero) (omega arith)
bit_and-lt (suc w) a b hb = omega (
  arith,
  pow-suc 2 w,
  bit_and_step a b,
  bit_and-lt w (a / 2) (b / 2) (omega (arith, pow-suc 2 w)),
)

-- A test against a single bit reads that bit.
pub has_flag-pow : (k a : ℕ) → has_flag a (2 ^ k) ≡ testbit a k
has_flag-pow zero a = ground (arith, bit_and_step a 1, bit_and-zero (a / 2))
has_flag-pow (suc k) a =
    ground (arith, bit_and_step a (2 ^ suc k), half_pow k, even_pow k, has_flag-pow k (a / 2))

zero_and : (m : ℕ) → bit_and 0 m ≡ 0
zero_and m = bit_and-bitwise 0 m

-- A test against several bits is a test against each.
flags_below : (n a m k : ℕ) → a ≤ n → has_flag a (bit_or m k) ≡ (has_flag a m || has_flag a k)
flags_below n zero m k h = ground (arith, zero_and (bit_or m k), zero_and m, zero_and k)
flags_below zero (suc a) m k h = absurd (omega arith)
flags_below (suc n) (suc a) m k h = ground (
  arith,
  bit_and_step (suc a) (bit_or m k),
  bit_or_step m k,
  half-bit_or m k,
  bit_and_step (suc a) m,
  bit_and_step (suc a) k,
  flags_below n (suc a / 2) (m / 2) (k / 2) (omega arith),
)

pub has_flag-bit_or : (a m k : ℕ) → has_flag a (bit_or m k) ≡ (has_flag a m || has_flag a k)
has_flag-bit_or a m k = flags_below a a m k (omega arith)

-- the exclusive or of one digit with 0
differ-zero : (d : ℕ) → differ d 0 ≡ d
differ-zero zero = refl
differ-zero (suc d) = refl

xor_below : (n a : ℕ) → a ≤ n → bit_xor a 0 ≡ a
xor_below n zero h = refl
xor_below zero (suc a) h = absurd (omega arith)
xor_below (suc n) (suc a) h =
    let step = bit_xor_step (suc a) 0 in
    let rest = xor_below n (suc a / 2) (omega arith) in
    let digit = differ-zero (suc a % 2) in omega (arith, step, rest, digit)

-- the exclusive or of one digit with 1
differ-one : (d : ℕ) → d < 2 → differ d 1 + d ≡ 1
differ-one zero h = refl
differ-one (suc zero) h = refl
differ-one (suc (suc d)) h = absurd (omega arith)

-- The exclusive or with a power of 2 adds it or takes it away.
pub bit_xor-pow : (k a : ℕ) → (bit_xor a (2 ^ k) ≡ a + 2 ^ k) ⊎ (bit_xor a (2 ^ k) + 2 ^ k ≡ a)
bit_xor-pow zero a =
    let step = bit_xor_step a 1 in
    let rest = xor_below (a / 2) (a / 2) (omega arith) in
    let digit = differ-one (a % 2) (omega arith) in
    elim (Bool-cases (a % 2 == 0)) [
      | inl e ↦ let even = ==→eq _ 0 e in inl (omega (arith, step, rest, digit, even))
      | inr e ↦ let odd : a % 2 ≡ 1 = ground arith in inr (omega (arith, step, rest, digit, odd))
    ]
bit_xor-pow (suc k) a =
    let step = bit_xor_step a (2 ^ suc k) in
    let half = ap (bit_xor (a / 2)) (half_pow k) in
    let low = ap (differ (a % 2)) (even_pow k) in
    let digit = differ-zero (a % 2) in
    let double = pow-suc 2 k in
    elim (bit_xor-pow k (a / 2)) [
      | inl up ↦ inl (omega (arith, step, half, low, digit, double, up))
      | inr down ↦ inr (omega (arith, step, half, low, digit, double, down))
    ]
