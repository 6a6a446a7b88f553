-- ===== src/Base/Bits/Step.antt =====
-- One binary digit of `&` and `|`. The library gives both as a recursion on the digits that carries
-- a count of steps; a count larger than the first operand changes nothing.
use Prim.Native.Nat.{
  ℕ, zero, suc, ◌+◌, ◌-◌, ◌*◌, ◌/◌, ◌%◌, ◌≤◌, min, max, bit_and, bit_or, digits, bitwise,
  bit_and-bitwise, bit_or-bitwise, bit_xor, bit_xor-bitwise, differ,
}
use mathlib.Core.Path.{◌≡◌, refl, ap, ◌∙◌}
use native.Mathlib.Omega.{arith}

module _ (rest : ℕ → ℕ) (op : ℕ → ℕ → ℕ) where
  one_more : (steps x y : ℕ) → x ≤ steps → digits rest op (suc steps) x y ≡ digits rest op steps x y
  one_more zero zero y h = refl
  one_more zero (suc x) y h = absurd (omega arith)
  one_more (suc steps) zero y h = refl
  one_more (suc steps) (suc x) y h =
      ap (λ t. t * 2 + op (suc x % 2) (y % 2)) (one_more steps (suc x / 2) (y / 2) (omega arith))

  spare :
      (extra steps count x y : ℕ)
      → x ≤ steps
      → count ≡ extra + steps
      → digits rest op count x y ≡ digits rest op steps x y
  spare zero steps count x y h e =
      let same : count ≡ steps = omega arith in ap (λ n. digits rest op n x y) same
  spare (suc extra) steps zero x y h e = absurd (omega arith)
  spare (suc extra) steps (suc count) x y h e =
      one_more count x y (omega arith) ∙ spare extra steps count x y h (omega arith)

  lowest :
      (x y : ℕ)
      → bitwise rest op (suc x) y ≡ bitwise rest op (suc x / 2) (y / 2) * 2 + op (suc x % 2) (y % 2)
  lowest x y =
      let half = suc x / 2 in
      ap (λ t. t * 2 + op (suc x % 2) (y % 2))
        (spare (x - half) half x half (y / 2) (omega arith) (omega arith))

pub bit_or_step : (x y : ℕ) → bit_or x y ≡ bit_or (x / 2) (y / 2) * 2 + max (x % 2) (y % 2)
bit_or_step (suc x) y = simp bit_or-bitwise (lowest (λ d. d) max x y)
bit_or_step zero y = simp bit_or-bitwise (omega arith)

pub bit_and_step : (x y : ℕ) → bit_and x y ≡ bit_and (x / 2) (y / 2) * 2 + min (x % 2) (y % 2)
bit_and_step (suc x) y = simp bit_and-bitwise (lowest (λ d. zero) min x y)
bit_and_step zero y = simp bit_and-bitwise (omega arith)

pub bit_xor_step : (x y : ℕ) → bit_xor x y ≡ bit_xor (x / 2) (y / 2) * 2 + differ (x % 2) (y % 2)
bit_xor_step (suc x) y = simp bit_xor-bitwise (lowest (λ d. d) differ x y)
bit_xor_step zero y = simp bit_xor-bitwise (omega arith)
