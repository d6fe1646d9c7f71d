-- ===== src/Bits/Step.antt =====
-- The native `&` and `|` are recursions on fuel; here they are followed one binary digit down.
use Prim.Native.Nat.{bit_or-bitwise, bit_and-bitwise, bitwise, digits, max}
use rpcmple.Common.{
  ℕ, zero, suc, ◌+◌, ◌-◌, ◌*◌, ◌/◌, ◌%◌, ◌≤◌, min, bit_and, bit_or, ◌≡◌, ◌∙◌, refl, ap,
}
use rpcmple.Common.{arith}

module _ (left_over : ℕ → ℕ) (digit : ℕ → ℕ → ℕ) where
  abbrev run : ℕ → ℕ → ℕ → ℕ
  run fuel x y = digits left_over digit fuel x y

  -- One unit of fuel more is of no use.
  run_longer : (fuel x y : ℕ) → x ≤ fuel → run (suc fuel) x y ≡ run fuel x y
  run_longer zero zero y enough = refl
  run_longer (suc fuel) zero y enough = refl
  run_longer zero (suc x) y enough = absurd (omega arith)
  run_longer (suc fuel) (suc x) y enough =
      ap (λ (r : ℕ). r * 2 + digit (suc x % 2) (y % 2))
        (run_longer fuel (suc x / 2) (y / 2) (omega arith))

  run_spare : (spare fuel x y : ℕ) → fuel ≡ spare + x → run fuel x y ≡ run x x y
  run_spare zero fuel x y e = let same : fuel ≡ x = omega arith in ap (λ (n : ℕ). run n x y) same
  run_spare (suc spare) zero x y e = absurd (omega arith)
  run_spare (suc spare) (suc fuel) x y e =
      run_longer fuel x y (omega arith) ∙ run_spare spare fuel x y (omega arith)

  lowest_digit :
      (x y : ℕ)
      → bitwise left_over digit (suc x) y
        ≡ digit (suc x % 2) (y % 2) + 2 * bitwise left_over digit (suc x / 2) (y / 2)
  lowest_digit x y =
      let half : ℕ = suc x / 2 in omega (arith, run_spare (x - half) x half (y / 2) (omega arith))

-- Both operations, in terms of the halves of the numbers.
pub bit_halves :
    (x y : ℕ)
    → (bit_and x y ≡ min (x % 2) (y % 2) + 2 * bit_and (x / 2) (y / 2))
      × (bit_or x y ≡ max (x % 2) (y % 2) + 2 * bit_or (x / 2) (y / 2))
bit_halves zero y = (simp bit_and-bitwise (omega arith), simp bit_or-bitwise (omega arith))
bit_halves (suc x) y = (
  simp bit_and-bitwise (lowest_digit (λ _. 0) min x y),
  simp bit_or-bitwise (lowest_digit (λ rest. rest) max x y),
)
