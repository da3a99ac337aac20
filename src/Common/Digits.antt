-- ===== src/Common/Digits.antt =====
-- `&` and `|` by their lowest binary digit. The library computes both by a recursion that counts
-- rounds.
use mathlib.Core.Path.{◌≡◌, refl, ap, ◌∙◌}
use mathlib.Core.Logic.{◌⊎◌, inl, inr}
use native.Mathlib.Omega.{arith}
use Prim.Native.Nat.{ℕ, zero, suc, ◌+◌, ◌*◌, ◌/◌, ◌%◌, ◌≤◌, digits, bitwise}
use Prim.Native.Nat.{bit_or, bit_or-bitwise, max, bit_and, bit_and-bitwise, min}

below_or_top : (x rounds : ℕ) → x ≤ suc rounds → (x ≤ rounds) ⊎ (x ≡ suc rounds)
below_or_top x rounds h = ground arith

module _ (rest : ℕ → ℕ) (digit : ℕ → ℕ → ℕ) where
  one_more :
      (rounds x y : ℕ)
      → x ≤ rounds
      → digits rest digit (suc rounds) x y ≡ digits rest digit rounds x y
  one_more zero zero y h = refl
  one_more (suc rounds) zero y h = refl
  one_more zero (suc x) y h = absurd (omega arith)
  one_more (suc rounds) (suc x) y h =
      ap (λ (t : ℕ). t * 2 + digit (suc x % 2) (y % 2))
        (one_more rounds (suc x / 2) (y / 2) (omega arith))

  least_rounds :
      (rounds x y : ℕ) → x ≤ rounds → digits rest digit rounds x y ≡ bitwise rest digit x y
  least_rounds zero zero y h = refl
  least_rounds zero (suc x) y h = absurd (omega arith)
  least_rounds (suc rounds) x y h = elim (below_or_top x rounds h) [
    | inl low ↦ one_more rounds x y low ∙ least_rounds rounds x y low
    | inr top ↦ rw top refl
  ]

  lowest :
      (x y : ℕ)
      → bitwise rest digit (suc x) y
        ≡ digit (suc x % 2) (y % 2) + 2 * bitwise rest digit (suc x / 2) (y / 2)
  lowest x y = omega (arith, least_rounds x (suc x / 2) (y / 2) (omega arith))

pub bit_and_step : (x y : ℕ) → bit_and x y ≡ min (x % 2) (y % 2) + 2 * bit_and (x / 2) (y / 2)
bit_and_step zero y = simp bit_and-bitwise (omega arith)
bit_and_step (suc x) y = simp bit_and-bitwise (lowest (λ _. 0) min x y)

pub bit_or_step : (x y : ℕ) → bit_or x y ≡ max (x % 2) (y % 2) + 2 * bit_or (x / 2) (y / 2)
bit_or_step zero y = simp bit_or-bitwise (omega arith)
bit_or_step (suc x) y = simp bit_or-bitwise (lowest (λ t. t) max x y)
