-- ===== src/Hwstamp/Options/Flags.antt =====
-- The flags of timestamping.c as the binary digits of a number.
use zynq_can_sja1000_top.Common.{ℕ, zero, suc, ◌/◌, ◌%◌, ◌≡◌, refl, arith, bit_or}
use zynq_can_sja1000_top.Common.Digits.{bit_or_step}
use Prim.Native.Nat.{max}

-- The binary digit of a number at a place.
abbrev pub digit : ℕ → ℕ → ℕ
digit zero x = x % 2
digit (suc k) x = digit k (x / 2)

half-bit_or : (x y : ℕ) → bit_or x y / 2 ≡ bit_or (x / 2) (y / 2)
half-bit_or x y = omega (arith, bit_or_step x y)

pub digit-bit_or : (k x y : ℕ) → digit k (bit_or x y) ≡ max (digit k x) (digit k y)
digit-bit_or zero x y = omega (arith, bit_or_step x y)
digit-bit_or (suc k) x y = rw (half-bit_or x y) (digit-bit_or k (x / 2) (y / 2))

pub digit-zero : (k : ℕ) → digit k 0 ≡ 0
digit-zero zero = refl
digit-zero (suc k) = digit-zero k

pub no_flag : (k x : ℕ) → digit k x ≡ max (digit k x) (digit k 0)
no_flag k x = omega (arith, digit-zero k)
