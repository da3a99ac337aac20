-- ===== src/Common/Bits.antt =====
-- `&` with the mask of a field, and `|` of disjoint fields, as arithmetic, at every width.
use native.Mathlib.Nat.{pow-suc, one-le-pow, mul_comm, div-add-mod, mod-lt}
use zynq_can_sja1000_top.Common.Digits.{bit_or_step, bit_and_step}
use Prim.Native.Nat.{ℕ, zero, suc, ◌+◌, ◌-◌, ◌*◌, ◌/◌, ◌%◌, ◌^◌, ◌≤◌, ◌<◌, bit_and, bit_or}
use Prim.Native.Nat.{bit_or-bitwise}
use mathlib.Core.Path.{◌≡◌, refl, ap, ap₂, ◌∙◌}
use zynq_can_sja1000_top.Common.Words.{has, ◌==◌}
use native.Mathlib.Omega.{arith}

-- Both operations with 0 on the right, for all numbers up to `top`.
against_zero : (top x : ℕ) → x ≤ top → (bit_or x 0 ≡ x) × (bit_and x 0 ≡ 0)
against_zero zero zero h = (refl, refl)
against_zero (suc top) zero h = (refl, refl)
against_zero zero (suc x) h = absurd (omega arith)
against_zero (suc top) (suc x) h =
    let half = against_zero top (suc x / 2) (omega arith) in
    (omega (arith, half.0, bit_or_step (suc x) 0), omega (arith, half.1, bit_and_step (suc x) 0))

pub bit_or-zero : (a : ℕ) → bit_or a 0 ≡ a
bit_or-zero a = (against_zero a a (omega arith)).0

pub bit_and-zero : (a : ℕ) → bit_and a 0 ≡ 0
bit_and-zero a = (against_zero a a (omega arith)).1

-- A field of `q` one bit higher up.
field-suc : (q k : ℕ) → q * 2 ^ suc k ≡ q * 2 ^ k * 2
field-suc q k =
    let power : 2 ^ suc k ≡ 2 ^ k * 2 = pow-suc 2 k in
    let scaled : q * 2 ^ suc k ≡ q * (2 ^ k * 2) = ap (λ (t : ℕ). q * t) power in
    omega (arith, scaled)

-- `&` splits at any bit: the high parts and the low parts meet apart.
pub bit_and_split :
    (k q r m s : ℕ)
    → r < 2 ^ k
    → s < 2 ^ k
    → bit_and (q * 2 ^ k + r) (m * 2 ^ k + s) ≡ bit_and q m * 2 ^ k + bit_and r s
bit_and_split zero q r m s p t =
    let r0 : r ≡ 0 = omega arith in
    let s0 : s ≡ 0 = omega arith in rw (r0, s0) (ground (arith, bit_and-zero 0))
bit_and_split (suc k) q r m s p t = ground (
  arith,
  bit_and_step (q * 2 ^ suc k + r) (m * 2 ^ suc k + s),
  bit_and_step r s,
  field-suc q k,
  field-suc m k,
  field-suc (bit_and q m) k,
  bit_and_split k q (r / 2) m (s / 2) (omega arith) (omega arith),
)

-- `|` splits at any bit.
pub bit_or_split :
    (k q r m s : ℕ)
    → r < 2 ^ k
    → s < 2 ^ k
    → bit_or (q * 2 ^ k + r) (m * 2 ^ k + s) ≡ bit_or q m * 2 ^ k + bit_or r s
bit_or_split zero q r m s p t =
    let r0 : r ≡ 0 = omega arith in
    let s0 : s ≡ 0 = omega arith in rw (r0, s0) (ground (arith, bit_or-zero 0))
bit_or_split (suc k) q r m s p t = ground (
  arith,
  bit_or_step (q * 2 ^ suc k + r) (m * 2 ^ suc k + s),
  bit_or_step r s,
  field-suc q k,
  field-suc m k,
  field-suc (bit_or q m) k,
  bit_or_split k q (r / 2) m (s / 2) (omega arith) (omega arith),
)

-- A mask of `k` ones leaves a number that fits it.
bit_and_full : (k r : ℕ) → r < 2 ^ k → bit_and r (2 ^ k - 1) ≡ r
bit_and_full zero r h = omega (arith, bit_and-zero r)
bit_and_full (suc k) r h = ground (
  arith,
  bit_and_step r (2 ^ suc k - 1),
  one-le-pow k 2,
  pow-suc 2 k,
  bit_and_full k (r / 2) (omega (arith, pow-suc 2 k)),
)

div-mod_pow : (k a : ℕ) → (a / 2 ^ k * 2 ^ k + a % 2 ^ k ≡ a) × (a % 2 ^ k < 2 ^ k)
div-mod_pow k a = (
  omega (arith, one-le-pow k 2, mul_comm (a / 2 ^ k) (2 ^ k), div-add-mod a (2 ^ k)),
  mod-lt a (one-le-pow k 2 (omega arith)),
)

-- A mask of `k` low bits leaves the remainder by `2 ^ k`.
pub bit_and_low : (k a : ℕ) → bit_and a (2 ^ k - 1) ≡ a % 2 ^ k
bit_and_low k a = ground (
  arith,
  div-mod_pow k a,
  one-le-pow k 2,
  bit_and-zero (a / 2 ^ k),
  bit_and_split k (a / 2 ^ k) (a % 2 ^ k) 0 (2 ^ k - 1),
  bit_and_full k (a % 2 ^ k),
)

-- A mask of `w` bits from bit `k` on leaves that field in its place.
pub bit_and_field : (k w a : ℕ) → bit_and a ((2 ^ w - 1) * 2 ^ k) ≡ a / 2 ^ k % 2 ^ w * 2 ^ k
bit_and_field k w a = ground (
  arith,
  div-mod_pow k a,
  one-le-pow k 2,
  bit_and-zero (a % 2 ^ k),
  bit_and_split k (a / 2 ^ k) (a % 2 ^ k) (2 ^ w - 1) 0,
  bit_and_low w (a / 2 ^ k),
)

-- `|` of two numbers with no digit in common is their sum: the higher first, the lower first, and
-- one set into a gap of the other.
bit_or_eq : (a' b' a b : ℕ) → a ≡ a' → b ≡ b' → bit_or a b ≡ bit_or a' b'
bit_or_eq a' b' a b p q = ap₂ bit_or p q

zero-bit_or : (a : ℕ) → bit_or 0 a ≡ a
zero-bit_or a = bit_or-bitwise 0 a

pub bit_or_high_low : (k q a b : ℕ) → a ≡ q * 2 ^ k → b < 2 ^ k → bit_or a b ≡ a + b
bit_or_high_low k q a b e h =
    let ea : a ≡ q * 2 ^ k + 0 = omega arith in
    let eb : b ≡ 0 * 2 ^ k + b = omega arith in
    let split : bit_or a b ≡ bit_or q 0 * 2 ^ k + bit_or 0 b =
      bit_or_eq (q * 2 ^ k + 0) (0 * 2 ^ k + b) a b ea eb
      ∙ bit_or_split k q 0 0 b (one-le-pow k 2 (omega arith)) h in
    omega (arith, split, zero-bit_or b, ap (λ (t : ℕ). t * 2 ^ k) (bit_or-zero q))

pub bit_or_low_high : (k q a b : ℕ) → a < 2 ^ k → b ≡ q * 2 ^ k → bit_or a b ≡ a + b
bit_or_low_high k q a b h e =
    let ea : a ≡ 0 * 2 ^ k + a = omega arith in
    let eb : b ≡ q * 2 ^ k + 0 = omega arith in
    let split : bit_or a b ≡ bit_or 0 q * 2 ^ k + bit_or a 0 =
      bit_or_eq (0 * 2 ^ k + a) (q * 2 ^ k + 0) a b ea eb
      ∙ bit_or_split k 0 a q 0 h (one-le-pow k 2 (omega arith)) in
    omega (arith, split, bit_or-zero a, ap (λ (t : ℕ). t * 2 ^ k) (zero-bit_or q))

pub bit_or_gap :
    (j k q m r a b : ℕ)
    → a ≡ q * 2 ^ j * 2 ^ k + r
    → b ≡ m * 2 ^ k
    → m < 2 ^ j
    → r < 2 ^ k
    → bit_or a b ≡ a + b
bit_or_gap j k q m r a b ea eb hm hr =
    let split : bit_or a b ≡ bit_or (q * 2 ^ j) m * 2 ^ k + bit_or r 0 =
      bit_or_eq (q * 2 ^ j * 2 ^ k + r) (m * 2 ^ k + 0) a b ea (omega arith)
      ∙ bit_or_split k (q * 2 ^ j) r m 0 hr (one-le-pow k 2 (omega arith)) in
    omega (
      arith,
      split,
      bit_or-zero r,
      ap (λ (t : ℕ). t * 2 ^ k) (bit_or_high_low j q (q * 2 ^ j) m refl hm),
    )

-- A test of one bit reads that digit.
pub has_digit : (k a : ℕ) → has a (2 ^ k) ≡ (a / 2 ^ k % 2 == 1)
has_digit k a =
    let field : bit_and a (1 * 2 ^ k) ≡ a / 2 ^ k % 2 * 2 ^ k = bit_and_field k 1 a in
    let one : 1 * 2 ^ k ≡ 2 ^ k = omega arith in
    ground (arith, field, one, one-le-pow k 2 (omega arith))
