-- ===== src/FrameId/Fields.antt =====
-- The identifier words as sums of their fields.
use zynq_can_sja1000_top.Common.{ℕ, ◌+◌, ◌*◌, ◌/◌, ◌%◌, ◌^◌, bit_and, bit_or, ◌≡◌, refl, arith}
use zynq_can_sja1000_top.Common.{◌==◌, if◌then◌else◌}
use zynq_can_sja1000_top.Common.Bits.{
  bit_and_field, bit_and_low, bit_or_gap, bit_or_high_low, bit_or_low_high,
}
use zynq_can_sja1000_top.FrameId.{tx_extended, tx_standard, tx_id, rx_extended, rx_standard, rx_id}

low_field : (c : ℕ) → bit_and (bit_and c 0x1fffffff * 2 ^ 1 % 2 ^ 32) 0x0007fffe ≡ c % 2 ^ 18 * 2
low_field c =
    ground (arith, bit_and_low 29 c, bit_and_field 1 18 (bit_and c 0x1fffffff * 2 ^ 1 % 2 ^ 32))

high_field :
    (c : ℕ)
    → bit_and (bit_and c 0x1fffffff / 2 ^ 18 * 2 ^ 21 % 2 ^ 32) 0xffe00000
      ≡ c / 2 ^ 18 % 2 ^ 11 * 2 ^ 21
high_field c =
    ground (
      arith,
      bit_and_low 29 c,
      bit_and_field 21 11 (bit_and c 0x1fffffff / 2 ^ 18 * 2 ^ 21 % 2 ^ 32),
    )

abbrev pub ext : ℕ → ℕ
ext c = c / 2 ^ 18 % 2 ^ 11 * 2 ^ 21 + c % 2 ^ 18 * 2 + 0x00180000

tx_extended_id :
    (c : ℕ) → bit_or (bit_or (c % 2 ^ 18 * 2) (c / 2 ^ 18 % 2 ^ 11 * 2 ^ 21)) 0x00180000 ≡ ext c
tx_extended_id c =
    rw
      (bit_or_low_high 21 (c / 2 ^ 18 % 2 ^ 11) (c % 2 ^ 18 * 2) (c / 2 ^ 18 % 2 ^ 11 * 2 ^ 21)
        (omega arith) refl)
      (omega (
        arith,
        bit_or_gap 2 19 (c / 2 ^ 18 % 2 ^ 11) 3 (c % 2 ^ 18 * 2)
            (c % 2 ^ 18 * 2 + c / 2 ^ 18 % 2 ^ 11 * 2 ^ 21) 0x00180000 (omega arith) refl
            (omega arith) (omega arith),
      ))

pub tx_extended_fields : (c : ℕ) → tx_extended c ≡ ext c + c / 2 ^ 30 % 2
unfolding tx_extended
tx_extended_fields c =
    rw (low_field c, high_field c, tx_extended_id c)
      (ground (arith, bit_and_field 30 1 c, bit_or_high_low 1 (ext c / 2) (ext c) 1))

abbrev pub std : ℕ → ℕ
std c = c % 2 ^ 11 * 2 ^ 21

pub tx_standard_fields : (c : ℕ) → tx_standard c ≡ std c + c / 2 ^ 30 % 2 * 2 ^ 20
unfolding tx_standard
tx_standard_fields c = ground (
  arith,
  bit_and_low 11 c,
  bit_and_field 21 11 (bit_and c 0x7ff * 2 ^ 21 % 2 ^ 32),
  bit_and_field 30 1 c,
  bit_or_high_low 21 (c % 2 ^ 11) (std c) 0x00100000,
)

-- The ID register word as a sum: the extended format has its flag in bit 31.
pub tx_id_fields :
    (c : ℕ)
    → tx_id c
      ≡ (if c / 2 ^ 31 % 2 == 1 then ext c + c / 2 ^ 30 % 2 else std c + c / 2 ^ 30 % 2 * 2 ^ 20)
unfolding tx_id
tx_id_fields c = ground (arith, bit_and_field 31 1 c, tx_extended_fields c, tx_standard_fields c)

abbrev pub rx_ext : ℕ → ℕ
rx_ext r = r / 2 ^ 21 % 2 ^ 11 * 2 ^ 18 + r / 2 % 2 ^ 18 + 2 ^ 31

rx_extended_id :
    (r : ℕ)
    → bit_or (bit_or (bit_and r 0xffe00000 / 2 ^ 3) (bit_and r 0x0007fffe / 2 ^ 1)) 0x80000000
      ≡ rx_ext r
rx_extended_id r =
    let a = bit_and r 0xffe00000 / 2 ^ 3 in
    let b = bit_and r 0x0007fffe / 2 ^ 1 in
    ground (
      arith,
      bit_and_field 21 11 r,
      bit_and_field 1 18 r,
      bit_or_high_low 18 (r / 2 ^ 21 % 2 ^ 11) a b,
      bit_or_low_high 31 1 (a + b) 0x80000000,
    )

pub rx_extended_fields : (r : ℕ) → rx_extended r ≡ rx_ext r + r % 2 * 2 ^ 30
unfolding rx_extended
rx_extended_fields r = rw (rx_extended_id r) (
    ground (
      arith,
      bit_and_field 0 1 r,
      bit_or_gap 1 30 1 1 (r / 2 ^ 21 % 2 ^ 11 * 2 ^ 18 + r / 2 % 2 ^ 18) (rx_ext r) 0x40000000,
    ))

pub rx_standard_fields : (r : ℕ) → rx_standard r ≡ r / 2 ^ 21 % 2 ^ 11 + r / 2 ^ 20 % 2 * 2 ^ 30
unfolding rx_standard
rx_standard_fields r = ground (
  arith,
  bit_and_field 21 11 r,
  bit_and_field 20 1 r,
  bit_or_low_high 30 1 (r / 2 ^ 21 % 2 ^ 11) 0x40000000,
)

-- The delivered identifier as a sum.
pub rx_id_fields :
    (r : ℕ)
    → rx_id r ≡ (
        if r / 2 ^ 19 % 2 == 1
        then rx_ext r + r % 2 * 2 ^ 30
        else r / 2 ^ 21 % 2 ^ 11 + r / 2 ^ 20 % 2 * 2 ^ 30)
unfolding rx_id
rx_id_fields r = ground (arith, bit_and_field 19 1 r, rx_extended_fields r, rx_standard_fields r)
