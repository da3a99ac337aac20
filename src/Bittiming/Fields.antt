-- ===== src/Bittiming/Fields.antt =====
-- The fields of the two registers that xcan_set_bittiming writes.
use zynq_can_sja1000_top.Common.{ℕ, ◌+◌, ◌-◌, ◌*◌, ◌/◌, ◌%◌, ◌<◌, ◌≤◌, ◌≡◌, arith, u32, sub32}
use zynq_can_sja1000_top.Common.Bits.{bit_or_low_high}
use zynq_can_sja1000_top.Driver.{Bittiming}
use zynq_can_sja1000_top.Bittiming.{BittimingConst, xcan_bittiming_const, btr0, btr1}

-- A timing within the limits that the driver announces. Before the kernel calls the driver it
-- checks the segments and the prescaler, and sets the jump width to at least 1.
pub record IsSupported (c : BittimingConst) (bt : Bittiming) : Type 0 where
  pub tseg1_low : c.tseg1_min ≤ bt.prop_seg + bt.phase_seg1
  pub tseg1_high : bt.prop_seg + bt.phase_seg1 ≤ c.tseg1_max
  pub tseg2_low : c.tseg2_min ≤ bt.phase_seg2
  pub tseg2_high : bt.phase_seg2 ≤ c.tseg2_max
  pub sjw_low : 1 ≤ bt.sjw
  pub sjw_high : bt.sjw ≤ c.sjw_max
  pub brp_low : c.brp_min ≤ bt.brp
  pub brp_high : bt.brp ≤ c.brp_max

-- The two register values and the timing that the core reads from them, each field one more than
-- its bits: prescaler, segment 1, segment 2, jump width.
pub record Programs (bt : Bittiming) (brpr btr : ℕ) : Type 0 where
  pub prescaler : brpr + 1 ≡ bt.brp
  pub segment1 : btr % 16 + 1 ≡ bt.prop_seg + bt.phase_seg1
  pub segment2 : btr / 16 % 8 + 1 ≡ bt.phase_seg2
  pub jump : btr / 128 % 4 + 1 ≡ bt.sjw
  pub brpr_fits : brpr < 256
  pub btr_fits : btr < 512

-- For a timing within the limits that the driver announces, with a jump width of at least 1, both
-- registers hold it exactly: each field one less than its value, and no field runs into another.
pub btr-Programs :
    (bt : Bittiming) → IsSupported xcan_bittiming_const bt → Programs bt (btr0 bt) (btr1 bt)
unfolding btr0 btr1
btr-Programs bt s =
    let seg1 = bt.prop_seg + bt.phase_seg1 - 1 in
    let seg2 = bt.phase_seg2 - 1 in
    let jump = bt.sjw - 1 in
    ground (
      arith,
      bit_or_low_high 4 seg2 (sub32 (u32 (bt.prop_seg + bt.phase_seg1)) 1) (seg2 * 16),
      bit_or_low_high 7 jump (seg1 + seg2 * 16) (jump * 128),
    )
