-- ===== src/Bittiming.antt =====
-- The bit timing registers of petalinux/components/modules/xilinx_can/xilinx_can.c:
-- xcan_bittiming_const and the values that xcan_set_bittiming computes.
pub mod Fields
pub mod Tests
use zynq_can_sja1000_top.Common.{ℕ, ◌+◌, sub32, u32, bit_or, ◌<<◌}
use zynq_can_sja1000_top.Registers.{btr_ts2_shift, btr_sjw_shift}
use zynq_can_sja1000_top.Driver.{Bittiming}

-- `xcan_bittiming_const`: what the core supports.
pub record BittimingConst : Type 0 where
  pub tseg1_min : ℕ
  pub tseg1_max : ℕ
  pub tseg2_min : ℕ
  pub tseg2_max : ℕ
  pub sjw_max : ℕ
  pub brp_min : ℕ
  pub brp_max : ℕ
  pub brp_inc : ℕ

abbrev pub xcan_bittiming_const : BittimingConst
xcan_bittiming_const = record {
  tseg1_min = 1;
  tseg1_max = 16;
  tseg2_min = 1;
  tseg2_max = 8;
  sjw_max = 4;
  brp_min = 1;
  brp_max = 256;
  brp_inc = 1;
}

-- `btr0`, for the register BRPR.
pub btr0 : Bittiming → ℕ
btr0 bt = sub32 bt.brp 1

-- `btr1`, for the register BTR.
pub btr1 : Bittiming → ℕ
btr1 bt =
    bit_or
      (bit_or (sub32 (u32 (bt.prop_seg + bt.phase_seg1)) 1)
        (sub32 bt.phase_seg2 1 << btr_ts2_shift))
      (sub32 bt.sjw 1 << btr_sjw_shift)
