-- ===== src/Bittiming/Tests.antt =====
-- A timing of ten quanta.
use zynq_can_sja1000_top.Common.{arith}
use zynq_can_sja1000_top.Demo.{demo_priv}
use zynq_can_sja1000_top.Bittiming.{btr0, btr1, xcan_bittiming_const}
use zynq_can_sja1000_top.Bittiming.Fields.{IsSupported, Programs, btr-Programs}

ten_quanta : IsSupported xcan_bittiming_const demo_priv.bittiming
ten_quanta = record {
  tseg1_low = omega arith;
  tseg1_high = omega arith;
  tseg2_low = omega arith;
  tseg2_high = omega arith;
  sjw_low = omega arith;
  sjw_high = omega arith;
  brp_low = omega arith;
  brp_high = omega arith;
}

btr-Programs_example :
    Programs demo_priv.bittiming (btr0 demo_priv.bittiming) (btr1 demo_priv.bittiming)
btr-Programs_example = btr-Programs demo_priv.bittiming ten_quanta
