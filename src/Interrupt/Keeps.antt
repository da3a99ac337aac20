-- ===== src/Interrupt/Keeps.antt =====
-- xcan_interrupt acquires and releases nothing, and leaves the clocks as they are.
use zynq_can_sja1000_top.Kernel.{Kernel}
use zynq_can_sja1000_top.Driver.{World}
use zynq_can_sja1000_top.Driver.Resources.{Keeps, Keeps-trans}
use zynq_can_sja1000_top.Transmit.Keeps.{xcan_tx_interrupt-Keeps}
use zynq_can_sja1000_top.Interrupt.{xcan_interrupt}
use zynq_can_sja1000_top.Interrupt.Ring.{xcan_interrupt-Along}

pub xcan_interrupt-Keeps : (k : Kernel) (w : World) → Keeps w (xcan_interrupt k w).1
xcan_interrupt-Keeps k = xcan_interrupt-Along k Keeps (record {
  alone = λ s. s.keeps;
  trans = Keeps-trans;
  tx = λ x w e. xcan_tx_interrupt-Keeps k x w;
})
