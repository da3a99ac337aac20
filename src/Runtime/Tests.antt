-- ===== src/Runtime/Tests.antt =====
-- A transmission and an interrupt.
use zynq_can_sja1000_top.Common.{refl}
use zynq_can_sja1000_top.Driver.{World}
use zynq_can_sja1000_top.Demo.{demo, no_data, running}
use zynq_can_sja1000_top.Transmit.{xcan_start_xmit}
use zynq_can_sja1000_top.Transmit.Queue.{IsControlled}
use zynq_can_sja1000_top.Transmit.Tests.{running-IsControlled}
use zynq_can_sja1000_top.Interrupt.{xcan_interrupt}
use zynq_can_sja1000_top.Runtime.{Reach, here, next, xmit, irq, Reach-IsControlled}

abbrev interrupted : World
interrupted = (xcan_interrupt demo (xcan_start_xmit demo no_data running).1).1

interrupted-Reach : Reach demo running interrupted
interrupted-Reach = next (next here (xmit no_data running refl)) (irq _)

Reach-IsControlled_example : IsControlled interrupted
Reach-IsControlled_example = Reach-IsControlled demo interrupted-Reach running-IsControlled
