-- ===== src/Runtime/Keeps.antt =====
-- The calls of a running device acquire and release nothing, and leave the clocks as they are.
use zynq_can_sja1000_top.Kernel.{Kernel}
use zynq_can_sja1000_top.Driver.{World}
use zynq_can_sja1000_top.Driver.Run.{Ensures-some}
use zynq_can_sja1000_top.Driver.Resources.{Keeps}
use zynq_can_sja1000_top.ErrorFrame.Ring.{Undisturbed}
use zynq_can_sja1000_top.Transmit.Keeps.{xcan_start_xmit-Keeps}
use zynq_can_sja1000_top.Receive.Ring.{Undisturbed-xcan_rx_poll}
use zynq_can_sja1000_top.Interrupt.Keeps.{xcan_interrupt-Keeps}
use zynq_can_sja1000_top.Runtime.{Step, xmit, irq, poll}

pub Step-Keeps : (k : Kernel) {w u : World} → Step k w u → Keeps w u
Step-Keeps k (xmit cf w awake) = xcan_start_xmit-Keeps k cf w
Step-Keeps k (irq w) = xcan_interrupt-Keeps k w
Step-Keeps k (poll fuel quota {w} e) =
    (Ensures-some (λ n w'. Undisturbed w w') (Undisturbed-xcan_rx_poll k fuel quota w) e).keeps
