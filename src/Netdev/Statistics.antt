-- ===== src/Netdev/Statistics.antt =====
-- The calls for a network device and its counters.
use zynq_can_sja1000_top.Common.{arith}
use zynq_can_sja1000_top.Kernel.{Kernel}
use zynq_can_sja1000_top.Driver.Statistics.{Counts}
use zynq_can_sja1000_top.Mode.Statistics.{Counts-IsStable}
use zynq_can_sja1000_top.Netdev.Stable.{IsCallStable}

pub Counts-IsCallStable : (k : Kernel) → IsCallStable k Counts
Counts-IsCallStable k = record { start = Counts-IsStable k; call = λ e w h c. ground arith }
