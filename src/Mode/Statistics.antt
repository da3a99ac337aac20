-- ===== src/Mode/Statistics.antt =====
-- The steps of a start and the counters of the network device.
use zynq_can_sja1000_top.Common.{arith}
use zynq_can_sja1000_top.Kernel.{Kernel}
use zynq_can_sja1000_top.Driver.Statistics.{Counts}
use zynq_can_sja1000_top.Mode.Stable.{IsStable}

pub Counts-IsStable : (k : Kernel) → IsStable k Counts
Counts-IsStable k = record {
  same = λ w c. c;
  trans = λ s t c. t (s c);
  read = λ r w c. ground arith;
  write = λ r x w c. ground arith;
  sleep = λ w c. ground arith;
  state = λ s w c. ground arith;
}
