-- ===== src/Mode/Tests.antt =====
-- A start of the core, and a restart with the transmit ring full.
use zynq_can_sja1000_top.Common.{◌+◌, arith}
use zynq_can_sja1000_top.Demo.{demo, running}
use zynq_can_sja1000_top.Mode.{xcan_chip_start}
use zynq_can_sja1000_top.Mode.Wait.{reg_writes}
use zynq_can_sja1000_top.Mode.Start.{Started, start_writes}
use zynq_can_sja1000_top.Driver.Run.{Yields}
use zynq_can_sja1000_top.Mode.Restart.{IsTicking, xcan_chip_start-Started}

pub demo-IsTicking : IsTicking demo 2
demo-IsTicking h h' low high = ground arith

xcan_chip_start-Started_example :
    Yields
      (Started (start_writes running.priv (reg_writes running.history)) running)
      (xcan_chip_start demo (2 + 1) running)
xcan_chip_start-Started_example = xcan_chip_start-Started demo 2 running demo-IsTicking
