-- ===== src/ErrorFrame/Tests.antt =====
-- A bus error with an ACK and a bit error in the error status.
use zynq_can_sja1000_top.Common.{ℕ, ◌≡◌, some, arith}
use zynq_can_sja1000_top.Registers.{esr}
use zynq_can_sja1000_top.Driver.{read_reg}
use zynq_can_sja1000_top.Demo.{demo, running}
use zynq_can_sja1000_top.ErrorFrame.{alloc_error, xcan_err_interrupt}
use zynq_can_sja1000_top.ErrorFrame.State.{last_sr, next_state, xcan_err_interrupt-next_state}
use zynq_can_sja1000_top.ErrorFrame.Device.{can_counted}
use zynq_can_sja1000_top.ErrorFrame.Kinds.{AreCounters}
use zynq_can_sja1000_top.ErrorFrame.Counters.{Counted, xcan_err_interrupt-Counted}

running-AreCounters : AreCounters running.stats
running-AreCounters = record {
  tx_errors = omega arith;
  rx_errors = omega arith;
  rx_over_errors = omega arith;
}

xcan_err_interrupt-next_state_example :
    let w' = (xcan_err_interrupt demo 0x300 running).1 in
    (status : ℕ) × (last_sr w'.history ≡ some status)
    × (w'.priv.can_state ≡ next_state 0x300 status running.priv.can_state)
xcan_err_interrupt-next_state_example = xcan_err_interrupt-next_state demo 0x300 running

xcan_err_interrupt-Counted_example :
    let w' = (xcan_err_interrupt demo 0x100 running).1 in
    Counted 0x100 (read_reg demo esr (alloc_error demo running).1).0 running.stats w'.stats
    × (status : ℕ) × (last_sr w'.history ≡ some status)
    × (w'.priv.can_stats ≡ can_counted 0x100 status running.priv.can_stats)
xcan_err_interrupt-Counted_example =
    xcan_err_interrupt-Counted demo 0x100 running running-AreCounters
