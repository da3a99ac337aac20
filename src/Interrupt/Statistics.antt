-- ===== src/Interrupt/Statistics.antt =====
-- The interrupt handler and the counters of the network device.
use zynq_can_sja1000_top.Common.{ℕ, arith}
use zynq_can_sja1000_top.Kernel.{Kernel}
use zynq_can_sja1000_top.Driver.{World, write_reg}
use zynq_can_sja1000_top.Driver.Statistics.{IsCounted, Counts}
use zynq_can_sja1000_top.Registers.{icr}
use zynq_can_sja1000_top.Transmit.Statistics.{xcan_tx_interrupt-IsCounted}
use zynq_can_sja1000_top.ErrorFrame.Statistics.{xcan_err_interrupt-IsCounted}
use zynq_can_sja1000_top.Interrupt.Stable.{IsHandlerStable, xcan_interrupt-Stable}
use zynq_can_sja1000_top.Interrupt.{
  error_bits, xcan_state_interrupt, schedule_rx, handle_sleep, handle_error, handle_rx,
  xcan_interrupt,
}

module _ (k : Kernel) where
  handle_error-IsCounted :
      (isr_value : ℕ) (w : World) → IsCounted w → IsCounted (handle_error k isr_value w).1
  unfolding handle_error
  handle_error-IsCounted isr_value w c =
      let u = (write_reg icr error_bits w).1 in
      let cleared : IsCounted u = ground arith in
      let err = xcan_err_interrupt-IsCounted k isr_value u cleared in ground arith

  Counts-IsHandlerStable : IsHandlerStable k Counts
  unfolding handle_sleep xcan_state_interrupt handle_rx schedule_rx
  Counts-IsHandlerStable = record {
    same = λ w c. c;
    trans = λ s t c. t (s c);
    status = λ w c. ground arith;
    sleep = λ x w c. ground arith;
    tx = λ x w e c. xcan_tx_interrupt-IsCounted k x w c;
    error = handle_error-IsCounted;
    rx = λ x w c. ground arith;
  }

  pub xcan_interrupt-IsCounted : (w : World) → IsCounted w → IsCounted (xcan_interrupt k w).1
  xcan_interrupt-IsCounted = xcan_interrupt-Stable k Counts Counts-IsHandlerStable
