-- ===== src/ErrorFrame/Statistics.antt =====
-- xcan_err_interrupt and the counters of the frames: an error frame counts as a received one.
use zynq_can_sja1000_top.Common.{ℕ, arith}
use zynq_can_sja1000_top.Kernel.{Kernel}
use zynq_can_sja1000_top.Driver.{World}
use zynq_can_sja1000_top.Driver.Statistics.{IsCounted, Counts}
use zynq_can_sja1000_top.Mode.Statistics.{Counts-IsStable}
use zynq_can_sja1000_top.ErrorFrame.{deliver_error, xcan_err_interrupt}
use zynq_can_sja1000_top.ErrorFrame.Stable.{IsErrorStable, err_interrupt-Stable}

module _ (k : Kernel) where
  Counts-IsErrorStable : IsErrorStable k Counts
  unfolding deliver_error
  Counts-IsErrorStable = record {
    start = Counts-IsStable k;
    can_stats = λ n w c. ground arith;
    tx_counted = λ w c. ground arith;
    rx_counted = λ w c. ground arith;
    over_counted = λ w c. ground arith;
    call = λ e w h c. ground arith;
    deliver = λ cf w c. ground arith;
  }

  pub xcan_err_interrupt-IsCounted :
      (isr_value : ℕ) (w : World) → IsCounted w → IsCounted (xcan_err_interrupt k isr_value w).1
  xcan_err_interrupt-IsCounted = err_interrupt-Stable k Counts Counts-IsErrorStable
