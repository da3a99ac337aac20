-- ===== src/Transmit/Statistics.antt =====
-- Transmission and the counters of the network device.
use zynq_can_sja1000_top.Common.{ℕ, zero, suc, arith, inl, inr, Bool-cases, has, ltb, ◌&&◌, sub32}
use zynq_can_sja1000_top.Registers.{ixr_txok_mask}
use zynq_can_sja1000_top.Can.{CanFrame}
use zynq_can_sja1000_top.Kernel.{Kernel}
use zynq_can_sja1000_top.Driver.{World}
use zynq_can_sja1000_top.Driver.Statistics.{IsCounted}
use zynq_can_sja1000_top.Transmit.{xcan_start_xmit, complete_frame, tx_loop, xcan_tx_interrupt}

module _ (k : Kernel) where
  pub xcan_start_xmit-IsCounted :
      (cf : CanFrame) (w : World) → IsCounted w → IsCounted (xcan_start_xmit k cf w).1
  unfolding xcan_start_xmit
  xcan_start_xmit-IsCounted cf w c = ground arith

  complete_frame-IsCounted : (w : World) → IsCounted w → IsCounted (complete_frame k w).1
  unfolding complete_frame
  complete_frame-IsCounted w c = ground arith

  tx_loop-IsCounted :
      (fuel isr_value : ℕ) (w : World) → IsCounted w → IsCounted (tx_loop k fuel isr_value w).1
  unfolding tx_loop
  tx_loop-IsCounted zero isr_value w c = c
  tx_loop-IsCounted (suc fuel) isr_value w c =
      let next = complete_frame k w in
      elim (Bool-cases
        (ltb 0 (sub32 w.priv.tx_head w.priv.tx_tail) && has isr_value ixr_txok_mask)) [
          | inl e ↦ rw e (tx_loop-IsCounted fuel next.0 next.1 (complete_frame-IsCounted w c))
          | inr e ↦ rw e c
        ]

  pub xcan_tx_interrupt-IsCounted :
      (isr_value : ℕ) (w : World) → IsCounted w → IsCounted (xcan_tx_interrupt k isr_value w).1
  unfolding xcan_tx_interrupt
  xcan_tx_interrupt-IsCounted isr_value w c =
      let done = tx_loop-IsCounted (sub32 w.priv.tx_head w.priv.tx_tail) isr_value w c in
      ground arith
