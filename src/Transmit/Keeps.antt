-- ===== src/Transmit/Keeps.antt =====
-- Transmission acquires and releases nothing of the kernel's resources, and leaves the clocks as
-- they are.
use zynq_can_sja1000_top.Common.{ℕ, zero, suc, arith, inl, inr, Bool-cases, has, ltb, ◌&&◌, sub32}
use zynq_can_sja1000_top.Registers.{ixr_txok_mask}
use zynq_can_sja1000_top.Can.{CanFrame}
use zynq_can_sja1000_top.Kernel.{Kernel}
use zynq_can_sja1000_top.Driver.{World}
use zynq_can_sja1000_top.Driver.Resources.{Keeps, Keeps-trans}
use zynq_can_sja1000_top.Transmit.{xcan_start_xmit, complete_frame, tx_loop, xcan_tx_interrupt}

module _ (k : Kernel) where
  pub xcan_start_xmit-Keeps : (cf : CanFrame) (w : World) → Keeps w (xcan_start_xmit k cf w).1
  unfolding xcan_start_xmit
  xcan_start_xmit-Keeps cf w = ground arith

  complete_frame-Keeps : (w : World) → Keeps w (complete_frame k w).1
  unfolding complete_frame
  complete_frame-Keeps w = ground arith

  tx_loop-Keeps : (fuel isr_value : ℕ) (w : World) → Keeps w (tx_loop k fuel isr_value w).1
  unfolding tx_loop
  tx_loop-Keeps zero isr_value w = ground arith
  tx_loop-Keeps (suc fuel) isr_value w =
      let next = complete_frame k w in
      elim (Bool-cases
        (ltb 0 (sub32 w.priv.tx_head w.priv.tx_tail) && has isr_value ixr_txok_mask)) [
          | inl e ↦ rw e (Keeps-trans (complete_frame-Keeps w) (tx_loop-Keeps fuel next.0 next.1))
          | inr e ↦ rw e (ground arith)
        ]

  pub xcan_tx_interrupt-Keeps :
      (isr_value : ℕ) (w : World) → Keeps w (xcan_tx_interrupt k isr_value w).1
  unfolding xcan_tx_interrupt
  xcan_tx_interrupt-Keeps isr_value w =
      let u = (tx_loop k (sub32 w.priv.tx_head w.priv.tx_tail) isr_value w).1 in
      let last : Keeps u (xcan_tx_interrupt k isr_value w).1 = ground arith in
      Keeps-trans (tx_loop-Keeps (sub32 w.priv.tx_head w.priv.tx_tail) isr_value w) last
