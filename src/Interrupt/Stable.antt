-- ===== src/Interrupt/Stable.antt =====
-- What xcan_interrupt keeps: a relation between states that holds along each of its parts holds
-- along all of it.
use zynq_can_sja1000_top.Common.{ℕ, ◌≡◌, Bool-cases, inl, inr, has, true, ◌==◌}
use zynq_can_sja1000_top.Registers.{isr, ixr_txok_mask}
use zynq_can_sja1000_top.Kernel.{Kernel}
use zynq_can_sja1000_top.Driver.{World, read_reg}
use zynq_can_sja1000_top.Transmit.{xcan_tx_interrupt}
use zynq_can_sja1000_top.Interrupt.{
  handle_sleep, handle_tx, handle_error, handle_rx, handle, xcan_interrupt,
}

-- The transmit part is called with TXOK in the status only.
pub record IsHandlerStable (k : Kernel) (R : World → World → Type 0) : Type 0 where
  pub same : (w : World) → R w w
  pub trans : {u v w : World} → R u v → R v w → R u w
  pub status : (w : World) → R w (read_reg k isr w).1
  pub sleep : (isr_value : ℕ) (w : World) → R w (handle_sleep isr_value w).1
  pub tx :
      (isr_value : ℕ) (w : World)
      → has isr_value ixr_txok_mask ≡ true
      → R w (xcan_tx_interrupt k isr_value w).1
  pub error : (isr_value : ℕ) (w : World) → R w (handle_error k isr_value w).1
  pub rx : (isr_value : ℕ) (w : World) → R w (handle_rx k isr_value w).1

module _ (k : Kernel) (R : World → World → Type 0) (stable : IsHandlerStable k R) where
  open stable use {same, trans, status, sleep, tx, error, rx}

  handle_tx-Stable : (isr_value : ℕ) (w : World) → R w (handle_tx k isr_value w).1
  unfolding handle_tx
  handle_tx-Stable isr_value w = elim (Bool-cases (has isr_value ixr_txok_mask)) [
    | inl e ↦ rw e (tx isr_value w e)
    | inr e ↦ rw e (same w)
  ]

  handle-Stable : (isr_value : ℕ) (w : World) → R w (handle k isr_value w).1
  unfolding handle
  handle-Stable isr_value w =
      trans (sleep isr_value w)
        (trans (handle_tx-Stable isr_value _) (trans (error isr_value _) (rx isr_value _)))

  pub xcan_interrupt-Stable : (w : World) → R w (xcan_interrupt k w).1
  unfolding xcan_interrupt
  xcan_interrupt-Stable w =
      let (isr_value, u) = read_reg k isr w in
      elim (Bool-cases (isr_value == 0)) [
        | inl e ↦ rw e (status w)
        | inr e ↦ rw e (trans (status w) (handle-Stable isr_value u))
      ]
