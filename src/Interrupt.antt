-- ===== src/Interrupt.antt =====
-- The interrupt handler xcan_interrupt of petalinux/components/modules/xilinx_can/xilinx_can.c,
-- with xcan_state_interrupt.
pub mod Receive
pub mod Stable
pub mod Ring
pub mod Account
pub mod Keeps
pub mod Statistics
pub mod Tests
use zynq_can_sja1000_top.Common.{ℕ, ◌-◌, ◌^◌, has, ◌==◌, if◌then◌else◌, bit_and, bit_or}
use zynq_can_sja1000_top.Registers.{
  isr, icr, ier, ixr_slp_mask, ixr_wkup_mask, ixr_txok_mask, ixr_error_mask,
}
use zynq_can_sja1000_top.Registers.{
  ixr_rxoflw_mask, ixr_bsoff_mask, ixr_arblst_mask, ixr_rxnemp_mask, ixr_rxok_mask,
}
use zynq_can_sja1000_top.Can.{CanState}
use zynq_can_sja1000_top.Kernel.{Kernel, Event}
use zynq_can_sja1000_top.Driver.{Step, pure, ◌>>=◌, ◌>>◌, set_state, emit, write_reg, read_reg}
use zynq_can_sja1000_top.Transmit.{xcan_tx_interrupt}
use zynq_can_sja1000_top.ErrorFrame.{xcan_err_interrupt}

-- `irqreturn_t`
pub data IrqReturn : Type 0 where
  irq_none irq_handled : IrqReturn

pub xcan_state_interrupt : ℕ → Step (Unit {0})
xcan_state_interrupt isr_value = do
  if has isr_value ixr_slp_mask then set_state CanState.sleeping else pure tt
  if has isr_value ixr_wkup_mask then set_state CanState.error_active else pure tt

abbrev pub sleep_bits : ℕ
sleep_bits = bit_or ixr_slp_mask ixr_wkup_mask

abbrev pub error_bits : ℕ
error_bits = bit_or (bit_or ixr_error_mask ixr_rxoflw_mask) (bit_or ixr_bsoff_mask ixr_arblst_mask)

abbrev pub rx_bits : ℕ
rx_bits = bit_or ixr_rxnemp_mask ixr_rxok_mask

-- The four parts of xcan_interrupt, each under its test.
unfoldable pub handle_sleep : ℕ → Step (Unit {0})
handle_sleep isr_value =
    if has isr_value sleep_bits
    then (do write_reg icr sleep_bits; xcan_state_interrupt isr_value)
    else pure tt

-- `ier &= ~(…)`, the complement in 32 bits.
pub schedule_rx : (ier_value : ℕ) → Step (Unit {0})
schedule_rx ier_value = do
  write_reg ier (bit_and ier_value (2 ^ 32 - 1 - rx_bits))
  emit Event.napi_schedule

module _ (k : Kernel) where
  unfoldable pub handle_tx : ℕ → Step (Unit {0})
  handle_tx isr_value =
      if has isr_value ixr_txok_mask then xcan_tx_interrupt k isr_value else pure tt

  unfoldable pub handle_error : ℕ → Step (Unit {0})
  handle_error isr_value =
      if has isr_value error_bits
      then (do write_reg icr error_bits; xcan_err_interrupt k isr_value)
      else pure tt

  unfoldable pub handle_rx : ℕ → Step (Unit {0})
  handle_rx isr_value =
      if has isr_value rx_bits
      then (do ier_value ← read_reg k ier; schedule_rx ier_value)
      else pure tt

  unfoldable pub handle : ℕ → Step (Unit {0})
  handle isr_value = do
    handle_sleep isr_value
    handle_tx isr_value
    handle_error isr_value
    handle_rx isr_value

  unfoldable pub xcan_interrupt : Step IrqReturn
  xcan_interrupt = do
    isr_value ← read_reg k isr
    if isr_value == 0
        then pure IrqReturn.irq_none
        else (do handle isr_value; pure IrqReturn.irq_handled)
