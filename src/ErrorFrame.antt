-- ===== src/ErrorFrame.antt =====
-- xcan_err_interrupt of petalinux/components/modules/xilinx_can/xilinx_can.c: the error counters,
-- the state of the controller, and the error frame for the network stack. The frame is optional
-- throughout, since its allocation may fail.
pub mod Kinds
pub mod State
pub mod Device
pub mod Counters
pub mod Stable
pub mod Statistics
pub mod Report
pub mod Ring
pub mod Tests
use mathlib.Core.Option
use zynq_can_sja1000_top.Common.{
  ℕ, u8, ltb, has, ◌==◌, if◌then◌else◌, bit_and, bit_or, Option, none, some, ◌>>>◌, true, false,
}
use zynq_can_sja1000_top.Registers.{
  esr, ecr, sr, srr, ecr_tec_mask, ecr_rec_mask, esr_rec_shift, srr_reset_mask,
}
use zynq_can_sja1000_top.Registers.{
  ixr_bsoff_mask, ixr_arblst_mask, ixr_rxoflw_mask, ixr_error_mask, sr_estat_mask, sr_errwrn_mask,
}
use zynq_can_sja1000_top.Registers.{
  esr_acker_mask, esr_berr_mask, esr_ster_mask, esr_fmer_mask, esr_crcer_mask,
}
use zynq_can_sja1000_top.Can
use zynq_can_sja1000_top.Can.{CanFrame, CanState}
use zynq_can_sja1000_top.Kernel.{Kernel, Event}
use zynq_can_sja1000_top.Driver.{
  CanStats, Step, pure, ◌>>=◌, ◌>>◌, modify_priv, modify_stats, set_state, emit, inc, add_to,
  write_reg, read_reg,
}

abbrev pub Skb : Type 0
Skb = Option CanFrame

-- `cf->can_id |= flags`
abbrev pub flag : ℕ → CanFrame → CanFrame
flag flags cf = record cf { can_id = bit_or cf.can_id flags }

abbrev pub modify_can_stats : (CanStats → CanStats) → Step (Unit {0})
modify_can_stats f = modify_priv λ p. record p { can_stats = f p.can_stats }

-- The frame's part of the error-passive and error-warning branches.
pub passive_frame : ℕ → ℕ → CanFrame → CanFrame
passive_frame txerr rxerr cf = record (flag Can.can_err_crtl cf) {
  d1 = if ltb 127 rxerr then Can.can_err_crtl_rx_passive else Can.can_err_crtl_tx_passive;
  d6 = u8 txerr;
  d7 = u8 rxerr;
}

pub warning_frame : ℕ → ℕ → CanFrame → CanFrame
warning_frame txerr rxerr cf = record (flag Can.can_err_crtl cf) {
  d1 =
      bit_or cf.d1
        (if ltb rxerr txerr then Can.can_err_crtl_tx_warning else Can.can_err_crtl_rx_warning);
  d6 = u8 txerr;
  d7 = u8 rxerr;
}

-- Bus-off, error-passive or error-warning, in this order of precedence.
pub state_error : ℕ → ℕ → ℕ → ℕ → Skb → Step Skb
state_error isr_value status txerr rxerr skb =
    if has isr_value ixr_bsoff_mask
    then (do
      set_state CanState.bus_off
      modify_can_stats λ c. record c { bus_off_count = inc c.bus_off_count }
      write_reg srr srr_reset_mask
      emit Event.call_bus_off
      pure (Option.map (flag Can.can_err_busoff) skb))
    else if bit_and status sr_estat_mask == sr_estat_mask
    then (do
      set_state CanState.error_passive
      modify_can_stats λ c. record c { error_passive = inc c.error_passive }
      pure (Option.map (passive_frame txerr rxerr) skb))
    else if has status sr_errwrn_mask
    then (do
      set_state CanState.error_warning
      modify_can_stats λ c. record c { error_warning = inc c.error_warning }
      pure (Option.map (warning_frame txerr rxerr) skb))
    else pure skb

pub arbitration_lost : ℕ → Skb → Step Skb
arbitration_lost isr_value skb =
    if has isr_value ixr_arblst_mask
    then (do
      modify_can_stats λ c. record c { arbitration_lost = inc c.arbitration_lost }
      pure (
          Option.map
            (λ cf. record (flag Can.can_err_lostarb cf) { d0 = Can.can_err_lostarb_unspec }) skb))
    else pure skb

pub rx_overflow : ℕ → Skb → Step Skb
rx_overflow isr_value skb =
    if has isr_value ixr_rxoflw_mask
    then (do
      modify_stats
          λ s. record s { rx_over_errors = inc s.rx_over_errors; rx_errors = inc s.rx_errors }
      write_reg srr srr_reset_mask
      pure (
          Option.map
            (λ cf. record (flag Can.can_err_crtl cf) {
              d1 = bit_or cf.d1 Can.can_err_crtl_rx_overflow;
            })
            skb))
    else pure skb

-- One of the five tests of the error status: what it counts and what it marks in the frame.
pub tx_error : (status mask : ℕ) → (CanFrame → CanFrame) → Skb → Step Skb
tx_error status mask mark skb =
    if has status mask
    then (do modify_stats λ s. record s { tx_errors = inc s.tx_errors }; pure (Option.map mark skb))
    else pure skb

pub rx_error : (status mask : ℕ) → (CanFrame → CanFrame) → Skb → Step Skb
rx_error status mask mark skb =
    if has status mask
    then (do modify_stats λ s. record s { rx_errors = inc s.rx_errors }; pure (Option.map mark skb))
    else pure skb

abbrev pub mark_ack : CanFrame → CanFrame
mark_ack cf = record (flag Can.can_err_ack cf) { d3 = Can.can_err_prot_loc_ack }

abbrev pub mark_prot : ℕ → CanFrame → CanFrame
mark_prot kind cf = record (flag Can.can_err_prot cf) { d2 = kind }

abbrev pub mark_crc : CanFrame → CanFrame
mark_crc cf = record (flag Can.can_err_prot cf) { d3 = Can.can_err_prot_loc_crc_seq }

-- The five tests in their order.
pub error_kinds : ℕ → Skb → Step Skb
error_kinds err_status skb = do
  skb1 ← tx_error err_status esr_acker_mask mark_ack skb
  skb2 ← tx_error err_status esr_berr_mask (mark_prot Can.can_err_prot_bit) skb1
  skb3 ← rx_error err_status esr_ster_mask (mark_prot Can.can_err_prot_stuff) skb2
  skb4 ← rx_error err_status esr_fmer_mask (mark_prot Can.can_err_prot_form) skb3
  rx_error err_status esr_crcer_mask mark_crc skb4

abbrev pub marked_frame : Skb → Skb
marked_frame skb = Option.map (flag (bit_or Can.can_err_prot Can.can_err_buserror)) skb

pub bus_error : ℕ → ℕ → Skb → Step Skb
bus_error isr_value err_status skb =
    if has isr_value ixr_error_mask
    then (do
      skb' ← error_kinds err_status (marked_frame skb)
      modify_can_stats λ c. record c { bus_error = inc c.bus_error }
      pure skb')
    else pure skb

-- `if (skb)`: the frame is counted and handed up.
pub deliver_error : Skb → Step (Unit {0})
deliver_error none = pure tt
deliver_error (some cf) = do
  modify_stats
      λ s. record s { rx_packets = inc s.rx_packets; rx_bytes = add_to cf.can_dlc s.rx_bytes }
  emit (Event.netif_rx cf)

module _ (k : Kernel) where
  pub alloc_error : Step Skb
  alloc_error w = elim (k.alloc_can_err_skb w.history) [
    | none ↦ (none, (emit (Event.alloc_skb false) w).1)
    | some cf ↦ (some cf, (emit (Event.alloc_skb true) w).1)
  ]

  pub xcan_err_interrupt : ℕ → Step (Unit {0})
  xcan_err_interrupt isr_value = do
    skb ← alloc_error
    err_status ← read_reg k esr
    write_reg esr err_status
    ecr_tx ← read_reg k ecr
    ecr_rx ← read_reg k ecr
    status ← read_reg k sr
    let txerr = bit_and ecr_tx ecr_tec_mask
    let rxerr = bit_and ecr_rx ecr_rec_mask >>> esr_rec_shift
    skb1 ← state_error isr_value status txerr rxerr skb
    skb2 ← arbitration_lost isr_value skb1
    skb3 ← rx_overflow isr_value skb2
    skb4 ← bus_error isr_value err_status skb3
    deliver_error skb4
