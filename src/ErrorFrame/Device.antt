-- ===== src/ErrorFrame/Device.antt =====
-- The counters of the CAN device, `priv->can.can_stats`, after xcan_err_interrupt.
use zynq_can_sja1000_top.Common.{
  ℕ, ◌/◌, ◌%◌, ◌^◌, ◌≡◌, refl, ap, ◌∙◌, arith, ◌>>>◌, bit_and, none, some, ◌==◌, ◌&&◌, not, Bool,
  if◌then◌else◌,
}
use zynq_can_sja1000_top.Common.Bits.{has_digit, bit_and_field}
use zynq_can_sja1000_top.Registers.{sr, esr, ecr, ecr_tec_mask, ecr_rec_mask, esr_rec_shift}
use zynq_can_sja1000_top.Kernel.{Kernel}
use zynq_can_sja1000_top.Driver.{World, Priv, CanStats, inc, read_reg, write_reg}
use zynq_can_sja1000_top.ErrorFrame.Kinds.{Same-error_kinds}
use zynq_can_sja1000_top.ErrorFrame.State.{status_read}
use zynq_can_sja1000_top.ErrorFrame.{
  Skb, marked_frame, state_error, arbitration_lost, rx_overflow, bus_error, deliver_error,
  alloc_error, xcan_err_interrupt,
}

abbrev pub inc_if : Bool → ℕ → ℕ
inc_if b n = if b then inc n else n

-- At most one of the three counters of states, by the interrupt status and the status register.
abbrev pub state_counted : ℕ → ℕ → CanStats → CanStats
state_counted isr_value status c =
    let off = isr_value / 2 ^ 9 % 2 == 1 in
    let passive = status / 2 ^ 7 % 4 == 3 in
    let warning = status / 2 ^ 6 % 2 == 1 in
    record c {
      bus_off_count = inc_if off c.bus_off_count;
      error_passive = inc_if (not off && passive) c.error_passive;
      error_warning = inc_if (not off && not passive && warning) c.error_warning;
    }

-- All five counters: an arbitration that was lost is bit 0 of the interrupt status, a bus error is
-- bit 8 and counts once, whatever its kinds.
abbrev pub can_counted : ℕ → ℕ → CanStats → CanStats
can_counted isr_value status c =
    let s = state_counted isr_value status c in
    record s {
      arbitration_lost = inc_if (isr_value % 2 == 1) s.arbitration_lost;
      bus_error = inc_if (isr_value / 2 ^ 8 % 2 == 1) s.bus_error;
    }

module _ (isr_value : ℕ) (skb : Skb) (w : World) where
  can_stats-state_error :
      (status txerr rxerr : ℕ)
      → (state_error isr_value status txerr rxerr skb w).1.priv.can_stats
        ≡ state_counted isr_value status w.priv.can_stats
  unfolding state_error
  can_stats-state_error status txerr rxerr =
      ground (arith, has_digit 9 isr_value, bit_and_field 7 2 status, has_digit 6 status)

  can_stats-arbitration_lost : (arbitration_lost isr_value skb w).1.priv.can_stats ≡ (
      let c = w.priv.can_stats in
      record c { arbitration_lost = inc_if (isr_value % 2 == 1) c.arbitration_lost })
  unfolding arbitration_lost
  can_stats-arbitration_lost = ground (arith, has_digit 0 isr_value)

  can_stats-rx_overflow : (rx_overflow isr_value skb w).1.priv.can_stats ≡ w.priv.can_stats
  unfolding rx_overflow
  can_stats-rx_overflow = ground arith

  can_stats-bus_error :
      (err_status : ℕ)
      → (bus_error isr_value err_status skb w).1.priv.can_stats ≡ (
          let c = w.priv.can_stats in
          record c { bus_error = inc_if (isr_value / 2 ^ 8 % 2 == 1) c.bus_error })
  unfolding bus_error
  can_stats-bus_error err_status =
      let same = (Same-error_kinds err_status (marked_frame skb) w).0 in
      ground (arith, has_digit 8 isr_value, ap (λ (p : Priv). p.can_stats) same)

can_stats-deliver_error :
    (skb : Skb) (w : World) → (deliver_error skb w).1.priv.can_stats ≡ w.priv.can_stats
unfolding deliver_error
can_stats-deliver_error none w = refl
can_stats-deliver_error (some cf) w = refl

module _ (k : Kernel) where
  can_stats-alloc_error : (w : World) → (alloc_error k w).1.priv.can_stats ≡ w.priv.can_stats
  unfolding alloc_error
  can_stats-alloc_error w = ground arith

  pub can_stats-xcan_err_interrupt :
      (isr_value : ℕ) (w : World)
      → (xcan_err_interrupt k isr_value w).1.priv.can_stats
        ≡ can_counted isr_value (status_read k w) w.priv.can_stats
  unfolding xcan_err_interrupt
  can_stats-xcan_err_interrupt isr_value w =
      let a = alloc_error k w in
      let e = read_reg k esr a.1 in
      let x = (write_reg esr e.0 e.1).1 in
      let t = read_reg k ecr x in
      let r = read_reg k ecr t.1 in
      let s = read_reg k sr r.1 in
      let tx = bit_and t.0 ecr_tec_mask in
      let rx = bit_and r.0 ecr_rec_mask >>> esr_rec_shift in
      let s1 = state_error isr_value s.0 tx rx a.0 s.1 in
      let s2 = arbitration_lost isr_value s1.0 s1.1 in
      let s3 = rx_overflow isr_value s2.0 s2.1 in
      let s4 = bus_error isr_value e.0 s3.0 s3.1 in
      let lost : CanStats → CanStats =
        λ c. record c { arbitration_lost = inc_if (isr_value % 2 == 1) c.arbitration_lost } in
      let bus : CanStats → CanStats =
        λ c. record c { bus_error = inc_if (isr_value / 2 ^ 8 % 2 == 1) c.bus_error } in
      let start = ap (state_counted isr_value s.0) (can_stats-alloc_error w) in
      let first = can_stats-state_error isr_value a.0 s.1 s.0 tx rx ∙ start in
      let second = can_stats-arbitration_lost isr_value s1.0 s1.1 ∙ ap lost first in
      let third = can_stats-rx_overflow isr_value s2.0 s2.1 ∙ second in
      can_stats-deliver_error s4.0 s4.1 ∙ can_stats-bus_error isr_value s3.0 s3.1 e.0 ∙ ap bus third
