-- ===== src/ErrorFrame/State.antt =====
-- The state of the controller after xcan_err_interrupt.
use zynq_can_sja1000_top.Common.{
  ℕ, ◌/◌, ◌%◌, ◌^◌, ◌≡◌, refl, ap, ◌∙◌, arith, ◌>>>◌, [], ◌∷◌, bit_and,
}
use zynq_can_sja1000_top.Common.{Option, none, some, ◌==◌, if◌then◌else◌}
use zynq_can_sja1000_top.Common.Bits.{has_digit, bit_and_field}
use zynq_can_sja1000_top.Registers.{Reg, sr, esr, ecr, ecr_tec_mask, ecr_rec_mask, esr_rec_shift}
use zynq_can_sja1000_top.Can.{CanState, bus_off, error_passive, error_warning}
use zynq_can_sja1000_top.Kernel.{Kernel, Event, History}
use zynq_can_sja1000_top.Driver.{World, Priv, read_reg, write_reg}
use zynq_can_sja1000_top.ErrorFrame.Kinds.{Same-error_kinds}
use zynq_can_sja1000_top.ErrorFrame.{
  Skb, marked_frame, state_error, arbitration_lost, rx_overflow, bus_error, deliver_error,
  alloc_error, xcan_err_interrupt,
}

-- The value read last from the status register.
abbrev pub last_sr : History → Option ℕ
last_sr [] = none
last_sr (Event.ioread o Reg.sr x ∷ h) = some x
last_sr (_ ∷ h) = last_sr h

-- The state that the interrupt bits and the status mean: bus-off by bit 9 of the interrupt
-- status, else error-passive by both bits 7 and 8 of the status, else error-warning by bit 6.
abbrev pub next_state : ℕ → ℕ → CanState → CanState
next_state isr_value status old =
    if isr_value / 2 ^ 9 % 2 == 1
    then bus_off
    else if status / 2 ^ 7 % 4 == 3
    then error_passive
    else if status / 2 ^ 6 % 2 == 1
    then error_warning
    else old

module _ (isr_value : ℕ) (skb : Skb) (w : World) where
  can_state-state_error :
      (status txerr rxerr : ℕ)
      → (state_error isr_value status txerr rxerr skb w).1.priv.can_state
        ≡ next_state isr_value status w.priv.can_state
  unfolding state_error
  can_state-state_error status txerr rxerr =
      ground (arith, has_digit 9 isr_value, bit_and_field 7 2 status, has_digit 6 status)

  can_state-arbitration_lost :
      (arbitration_lost isr_value skb w).1.priv.can_state ≡ w.priv.can_state
  unfolding arbitration_lost
  can_state-arbitration_lost = ground arith

  can_state-rx_overflow : (rx_overflow isr_value skb w).1.priv.can_state ≡ w.priv.can_state
  unfolding rx_overflow
  can_state-rx_overflow = ground arith

  can_state-bus_error :
      (err_status : ℕ) → (bus_error isr_value err_status skb w).1.priv.can_state ≡ w.priv.can_state
  unfolding bus_error
  can_state-bus_error err_status = ground (arith, Same-error_kinds err_status (marked_frame skb) w)

  last_sr-state_error :
      (status txerr rxerr : ℕ)
      → last_sr (state_error isr_value status txerr rxerr skb w).1.history ≡ last_sr w.history
  unfolding state_error
  last_sr-state_error status txerr rxerr = ground arith

  last_sr-arbitration_lost :
      last_sr (arbitration_lost isr_value skb w).1.history ≡ last_sr w.history
  unfolding arbitration_lost
  last_sr-arbitration_lost = ground arith

  last_sr-rx_overflow : last_sr (rx_overflow isr_value skb w).1.history ≡ last_sr w.history
  unfolding rx_overflow
  last_sr-rx_overflow = ground arith

  last_sr-bus_error :
      (err_status : ℕ)
      → last_sr (bus_error isr_value err_status skb w).1.history ≡ last_sr w.history
  unfolding bus_error
  last_sr-bus_error err_status = ground (arith, Same-error_kinds err_status (marked_frame skb) w)

can_state-deliver_error :
    (skb : Skb) (w : World) → (deliver_error skb w).1.priv.can_state ≡ w.priv.can_state
unfolding deliver_error
can_state-deliver_error none w = refl
can_state-deliver_error (some cf) w = refl

last_sr-deliver_error :
    (skb : Skb) (w : World) → last_sr (deliver_error skb w).1.history ≡ last_sr w.history
unfolding deliver_error
last_sr-deliver_error none w = refl
last_sr-deliver_error (some cf) w = refl

module _ (k : Kernel) where
  can_state-alloc_error : (w : World) → (alloc_error k w).1.priv ≡ w.priv
  unfolding alloc_error
  can_state-alloc_error w = ground arith

  -- The status that xcan_err_interrupt reads, and it is read last.
  abbrev pub status_read : World → ℕ
  status_read w =
      let a = alloc_error k w in
      let e = read_reg k esr a.1 in
      let x = (write_reg esr e.0 e.1).1 in
      let t = read_reg k ecr x in let r = read_reg k ecr t.1 in (read_reg k sr r.1).0

  pub last_sr-xcan_err_interrupt :
      (isr_value : ℕ) (w : World)
      → last_sr (xcan_err_interrupt k isr_value w).1.history ≡ some (status_read w)
  unfolding xcan_err_interrupt
  last_sr-xcan_err_interrupt isr_value w =
      let a = alloc_error k w in
      let e = read_reg k esr a.1 in
      let x = (write_reg esr e.0 e.1).1 in
      let t = read_reg k ecr x in
      let r = read_reg k ecr t.1 in
      let s = read_reg k sr r.1 in
      let tx = bit_and t.0 ecr_tec_mask in
      let rx = bit_and r.0 ecr_rec_mask >>> esr_rec_shift in
      let s1 = state_error isr_value s.0 tx rx a.0 s.1 in
      let s2 = arbitration_lost isr_value s1.0 s1.1 in
      let s3 = rx_overflow isr_value s2.0 s2.1 in
      let s4 = bus_error isr_value e.0 s3.0 s3.1 in
      last_sr-deliver_error s4.0 s4.1
      ∙ last_sr-bus_error isr_value s3.0 s3.1 e.0
      ∙ last_sr-rx_overflow isr_value s2.0 s2.1
      ∙ last_sr-arbitration_lost isr_value s1.0 s1.1
      ∙ last_sr-state_error isr_value a.0 s.1 s.0 tx rx

  -- After xcan_err_interrupt the controller is in the state that the interrupt bits and the
  -- status register, as it was read last, mean: bus-off before error-passive before
  -- error-warning, and with none of the three the state that it had.
  pub xcan_err_interrupt-next_state :
      (isr_value : ℕ) (w : World)
      → let w' = (xcan_err_interrupt k isr_value w).1 in
        (status : ℕ) × (last_sr w'.history ≡ some status)
        × (w'.priv.can_state ≡ next_state isr_value status w.priv.can_state)
  unfolding xcan_err_interrupt
  xcan_err_interrupt-next_state isr_value w =
      let a = alloc_error k w in
      let e = read_reg k esr a.1 in
      let x = (write_reg esr e.0 e.1).1 in
      let t = read_reg k ecr x in
      let r = read_reg k ecr t.1 in
      let s = read_reg k sr r.1 in
      let tx = bit_and t.0 ecr_tec_mask in
      let rx = bit_and r.0 ecr_rec_mask >>> esr_rec_shift in
      let s1 = state_error isr_value s.0 tx rx a.0 s.1 in
      let s2 = arbitration_lost isr_value s1.0 s1.1 in
      let s3 = rx_overflow isr_value s2.0 s2.1 in
      let s4 = bus_error isr_value e.0 s3.0 s3.1 in
      (
        s.0,
        last_sr-xcan_err_interrupt isr_value w,
        can_state-deliver_error s4.0 s4.1
            ∙ can_state-bus_error isr_value s3.0 s3.1 e.0
            ∙ can_state-rx_overflow isr_value s2.0 s2.1
            ∙ can_state-arbitration_lost isr_value s1.0 s1.1
            ∙ can_state-state_error isr_value a.0 s.1 s.0 tx rx
            ∙ ap (λ (q : Priv). next_state isr_value s.0 q.can_state) (can_state-alloc_error w),
      )
