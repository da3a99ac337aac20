-- ===== src/ErrorFrame/Report/Sent.antt =====
-- The error frame of xcan_err_interrupt and the registers that it is made of.
use zynq_can_sja1000_top.Common.{
  ℕ, ◌/◌, ◌%◌, ◌^◌, ◌≡◌, refl, ap, ap₂, ◌∙◌, arith, some, none, bit_and, Option, List, [], ◌∷◌,
  ◌>>>◌,
}
use zynq_can_sja1000_top.Common.Bits.{bit_and_field, bit_and_low}
use zynq_can_sja1000_top.Registers.{Reg, sr, esr, ecr, ecr_tec_mask, ecr_rec_mask, esr_rec_shift}
use zynq_can_sja1000_top.Can.{CanFrame, CanState}
use zynq_can_sja1000_top.Kernel.{Kernel, Event, History}
use zynq_can_sja1000_top.Driver.{World, read_reg, write_reg}
use zynq_can_sja1000_top.ErrorFrame.{
  Skb, marked_frame, state_error, arbitration_lost, rx_overflow, bus_error, alloc_error,
  deliver_error, xcan_err_interrupt,
}
use zynq_can_sja1000_top.ErrorFrame.Kinds.{Same-error_kinds}
use zynq_can_sja1000_top.ErrorFrame.State.{next_state}
use zynq_can_sja1000_top.ErrorFrame.Report.{error_frame, no_error}
use zynq_can_sja1000_top.ErrorFrame.Report.Steps.{digit}
use zynq_can_sja1000_top.ErrorFrame.Report.Frame.{
  report, frame-state_error, frame-arbitration_lost, frame-rx_overflow, frame-bus_error,
}

-- The registers read so far with their values, the newest first.
abbrev pub reads : History → List (Reg × ℕ)
reads [] = []
reads (Event.ioread o r x ∷ h) = (r, x) ∷ reads h
reads (_ ∷ h) = reads h

-- The frame of the newest event, if that is netif_rx.
abbrev pub sent_up : History → Option CanFrame
sent_up (Event.netif_rx cf ∷ h) = some cf
sent_up _ = none

module _ (isr_value : ℕ) (skb : Skb) (w : World) where
  reads-state_error :
      (status txerr rxerr : ℕ)
      → reads (state_error isr_value status txerr rxerr skb w).1.history ≡ reads w.history
  unfolding state_error
  reads-state_error status txerr rxerr = ground arith

  reads-arbitration_lost : reads (arbitration_lost isr_value skb w).1.history ≡ reads w.history
  unfolding arbitration_lost
  reads-arbitration_lost = ground arith

  reads-rx_overflow : reads (rx_overflow isr_value skb w).1.history ≡ reads w.history
  unfolding rx_overflow
  reads-rx_overflow = ground arith

  reads-bus_error :
      (err_status : ℕ) → reads (bus_error isr_value err_status skb w).1.history ≡ reads w.history
  unfolding bus_error
  reads-bus_error err_status = ground (arith, Same-error_kinds err_status (marked_frame skb) w)

deliver_some :
    (skb : Skb) (cf : CanFrame) (w : World)
    → skb ≡ some cf
    → let w' = (deliver_error skb w).1 in
      (sent_up w'.history ≡ some cf) × (reads w'.history ≡ reads w.history)
unfolding deliver_error
deliver_some skb cf w e = rw e (refl, refl)

-- What xcan_err_interrupt reads, the error status, the error counters twice and the status, and
-- the frame that it hands up: the transmit counter is the low byte of the first read of the
-- counters, the receive counter the second byte of the second one.
pub record Sent (isr_value : ℕ) (w w' : World) : Type 0 where
  pub err_status : ℕ
  pub ecr_tx : ℕ
  pub ecr_rx : ℕ
  pub status : ℕ
  pub values :
      reads w'.history
      ≡ (sr, status) ∷ (ecr, ecr_rx) ∷ (ecr, ecr_tx) ∷ (esr, err_status) ∷ reads w.history
  pub frame :
      sent_up w'.history
      ≡ some (
          error_frame
            (report isr_value err_status status)
            (ecr_tx % 2 ^ 8)
            (ecr_rx / 2 ^ 8 % 2 ^ 8))

module _ (k : Kernel) where
  -- When alloc_can_err_skb gives its frame, as documented with the error flag, eight bytes and no
  -- data, xcan_err_interrupt reads the error status, the error counters twice and the status
  -- register, and its last event hands up exactly the frame of the reference definition: the
  -- class and data bytes for the state reached, lost arbitration, overflow, and with the error
  -- interrupt the protocol errors of the error status, where a form error hides a stuff error, a
  -- stuff error a bit error, and a CRC error the location of an ACK error.
  pub xcan_err_interrupt-Sent :
      (isr_value : ℕ) (w : World)
      → k.alloc_can_err_skb w.history ≡ some no_error
      → Sent isr_value w (xcan_err_interrupt k isr_value w).1
  unfolding xcan_err_interrupt alloc_error
  xcan_err_interrupt-Sent isr_value w alloc =
      let a = alloc_error k w in
      let e = read_reg k esr a.1 in
      let x = (write_reg esr e.0 e.1).1 in
      let t = read_reg k ecr x in
      let r = read_reg k ecr t.1 in
      let s = read_reg k sr r.1 in
      let tx = bit_and t.0 ecr_tec_mask in
      let rx = bit_and r.0 ecr_rec_mask >>> esr_rec_shift in
      let s1 = state_error isr_value s.0 tx rx a.0 s.1 in
      let s2 = arbitration_lost isr_value s1.0 s1.1 in
      let s3 = rx_overflow isr_value s2.0 s2.1 in
      let s4 = bus_error isr_value e.0 s3.0 s3.1 in
      let state = next_state isr_value s.0 CanState.error_active in
      let arb = digit 0 isr_value in
      let over = digit 6 isr_value in
      let e0 : a.0 ≡ some no_error = rw (alloc, alloc_error) refl in
      let h0 : reads a.1.history ≡ reads w.history = rw (alloc, alloc_error) refl in
      let e1 =
        ap (λ skb. (state_error isr_value s.0 tx rx skb s.1).0) e0
        ∙ frame-state_error isr_value tx rx s.1 s.0 in
      let e2 =
        ap (λ skb. (arbitration_lost isr_value skb s1.1).0) e1
        ∙ frame-arbitration_lost isr_value tx rx s1.1 state in
      let e3 =
        ap (λ skb. (rx_overflow isr_value skb s2.1).0) e2
        ∙ frame-rx_overflow isr_value tx rx s2.1 state arb in
      let e4 =
        ap (λ skb. (bus_error isr_value e.0 skb s3.1).0) e3
        ∙ frame-bus_error state arb over tx rx isr_value e.0 s3.1 in
      let low : rx ≡ r.0 / 2 ^ 8 % 2 ^ 8 = omega (arith, bit_and_field 8 8 r.0) in
      let d = deliver_some s4.0 _ s4.1 e4 in
      record {
        err_status = e.0;
        ecr_tx = t.0;
        ecr_rx = r.0;
        status = s.0;
        values =
            d.1
            ∙ reads-bus_error isr_value s3.0 s3.1 e.0
            ∙ reads-rx_overflow isr_value s2.0 s2.1
            ∙ reads-arbitration_lost isr_value s1.0 s1.1
            ∙ reads-state_error isr_value a.0 s.1 s.0 tx rx
            ∙ ap (λ xs. (sr, s.0) ∷ (ecr, r.0) ∷ (ecr, t.0) ∷ (esr, e.0) ∷ xs) h0;
        frame =
            d.0
            ∙ ap₂ (λ (tx rx : ℕ). some (error_frame (report isr_value e.0 s.0) tx rx))
                (bit_and_low 8 t.0) low;
      }
