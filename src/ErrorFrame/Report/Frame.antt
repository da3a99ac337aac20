-- ===== src/ErrorFrame/Report/Frame.antt =====
-- The error frame after the last step of xcan_err_interrupt.
use zynq_can_sja1000_top.Common.{
  ℕ, ◌^◌, ◌≡◌, refl, ap, ◌∙◌, arith, ◌&&◌, Bool, some, inl, inr, Bool-cases,
}
use zynq_can_sja1000_top.Common.Bits.{has_digit, bit_and_field}
use zynq_can_sja1000_top.Can.{CanFrame, CanState}
use zynq_can_sja1000_top.Can
use zynq_can_sja1000_top.Driver.{World}
use zynq_can_sja1000_top.ErrorFrame.{
  state_error, passive_frame, warning_frame, arbitration_lost, rx_overflow, tx_error, rx_error,
  error_kinds, bus_error, mark_ack, mark_prot, mark_crc,
}
use zynq_can_sja1000_top.ErrorFrame.State.{next_state}
use zynq_can_sja1000_top.ErrorFrame.Report.{Report, error_frame, no_error}
use zynq_can_sja1000_top.ErrorFrame.Report.Steps.{
  digit, only_state, with_error, when, mark_over, mark_over-error_frame, mark_bus-error_frame,
  when-mark, frame-ack, frame-bit, frame-stuff, frame-form, frame-crc,
}

-- The report of the three status words: with no error interrupt the error status is not looked at.
abbrev pub report : (isr_value err_status status : ℕ) → Report
report isr_value err_status status =
    let err = digit 8 isr_value in
    record {
      state = next_state isr_value status CanState.error_active;
      arb = digit 0 isr_value;
      over = digit 6 isr_value;
      err = err;
      ack = err && digit 4 err_status;
      bit = err && digit 3 err_status;
      stuff = err && digit 2 err_status;
      form = err && digit 1 err_status;
      crc = err && digit 0 err_status;
    }

module _ (k status : ℕ) (mark : CanFrame → CanFrame) (cf : CanFrame) (w : World) where
  frame-tx_error :
      (tx_error status (2 ^ k) mark (some cf) w).0 ≡ some (when (digit k status) mark cf)
  unfolding tx_error
  frame-tx_error = ground (arith, has_digit k status)

  frame-rx_error :
      (rx_error status (2 ^ k) mark (some cf) w).0 ≡ some (when (digit k status) mark cf)
  unfolding rx_error
  frame-rx_error = ground (arith, has_digit k status)

module _ (isr_value txerr rxerr : ℕ) (w : World) where
  pub frame-state_error :
      (status : ℕ)
      → (state_error isr_value status txerr rxerr (some no_error) w).0
        ≡ some (
            error_frame
              (only_state (next_state isr_value status CanState.error_active))
              txerr
              rxerr)
  unfolding state_error passive_frame warning_frame
  frame-state_error status =
      ground (arith, has_digit 9 isr_value, bit_and_field 7 2 status, has_digit 6 status)

  pub frame-arbitration_lost :
      (s : CanState)
      → (arbitration_lost isr_value (some (error_frame (only_state s) txerr rxerr)) w).0
        ≡ some (error_frame (record (only_state s) { arb = digit 0 isr_value }) txerr rxerr)
  unfolding arbitration_lost
  frame-arbitration_lost s = ground (arith, has_digit 0 isr_value)

  when_over :
      (cf : CanFrame)
      → (rx_overflow isr_value (some cf) w).0 ≡ some (when (digit 6 isr_value) mark_over cf)
  unfolding rx_overflow
  when_over cf = ground (arith, has_digit 6 isr_value)

  pub frame-rx_overflow :
      (s : CanState) (arb : Bool)
      → let before = record (only_state s) { arb = arb } in
        (rx_overflow isr_value (some (error_frame before txerr rxerr)) w).0
        ≡ some (error_frame (record before { over = digit 6 isr_value }) txerr rxerr)
  frame-rx_overflow s arb =
      let before = record (only_state s) { arb = arb } in
      when_over (error_frame before txerr rxerr)
      ∙ ap some (
          when-mark (digit 6 isr_value) mark_over
            (λ b. error_frame (record before { over = b }) txerr rxerr)
            (mark_over-error_frame s arb txerr rxerr))

-- The report with the bits of the error status that are tested so far.
abbrev with_kinds : CanState → Bool → Bool → ℕ → Report
with_kinds s arb over err_status = record (with_error s arb over) {
  ack = digit 4 err_status;
  bit = digit 3 err_status;
  stuff = digit 2 err_status;
  form = digit 1 err_status;
  crc = digit 0 err_status;
}

module _ (s : CanState) (arb over : Bool) (txerr rxerr : ℕ) where
  pub frame-error_kinds :
      (err_status : ℕ) (w : World)
      → (error_kinds err_status (some (error_frame (with_error s arb over) txerr rxerr)) w).0
        ≡ some (error_frame (with_kinds s arb over err_status) txerr rxerr)
  unfolding error_kinds
  frame-error_kinds err_status w =
      let ack = digit 4 err_status in
      let bit = digit 3 err_status in
      let stuff = digit 2 err_status in
      let form = digit 1 err_status in
      let crc = digit 0 err_status in
      let prot1 = mark_prot Can.can_err_prot_bit in
      let prot2 = mark_prot Can.can_err_prot_stuff in
      let prot3 = mark_prot Can.can_err_prot_form in
      let f0 = error_frame (with_error s arb over) txerr rxerr in
      let s1 = tx_error err_status (2 ^ 4) mark_ack (some f0) w in
      let s2 = tx_error err_status (2 ^ 3) prot1 s1.0 s1.1 in
      let s3 = rx_error err_status (2 ^ 2) prot2 s2.0 s2.1 in
      let s4 = rx_error err_status (2 ^ 1) prot3 s3.0 s3.1 in
      let e1 =
        frame-tx_error 4 err_status mark_ack f0 w
        ∙ ap some (frame-ack s arb over txerr rxerr ack) in
      let e2 =
        ap (λ skb. (tx_error err_status (2 ^ 3) prot1 skb s1.1).0) e1
        ∙ frame-tx_error 3 err_status prot1 _ s1.1
        ∙ ap some (frame-bit s arb over txerr rxerr ack bit) in
      let e3 =
        ap (λ skb. (rx_error err_status (2 ^ 2) prot2 skb s2.1).0) e2
        ∙ frame-rx_error 2 err_status prot2 _ s2.1
        ∙ ap some (frame-stuff s arb over txerr rxerr ack bit stuff) in
      let e4 =
        ap (λ skb. (rx_error err_status (2 ^ 1) prot3 skb s3.1).0) e3
        ∙ frame-rx_error 1 err_status prot3 _ s3.1
        ∙ ap some (frame-form s arb over txerr rxerr ack bit stuff form) in
      ap (λ skb. (rx_error err_status (2 ^ 0) mark_crc skb s4.1).0) e4
      ∙ frame-rx_error 0 err_status mark_crc _ s4.1
      ∙ ap some (frame-crc s arb over txerr rxerr ack bit stuff form crc)

  pub frame-bus_error :
      (isr_value err_status : ℕ) (w : World)
      → let err = digit 8 isr_value in
        let before = record (only_state s) { arb = arb; over = over } in
        (bus_error isr_value err_status (some (error_frame before txerr rxerr)) w).0
        ≡ some (
            error_frame
              (record before {
                err = err;
                ack = err && digit 4 err_status;
                bit = err && digit 3 err_status;
                stuff = err && digit 2 err_status;
                form = err && digit 1 err_status;
                crc = err && digit 0 err_status;
              })
              txerr
              rxerr)
  unfolding bus_error
  frame-bus_error isr_value err_status w = elim (Bool-cases (digit 8 isr_value)) [
    | inl e ↦
        rw (has_digit 8 isr_value, e)
          (ap (λ cf. (error_kinds err_status (some cf) w).0)
              (mark_bus-error_frame s arb over txerr rxerr)
            ∙ frame-error_kinds err_status w)
    | inr e ↦ rw (has_digit 8 isr_value, e) refl
  ]
