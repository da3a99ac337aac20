-- ===== src/ErrorFrame/Report/Steps.antt =====
-- What each step of xcan_err_interrupt adds to the error frame.
use zynq_can_sja1000_top.Common.{
  ℕ, ◌/◌, ◌%◌, ◌^◌, ◌≡◌, refl, arith, ◌==◌, if◌then◌else◌, Bool, true, false, bit_or,
}
use zynq_can_sja1000_top.Can.{CanFrame, CanState}
use zynq_can_sja1000_top.Can
use zynq_can_sja1000_top.ErrorFrame.{flag, mark_ack, mark_prot, mark_crc}
use zynq_can_sja1000_top.ErrorFrame.Report.{Report, error_frame, class_of}

abbrev pub digit : ℕ → ℕ → Bool
digit k x = x / 2 ^ k % 2 == 1

-- Nothing but a state was reported.
abbrev pub only_state : CanState → Report
only_state s = record {
  state = s;
  arb = false;
  over = false;
  err = false;
  ack = false;
  bit = false;
  stuff = false;
  form = false;
  crc = false;
}

abbrev pub mark_over : CanFrame → CanFrame
mark_over cf = record (flag Can.can_err_crtl cf) { d1 = bit_or cf.d1 Can.can_err_crtl_rx_overflow }

pub mark_over-error_frame :
    (s : CanState) (arb : Bool) (txerr rxerr : ℕ)
    → let before = record (only_state s) { arb = arb } in
      mark_over (error_frame before txerr rxerr)
      ≡ error_frame (record before { over = true }) txerr rxerr
mark_over-error_frame CanState.error_active arb txerr rxerr = ground arith
mark_over-error_frame CanState.error_warning arb txerr rxerr = ground arith
mark_over-error_frame CanState.error_passive arb txerr rxerr = ground arith
mark_over-error_frame CanState.bus_off arb txerr rxerr = ground arith
mark_over-error_frame CanState.stopped arb txerr rxerr = ground arith
mark_over-error_frame CanState.sleeping arb txerr rxerr = ground arith

-- The report with an error interrupt, before its error status is looked at.
abbrev pub with_error : CanState → Bool → Bool → Report
with_error s arb over = record (only_state s) { arb = arb; over = over; err = true }

pub mark_bus-error_frame :
    (s : CanState) (arb over : Bool) (txerr rxerr : ℕ)
    → flag
        (bit_or Can.can_err_prot Can.can_err_buserror)
        (error_frame (record (only_state s) { arb = arb; over = over }) txerr rxerr)
      ≡ error_frame (with_error s arb over) txerr rxerr
mark_bus-error_frame CanState.error_active arb over txerr rxerr = ground arith
mark_bus-error_frame CanState.error_warning arb over txerr rxerr = ground arith
mark_bus-error_frame CanState.error_passive arb over txerr rxerr = ground arith
mark_bus-error_frame CanState.bus_off arb over txerr rxerr = ground arith
mark_bus-error_frame CanState.stopped arb over txerr rxerr = ground arith
mark_bus-error_frame CanState.sleeping arb over txerr rxerr = ground arith

class_ack :
    (s : CanState) (arb over : Bool)
    → bit_or (class_of (with_error s arb over)) 0x20
      ≡ class_of (record (with_error s arb over) { ack = true })
class_ack CanState.error_active arb over = ground arith
class_ack CanState.error_warning arb over = ground arith
class_ack CanState.error_passive arb over = ground arith
class_ack CanState.bus_off arb over = ground arith
class_ack CanState.stopped arb over = ground arith
class_ack CanState.sleeping arb over = ground arith

-- The class of protocol errors is marked already.
class_prot :
    (s : CanState) (arb over ack : Bool)
    → bit_or (class_of (record (with_error s arb over) { ack = ack })) 0x08
      ≡ class_of (record (with_error s arb over) { ack = ack })
class_prot CanState.error_active arb over ack = ground arith
class_prot CanState.error_warning arb over ack = ground arith
class_prot CanState.error_passive arb over ack = ground arith
class_prot CanState.bus_off arb over ack = ground arith
class_prot CanState.stopped arb over ack = ground arith
class_prot CanState.sleeping arb over ack = ground arith

-- A step that marks the frame under a condition.
abbrev pub when : Bool → (CanFrame → CanFrame) → CanFrame → CanFrame
when b mark cf = if b then mark cf else cf

pub when-mark :
    (b : Bool) (mark : CanFrame → CanFrame) (after : Bool → CanFrame)
    → mark (after false) ≡ after true
    → when b mark (after false) ≡ after b
when-mark true mark after e = e
when-mark false mark after e = refl

module _ (s : CanState) (arb over : Bool) (txerr rxerr : ℕ) where
  pub frame-ack :
      (b : Bool)
      → when b mark_ack (error_frame (with_error s arb over) txerr rxerr)
        ≡ error_frame (record (with_error s arb over) { ack = b }) txerr rxerr
  frame-ack b =
      when-mark b mark_ack
        (λ b. error_frame (record (with_error s arb over) { ack = b }) txerr rxerr)
        (λ i. record (error_frame (record (with_error s arb over) { ack = true }) txerr rxerr) {
          can_id = class_ack s arb over i;
        })

  pub frame-bit :
      (ack b : Bool)
      → when b
          (mark_prot Can.can_err_prot_bit)
          (error_frame (record (with_error s arb over) { ack = ack }) txerr rxerr)
        ≡ error_frame (record (with_error s arb over) { ack = ack; bit = b }) txerr rxerr
  frame-bit ack b =
      when-mark b (mark_prot Can.can_err_prot_bit)
        (λ b. error_frame (record (with_error s arb over) { ack = ack; bit = b }) txerr rxerr)
        (λ i.
          record (error_frame (record (with_error s arb over) { ack = ack; bit = true }) txerr
            rxerr) { can_id = class_prot s arb over ack i })

  pub frame-stuff :
      (ack bit b : Bool)
      → when b
          (mark_prot Can.can_err_prot_stuff)
          (error_frame (record (with_error s arb over) { ack = ack; bit = bit }) txerr rxerr)
        ≡ error_frame
            (record (with_error s arb over) { ack = ack; bit = bit; stuff = b })
            txerr
            rxerr
  frame-stuff ack bit b =
      when-mark b (mark_prot Can.can_err_prot_stuff)
        (λ b.
          error_frame (record (with_error s arb over) { ack = ack; bit = bit; stuff = b }) txerr
            rxerr)
        (λ i.
          record (error_frame
            (record (with_error s arb over) { ack = ack; bit = bit; stuff = true }) txerr rxerr) {
              can_id = class_prot s arb over ack i;
            })

  pub frame-form :
      (ack bit stuff b : Bool)
      → when b (mark_prot Can.can_err_prot_form) (
          error_frame
            (record (with_error s arb over) { ack = ack; bit = bit; stuff = stuff })
            txerr
            rxerr)
        ≡ error_frame
            (record (with_error s arb over) { ack = ack; bit = bit; stuff = stuff; form = b })
            txerr
            rxerr
  frame-form ack bit stuff b =
      when-mark b (mark_prot Can.can_err_prot_form)
        (λ b.
          error_frame
            (record (with_error s arb over) { ack = ack; bit = bit; stuff = stuff; form = b }) txerr
            rxerr)
        (λ i.
          record (error_frame
            (record (with_error s arb over) { ack = ack; bit = bit; stuff = stuff; form = true })
            txerr rxerr) { can_id = class_prot s arb over ack i })

  pub frame-crc :
      (ack bit stuff form b : Bool)
      → when b mark_crc (
          error_frame
            (record (with_error s arb over) { ack = ack; bit = bit; stuff = stuff; form = form })
            txerr
            rxerr)
        ≡ error_frame
            (record (with_error s arb over) {
              ack = ack;
              bit = bit;
              stuff = stuff;
              form = form;
              crc = b;
            })
            txerr
            rxerr
  frame-crc ack bit stuff form b =
      when-mark b mark_crc
        (λ b.
          error_frame
            (record (with_error s arb over) {
              ack = ack;
              bit = bit;
              stuff = stuff;
              form = form;
              crc = b;
            })
            txerr rxerr)
        (λ i.
          record (error_frame
            (record (with_error s arb over) {
              ack = ack;
              bit = bit;
              stuff = stuff;
              form = form;
              crc = true;
            })
            txerr rxerr) { can_id = class_prot s arb over ack i })
