-- ===== src/ErrorFrame/Report.antt =====
-- The error frame that xcan_err_interrupt hands up, as one definition by the bits of the three
-- status words.
pub mod Steps
pub mod Frame
pub mod Sent
pub mod Tests
use zynq_can_sja1000_top.Common.{ℕ, ◌+◌, u8, ltb, if◌then◌else◌, ◌||◌, Bool, true, false}
use zynq_can_sja1000_top.Can.{CanFrame, CanState}

-- What alloc_can_err_skb gives: the error flag, eight bytes, all 0.
abbrev pub no_error : CanFrame
no_error = record {
  can_id = 0x20000000;
  can_dlc = 8;
  d0 = 0;
  d1 = 0;
  d2 = 0;
  d3 = 0;
  d4 = 0;
  d5 = 0;
  d6 = 0;
  d7 = 0;
}

-- The states whose error counters are in the frame.
abbrev pub is_limited : CanState → Bool
is_limited CanState.error_passive = true
is_limited CanState.error_warning = true
is_limited _ = false

abbrev pub is_off : CanState → Bool
is_off CanState.bus_off = true
is_off _ = false

-- The controller's part of data[1]: the receiver is named for error-passive when its counter is
-- above 127, for error-warning unless the transmitter's counter is greater.
abbrev pub controller : CanState → ℕ → ℕ → ℕ
controller CanState.error_passive txerr rxerr = if ltb 127 rxerr then 0x10 else 0x20
controller CanState.error_warning txerr rxerr = if ltb rxerr txerr then 0x08 else 0x04
controller _ txerr rxerr = 0

-- The state reached, if any, and the conditions that were reported.
pub record Report : Type 0 where
  pub state : CanState
  pub arb : Bool
  pub over : Bool
  pub err : Bool
  pub ack : Bool
  pub bit : Bool
  pub stuff : Bool
  pub form : Bool
  pub crc : Bool

abbrev pub class_of : Report → ℕ
class_of r =
    0x20000000
    + (if is_off r.state then 0x40 else 0)
    + (if is_limited r.state || r.over then 0x04 else 0)
    + (if r.arb then 0x02 else 0)
    + (if r.err then 0x88 else 0)
    + (if r.ack then 0x20 else 0)

abbrev pub error_frame : Report → ℕ → ℕ → CanFrame
error_frame r txerr rxerr = record {
  can_id = class_of r;
  can_dlc = 8;
  d0 = 0;
  d1 = controller r.state txerr rxerr + (if r.over then 1 else 0);
  d2 = if r.form then 0x02 else if r.stuff then 0x04 else if r.bit then 0x01 else 0;
  d3 = if r.crc then 0x08 else if r.ack then 0x19 else 0;
  d4 = 0;
  d5 = 0;
  d6 = if is_limited r.state then u8 txerr else 0;
  d7 = if is_limited r.state then u8 rxerr else 0;
}
