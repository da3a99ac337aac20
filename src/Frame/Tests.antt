-- ===== src/Frame/Tests.antt =====
-- A frame of two bytes on its way.
use zynq_can_sja1000_top.Common.{refl, inr, arith}
use zynq_can_sja1000_top.Can.{CanFrame}
use zynq_can_sja1000_top.Demo.{demo, demo-IsDocumented, no_data}
use zynq_can_sja1000_top.Frame.{FifoWords, tx_words, rx_frame}
use zynq_can_sja1000_top.Frame.RoundTrip.{IsFrame, Carries, SameFrame, rx_frame-tx_words}

abbrev two_bytes : CanFrame
two_bytes = record no_data { can_id = 0x123; can_dlc = 2; d0 = 10; d1 = 11 }

-- As received, with a time stamp.
abbrev received : FifoWords
received = record (tx_words demo two_bytes) { dlc = 0x20001234 }

two_bytes-IsFrame : IsFrame two_bytes
two_bytes-IsFrame = record {
  id = record { fits = omega arith; no_error = refl; short = inr (omega arith) };
  dlc = omega arith;
  first = (omega arith, omega arith, omega arith, omega arith);
  last = (omega arith, omega arith, omega arith, omega arith);
}

received-Carries : Carries (tx_words demo two_bytes) received
unfolding tx_words
received-Carries = record { id = refl; dlc = refl; dw1 = refl; dw2 = refl }

rx_frame-tx_words_example : SameFrame two_bytes (rx_frame demo received no_data)
rx_frame-tx_words_example =
    rx_frame-tx_words demo demo-IsDocumented two_bytes no_data received two_bytes-IsFrame
      received-Carries
