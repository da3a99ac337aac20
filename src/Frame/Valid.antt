-- ===== src/Frame/Valid.antt =====
-- The frame that xcan_rx fills in, as a value of `struct can_frame`.
use zynq_can_sja1000_top.Common.{◌^◌, ◌<◌, ◌≤◌, ◌≡◌, ◌>>>◌, arith}
use zynq_can_sja1000_top.Can.{CanFrame}
use zynq_can_sja1000_top.FrameId.{rx_id}
use zynq_can_sja1000_top.FrameId.RoundTrip.{rx_id-IsCanId}
use zynq_can_sja1000_top.Kernel.{Kernel, IsDocumented, AreBytes}
use zynq_can_sja1000_top.Registers.{dlcr_dlc_shift}
use zynq_can_sja1000_top.Frame.{FifoWords, rx_frame, first_bytes, last_bytes}
use zynq_can_sja1000_top.Frame.RoundTrip.{IsFrame}

-- A new frame buffer holds bytes.
abbrev pub IsBuffer : CanFrame → Type 0
IsBuffer cf = AreBytes (first_bytes cf) × AreBytes (last_bytes cf)

module _ (k : Kernel) (d : IsDocumented k) (words : FifoWords) (empty : CanFrame)
    (h1 : words.dw1 < 2 ^ 32) (h2 : words.dw2 < 2 ^ 32) (b : IsBuffer empty) where
  can_id-rx_frame : (rx_frame k words empty).can_id ≡ rx_id words.id
  unfolding rx_frame
  can_id-rx_frame = ground arith

  first-rx_frame : AreBytes (first_bytes (rx_frame k words empty))
  unfolding rx_frame
  first-rx_frame = ground (arith, d.be32_bytes words.dw1 h1)

  last-rx_frame : AreBytes (last_bytes (rx_frame k words empty))
  unfolding rx_frame
  last-rx_frame = ground (arith, d.be32_bytes words.dw2 h2)

  dlc-rx_frame : (rx_frame k words empty).can_dlc ≤ 8
  unfolding rx_frame
  dlc-rx_frame = ground (arith, d.dlc_max (words.dlc >>> dlcr_dlc_shift))

  -- A received frame is well-formed, whatever words the FIFO holds.
  pub rx_frame-IsFrame : IsFrame (rx_frame k words empty)
  rx_frame-IsFrame = record {
    id = rw can_id-rx_frame (rx_id-IsCanId words.id);
    dlc = dlc-rx_frame;
    first = first-rx_frame;
    last = last-rx_frame;
  }
