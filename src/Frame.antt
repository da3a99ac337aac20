-- ===== src/Frame.antt =====
-- The words of a frame in the core's FIFOs: as xcan_start_xmit of
-- petalinux/components/modules/xilinx_can/xilinx_can.c builds them, and as xcan_rx reads them.
pub mod RoundTrip
pub mod Valid
pub mod Tests
use zynq_can_sja1000_top.Common.{ℕ, ◌-◌, ltb, has, ◌<<◌, ◌>>>◌, if◌then◌else◌}
use zynq_can_sja1000_top.Registers.{dlcr_dlc_shift}
use zynq_can_sja1000_top.Can.{CanFrame, can_rtr_flag}
use zynq_can_sja1000_top.FrameId.{tx_id, rx_id}
use zynq_can_sja1000_top.Kernel.{Kernel, Bytes}

-- What the four FIFO registers hold for one frame.
pub record FifoWords : Type 0 where
  pub id : ℕ
  pub dlc : ℕ
  pub dw1 : ℕ
  pub dw2 : ℕ

abbrev pub first_bytes : CanFrame → Bytes
first_bytes cf = record { b0 = cf.d0; b1 = cf.d1; b2 = cf.d2; b3 = cf.d3 }

abbrev pub last_bytes : CanFrame → Bytes
last_bytes cf = record { b0 = cf.d4; b1 = cf.d5; b2 = cf.d6; b3 = cf.d7 }

abbrev pub set_first_bytes : Bytes → CanFrame → CanFrame
set_first_bytes b cf = record cf { d0 = b.b0; d1 = b.b1; d2 = b.b2; d3 = b.b3 }

abbrev pub set_last_bytes : Bytes → CanFrame → CanFrame
set_last_bytes b cf = record cf { d4 = b.b0; d5 = b.b1; d6 = b.b2; d7 = b.b3 }

module _ (k : Kernel) where
  -- `id`, `dlc` and `data[]` of xcan_start_xmit.
  pub tx_words : CanFrame → FifoWords
  tx_words cf = record {
    id = tx_id cf.can_id;
    dlc = cf.can_dlc << dlcr_dlc_shift;
    dw1 = if ltb 0 cf.can_dlc then k.be32_to_cpup (first_bytes cf) else 0;
    dw2 = if ltb 4 cf.can_dlc then k.be32_to_cpup (last_bytes cf) else 0;
  }

  -- The payload of xcan_rx: nothing is stored for a remote frame.
  pub rx_data : FifoWords → CanFrame → CanFrame
  rx_data f cf =
      let first = if ltb 0 cf.can_dlc then set_first_bytes (k.cpu_to_be32 f.dw1) cf else cf in
      let both = if ltb 4 cf.can_dlc then set_last_bytes (k.cpu_to_be32 f.dw2) first else first in
      if has cf.can_id can_rtr_flag then cf else both

  -- What xcan_rx fills into the empty frame `cf`.
  pub rx_frame : FifoWords → CanFrame → CanFrame
  unfolding rx_data
  rx_frame f cf =
      rx_data f
        (record cf { can_id = rx_id f.id; can_dlc = k.get_can_dlc (f.dlc >>> dlcr_dlc_shift) })
