-- ===== src/Frame/RoundTrip.antt =====
-- A frame on its way from xcan_start_xmit through the FIFOs to xcan_rx.
use zynq_can_sja1000_top.Common.{◌/◌, ◌^◌, ◌≤◌, ◌≡◌, arith, ◌⊎◌, true, has}
use zynq_can_sja1000_top.Can.{CanFrame, can_rtr_flag}
use zynq_can_sja1000_top.FrameId.RoundTrip.{IsCanId, rx_id-tx_id}
use zynq_can_sja1000_top.Kernel.{Kernel, IsDocumented, AreBytes}
use zynq_can_sja1000_top.Frame.{FifoWords, tx_words, rx_frame, first_bytes, last_bytes}

-- A frame as the CAN interface passes it to a driver.
pub record IsFrame (cf : CanFrame) : Type 0 where
  pub id : IsCanId cf.can_id
  pub dlc : cf.can_dlc ≤ 8
  pub first : AreBytes (first_bytes cf)
  pub last : AreBytes (last_bytes cf)

-- What a receiver must see of a sent frame: the identifier with its flags, the length, and for a
-- data frame every byte below the length.
pub record SameFrame (sent got : CanFrame) : Type 0 where
  pub same_id : got.can_id ≡ sent.can_id
  pub same_dlc : got.can_dlc ≡ sent.can_dlc
  pub same_first :
      (has sent.can_id can_rtr_flag ≡ true)
      ⊎ (sent.can_dlc ≡ 0)
      ⊎ (first_bytes got ≡ first_bytes sent)
  pub same_last :
      (has sent.can_id can_rtr_flag ≡ true)
      ⊎ (sent.can_dlc ≤ 4)
      ⊎ (last_bytes got ≡ last_bytes sent)

-- The words that the receiver reads carry the sender's: its DLC register has the length in the
-- top four bits and the time stamp below.
pub record Carries (sent got : FifoWords) : Type 0 where
  pub id : got.id ≡ sent.id
  pub dlc : got.dlc / 2 ^ 28 ≡ sent.dlc / 2 ^ 28
  pub dw1 : got.dw1 ≡ sent.dw1
  pub dw2 : got.dw2 ≡ sent.dw2

-- For a frame with a can_id of a data or remote frame, a length of at most 8 and bytes as data: a
-- receiver whose FIFO carries the words that xcan_start_xmit makes of it, with any time stamp,
-- delivers the same frame: its identifier with all flags, its length, and for a data frame the
-- four-byte halves that the length reaches into. The byte order helpers and get_can_dlc are as
-- documented.
pub rx_frame-tx_words :
    (k : Kernel)
    → IsDocumented k
    → (cf empty : CanFrame) (words : FifoWords) → IsFrame cf
    → Carries (tx_words k cf) words
    → SameFrame cf (rx_frame k words empty)
unfolding rx_frame tx_words
rx_frame-tx_words k d cf empty words f c = ground (
  arith,
  rx_id-tx_id cf.can_id f.id,
  d.dlc_small cf.can_dlc,
  d.be32_of_bytes (first_bytes cf) f.first,
  d.be32_of_bytes (last_bytes cf) f.last,
)
