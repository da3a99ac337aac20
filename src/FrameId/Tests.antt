-- ===== src/FrameId/Tests.antt =====
-- The identifier of a standard remote frame, received and sent.
use zynq_can_sja1000_top.Common.{◌≡◌, refl}
use zynq_can_sja1000_top.FrameId.{tx_id, rx_id, tx_standard, tx_extended, rx_standard, rx_extended}

received_remote : rx_id 0x24700000 ≡ 0x40000123
unfolding rx_id rx_standard rx_extended
received_remote = refl

sent_remote : tx_id 0x40000123 ≡ 0x24700000
unfolding tx_id tx_standard tx_extended
sent_remote = refl
