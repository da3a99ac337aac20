-- ===== src/Driver/Statistics.antt =====
-- What the counters of `struct net_device_stats` stand for in
-- petalinux/components/modules/xilinx_can/xilinx_can.c, read off the history of the driver's calls.
use zynq_can_sja1000_top.Common.{ℕ, ◌+◌, u32, has, if◌then◌else◌, ◌≡◌, [], ◌∷◌}
use zynq_can_sja1000_top.Can.{CanFrame, can_rtr_flag}
use zynq_can_sja1000_top.Kernel.{Event, History}
use zynq_can_sja1000_top.Driver.{World}

-- The frames handed up, received ones and error frames, and their lengths.
abbrev pub received : History → ℕ
received [] = 0
received (Event.netif_receive_skb cf t ∷ h) = received h + 1
received (Event.netif_rx cf ∷ h) = received h + 1
received (_ ∷ h) = received h

abbrev pub received_bytes : History → ℕ
received_bytes [] = 0
received_bytes (Event.netif_receive_skb cf t ∷ h) = received_bytes h + cf.can_dlc
received_bytes (Event.netif_rx cf ∷ h) = received_bytes h + cf.can_dlc
received_bytes (_ ∷ h) = received_bytes h

-- The frames taken out of the ring, and the lengths of the data frames put into it.
abbrev pub completed : History → ℕ
completed [] = 0
completed (Event.get_echo_skb s ∷ h) = completed h + 1
completed (_ ∷ h) = completed h

abbrev pub data_length : CanFrame → ℕ
data_length cf = if has cf.can_id can_rtr_flag then 0 else cf.can_dlc

abbrev pub sent_bytes : History → ℕ
sent_bytes [] = 0
sent_bytes (Event.put_echo_skb cf s ∷ h) = sent_bytes h + data_length cf
sent_bytes (_ ∷ h) = sent_bytes h

-- The counters are these numbers, in 32 bits.
pub record IsCounted (w : World) : Type 0 where
  pub rx_packets : w.stats.rx_packets ≡ u32 (received w.history)
  pub rx_bytes : w.stats.rx_bytes ≡ u32 (received_bytes w.history)
  pub tx_packets : w.stats.tx_packets ≡ u32 (completed w.history)
  pub tx_bytes : w.stats.tx_bytes ≡ u32 (sent_bytes w.history)

-- A step that keeps the counters right.
abbrev pub Counts : World → World → Type 0
Counts w u = IsCounted w → IsCounted u
