-- ===== src/Receive.antt =====
-- Reception in petalinux/components/modules/xilinx_can/xilinx_can.c: xcan_rx, which takes one
-- frame out of the core's FIFO, and the NAPI routine xcan_rx_poll that calls it.
pub mod Frames
pub mod Poll
pub mod Returns
pub mod Stable
pub mod Ring
pub mod Fifo
pub mod Valid
pub mod Statistics
pub mod Tests
use zynq_can_sja1000_top.Common.{
  ℕ, zero, suc, ◌+◌, ltb, has, ◌&&◌, not, ◌==◌, if◌then◌else◌, bit_or, true, false, u16, Option,
  none, some,
}
use zynq_can_sja1000_top.Registers.{isr, icr, ier, rxfifo_id, rxfifo_dlc, rxfifo_dw1, rxfifo_dw2}
use zynq_can_sja1000_top.Registers.{ixr_rxok_mask, ixr_rxnemp_mask}
use zynq_can_sja1000_top.Can.{CanFrame}
use zynq_can_sja1000_top.Kernel.{Kernel, Event, led_rx}
use zynq_can_sja1000_top.Driver.{World, Step, pure, ◌>>=◌, ◌>>◌, modify_stats}
use zynq_can_sja1000_top.Driver.{emit, inc, add_to, write_reg, read_reg}
use zynq_can_sja1000_top.Frame.{FifoWords, rx_frame}
use zynq_can_sja1000_top.Timestamp.{xcan_timestamp2ktime, xcan_get_timestamp}

module _ (k : Kernel) where
  -- xcan_rx behind the allocation: `empty` is the new frame.
  pub receive_into : CanFrame → Step ℕ
  receive_into empty = do
    id_xcan ← read_reg k rxfifo_id
    dlc_reg ← read_reg k rxfifo_dlc
    hwtstamp ← xcan_timestamp2ktime k (u16 (k.le32_to_cpu (xcan_get_timestamp dlc_reg)))
    word1 ← read_reg k rxfifo_dw1
    word2 ← read_reg k rxfifo_dw2
    let words : FifoWords = record { id = id_xcan; dlc = dlc_reg; dw1 = word1; dw2 = word2 }
    let cf = rx_frame k words empty
    modify_stats
        λ s. record s { rx_bytes = add_to cf.can_dlc s.rx_bytes; rx_packets = inc s.rx_packets }
    emit (Event.netif_receive_skb cf hwtstamp.ktime)
    pure 1

  pub xcan_rx : Step ℕ
  xcan_rx w = elim (k.alloc_can_skb w.history) [
    | none ↦
        (do
          emit (Event.alloc_skb false)
          modify_stats λ s. record s { rx_dropped = inc s.rx_dropped }
          pure 0)
          w
    | some empty ↦ (do emit (Event.alloc_skb true); receive_into empty) w
  ]

  -- One round of the loop of xcan_rx_poll: how many frames it took, and the next `isr`.
  pub poll_round : Step (ℕ × ℕ)
  poll_round = do
    write_reg icr ixr_rxok_mask
    n ← xcan_rx
    write_reg icr ixr_rxnemp_mask
    isr_value ← read_reg k isr
    pure (n, isr_value)

  -- `while ((isr & XCAN_IXR_RXNEMP_MASK) && (work_done < quota))`, on fuel: `none` means that
  -- the loop is still going on when the fuel is used up.
  pub poll_loop : ℕ → ℕ → ℕ → ℕ → World → Option (ℕ × World)
  poll_loop zero quota work isr_value w = none
  poll_loop (suc fuel) quota work isr_value w =
      let round = poll_round w in
      let rest = poll_loop fuel quota (work + round.0.0) round.0.1 round.1 in
      if has isr_value ixr_rxnemp_mask && ltb work quota then rest else some (work, w)

  -- What xcan_rx_poll does behind its loop.
  pub poll_end : ℕ → ℕ → Step ℕ
  poll_end quota work = do
    if not (work == 0) then emit (Event.led led_rx) else pure tt
    if ltb work quota
        then (do
          emit Event.napi_complete
          ier_value ← read_reg k ier
          write_reg ier (bit_or ier_value (bit_or ixr_rxok_mask ixr_rxnemp_mask)))
        else pure tt
    pure work

  pub xcan_rx_poll : ℕ → ℕ → World → Option (ℕ × World)
  xcan_rx_poll fuel quota w =
      let (isr_value, w') = read_reg k isr w in
      elim (poll_loop fuel quota 0 isr_value w') [
        | none ↦ none
        | some (work, u) ↦ some (poll_end quota work u)
      ]
