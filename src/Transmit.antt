-- ===== src/Transmit.antt =====
-- Transmission in petalinux/components/modules/xilinx_can/xilinx_can.c: xcan_start_xmit, which
-- queues a frame in the core's FIFO, and xcan_tx_interrupt, which completes the sent ones.
pub mod Ring
pub mod Completion
pub mod Slots
pub mod Queue
pub mod Echo
pub mod Branches
pub mod Latch
pub mod Race
pub mod Keeps
pub mod Statistics
pub mod Tests
use zynq_can_sja1000_top.Common.{
  ℕ, zero, suc, ◌-◌, ◌%◌, ltb, has, ◌&&◌, not, ◌==◌, if◌then◌else◌, sub32,
}
use zynq_can_sja1000_top.Registers.{sr, icr, isr, txfifo_id, txfifo_dlc, txfifo_dw1, txfifo_dw2}
use zynq_can_sja1000_top.Registers.{sr_txfll_mask, ixr_txok_mask}
use zynq_can_sja1000_top.Can.{CanFrame, can_rtr_flag, NetdevTx, tx_ok, tx_busy}
use zynq_can_sja1000_top.Kernel.{Kernel, Event, led_tx}
use zynq_can_sja1000_top.Driver.{Step, pure, ◌>>=◌, ◌>>◌, get_priv, modify_priv, modify_stats}
use zynq_can_sja1000_top.Driver.{emit, inc, add_to, write_reg, read_reg}
use zynq_can_sja1000_top.Frame.{FifoWords, tx_words}

-- The writes that put a frame into the TX FIFO: the last one triggers the transmission.
pub write_frame : CanFrame → FifoWords → Step (Unit {0})
write_frame cf f = do
  write_reg txfifo_id f.id
  write_reg txfifo_dlc f.dlc
  if not (has cf.can_id can_rtr_flag)
      then (do
        write_reg txfifo_dw1 f.dw1
        write_reg txfifo_dw2 f.dw2
        modify_stats λ s. record s { tx_bytes = add_to cf.can_dlc s.tx_bytes })
      else pure tt

-- `(priv->tx_head - priv->tx_tail) == priv->tx_max`, the check after a frame is written.
pub stop_when_full : Step (Unit {0})
stop_when_full = do
  p ← get_priv
  if sub32 p.tx_head p.tx_tail == p.tx_max then emit Event.netif_stop_queue else pure tt

module _ (k : Kernel) where
  -- The part of xcan_start_xmit behind its two early returns. A `tx_max` of 0, a division by
  -- zero in C, is ruled out where it matters.
  pub send_frame : CanFrame → Step NetdevTx
  unfolding write_frame stop_when_full
  send_frame cf = do
    p ← get_priv
    emit (Event.put_echo_skb cf (p.tx_head % p.tx_max))
    modify_priv λ q. record q { tx_head = inc q.tx_head }
    write_frame cf (tx_words k cf)
    stop_when_full
    pure tx_ok

  pub xcan_start_xmit : CanFrame → Step NetdevTx
  unfolding send_frame
  xcan_start_xmit cf w =
      if k.can_dropped_invalid_skb w.history cf
      then (tx_ok, w)
      else (do
        status ← read_reg k sr
        if has status sr_txfll_mask
            then (do emit Event.netif_stop_queue; pure tx_busy)
            else send_frame cf)
          w

  -- One round of the loop of xcan_tx_interrupt, with the next value of `isr`.
  pub complete_frame : Step ℕ
  complete_frame = do
    write_reg icr ixr_txok_mask
    p ← get_priv
    emit (Event.get_echo_skb (p.tx_tail % p.tx_max))
    modify_priv λ q. record q { tx_tail = inc q.tx_tail }
    modify_stats λ s. record s { tx_packets = inc s.tx_packets }
    read_reg k isr

  -- `while ((priv->tx_head - priv->tx_tail > 0) && (isr & XCAN_IXR_TXOK_MASK))`, on fuel.
  pub tx_loop : ℕ → ℕ → Step (Unit {0})
  tx_loop zero isr_value w = (tt, w)
  tx_loop (suc fuel) isr_value w =
      let next = complete_frame w in
      let rest = tx_loop fuel next.0 next.1 in
      if ltb 0 (sub32 w.priv.tx_head w.priv.tx_tail) && has isr_value ixr_txok_mask
      then rest
      else (tt, w)

  -- A round takes one frame, so the frames in flight are fuel enough.
  pub xcan_tx_interrupt : ℕ → Step (Unit {0})
  unfolding tx_loop complete_frame
  xcan_tx_interrupt isr_value = do
    p ← get_priv
    tx_loop (sub32 p.tx_head p.tx_tail) isr_value
    emit (Event.led led_tx)
    emit Event.netif_wake_queue
