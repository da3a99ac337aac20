-- ===== src/Receive/Frames.antt =====
-- What xcan_rx reads, delivers and counts.
use zynq_can_sja1000_top.Common.{
  ℕ, suc, ◌+◌, u16, Option-cases, inl, inr, ◌≡◌, refl, arith, [], ◌∷◌, none, some, true, false,
}
use zynq_can_sja1000_top.Registers.{rxfifo_id, rxfifo_dlc, rxfifo_dw1, rxfifo_dw2}
use zynq_can_sja1000_top.Can.{CanFrame}
use zynq_can_sja1000_top.Kernel.{Kernel, Event, History}
use zynq_can_sja1000_top.Driver.{World, inc, add_to, read_reg}
use zynq_can_sja1000_top.Frame.{FifoWords, rx_frame}
use zynq_can_sja1000_top.Receive.{xcan_rx, receive_into}
use zynq_can_sja1000_top.Timestamp.{xcan_timestamp2ktime, xcan_get_timestamp}
use zynq_can_sja1000_top.Timestamp.State.{history-timestamp, stats-timestamp, byte_order-timestamp}

-- The frames handed to the network stack so far.
abbrev pub delivered : History → ℕ
delivered [] = 0
delivered (Event.netif_receive_skb cf t ∷ h) = suc (delivered h)
delivered (_ ∷ h) = delivered h

-- One frame taken from the FIFO: each of its registers is read once, DW1 and DW2 last, and what
-- they hold is delivered and counted. `time` is the frame's time stamp.
pub record Takes (k : Kernel) (empty : CanFrame) (w w' : World) : Type 0 where
  pub words : FifoWords
  pub time : ℕ
  pub events :
      let o = w.priv.byte_order in
      w'.history
      ≡ Event.netif_receive_skb (rx_frame k words empty) time
        ∷ Event.ioread o rxfifo_dw2 words.dw2
        ∷ Event.ioread o rxfifo_dw1 words.dw1
        ∷ Event.ioread o rxfifo_dlc words.dlc
        ∷ Event.ioread o rxfifo_id words.id
        ∷ Event.alloc_skb true
        ∷ w.history
  pub stats : w'.stats ≡ record w.stats {
    rx_packets = inc w.stats.rx_packets;
    rx_bytes = add_to (rx_frame k words empty).can_dlc w.stats.rx_bytes;
  }

module _ (k : Kernel) where
  receive_into-Takes :
      (w w' : World) (empty : CanFrame)
      → w' ≡ record w { history = Event.alloc_skb true ∷ w.history }
      → ((receive_into k empty w').0 ≡ 1) × Takes k empty w (receive_into k empty w').1
  unfolding receive_into
  receive_into-Takes w w' empty e =
      let id = read_reg k rxfifo_id w' in
      let dlc = read_reg k rxfifo_dlc id.1 in
      let ts = u16 (k.le32_to_cpu (xcan_get_timestamp dlc.0)) in
      let time = xcan_timestamp2ktime k ts dlc.1 in
      let dw1 = read_reg k rxfifo_dw1 time.1 in
      let dw2 = read_reg k rxfifo_dw2 dw1.1 in
      (
        refl,
        record {
          words = record { id = id.0; dlc = dlc.0; dw1 = dw1.0; dw2 = dw2.0 };
          time = time.0.ktime;
          events = rw (history-timestamp, byte_order-timestamp, e) refl;
          stats = rw (stats-timestamp, e) refl;
        },
      )

  delivered-receive_into :
      (w : World) (empty : CanFrame)
      → ((receive_into k empty w).0 ≡ 1)
        × (delivered (receive_into k empty w).1.history ≡ suc (delivered w.history))
  unfolding receive_into
  delivered-receive_into w empty = (refl, rw history-timestamp refl)

  -- When alloc_can_skb gives a buffer, xcan_rx returns 1: it has read ID, DLC, DW1 and DW2 once
  -- each in this order, handed up the frame that they hold, and counted it and its length.
  pub xcan_rx-Takes :
      (w : World) (empty : CanFrame)
      → k.alloc_can_skb w.history ≡ some empty
      → ((xcan_rx k w).0 ≡ 1) × Takes k empty w (xcan_rx k w).1
  unfolding xcan_rx
  xcan_rx-Takes w empty e = rw (e, xcan_rx) (receive_into-Takes w _ empty refl)

  -- With none it returns 0, touches no register and counts the dropped frame, which stays in the
  -- FIFO.
  pub xcan_rx-dropped :
      (w : World)
      → k.alloc_can_skb w.history ≡ none
      → xcan_rx k w ≡ (
        0,
        record w {
          history = Event.alloc_skb false ∷ w.history;
          stats = record w.stats { rx_dropped = inc w.stats.rx_dropped };
        },
      )
  unfolding xcan_rx
  xcan_rx-dropped w e = rw (e, xcan_rx)

  pub delivered-xcan_rx :
      (w : World) → delivered (xcan_rx k w).1.history ≡ delivered w.history + (xcan_rx k w).0
  unfolding xcan_rx
  delivered-xcan_rx w = elim (Option-cases (k.alloc_can_skb w.history)) [
    | inl e ↦ rw (e, xcan_rx) (omega arith)
    | inr (empty, e) ↦
        rw (e, xcan_rx)
          (omega (
            arith,
            delivered-receive_into (record w { history = Event.alloc_skb true ∷ w.history }) empty,
          ))
  ]
