-- ===== src/Transmit/Branches.antt =====
-- The ways in which xcan_start_xmit ends, and the register writes of a sent frame.
use zynq_can_sja1000_top.Common.{
  ℕ, ◌+◌, ◌/◌, ◌%◌, ◌^◌, u32, has, ◌==◌, if◌then◌else◌, ◌≡◌, refl, arith, ◌⊎◌, inl, inr, List, [],
  ◌∷◌, true, false, Bool-cases, Bool,
}
use zynq_can_sja1000_top.Common.Bits.{has_digit}
use zynq_can_sja1000_top.Registers.{Reg, sr, txfifo_id, txfifo_dlc, txfifo_dw1, txfifo_dw2}
use zynq_can_sja1000_top.Can.{CanFrame, tx_ok, tx_busy}
use zynq_can_sja1000_top.Kernel.{Kernel, Event, History}
use zynq_can_sja1000_top.Driver.{World, read_reg}
use zynq_can_sja1000_top.Frame.{FifoWords, tx_words}
use zynq_can_sja1000_top.Transmit.{xcan_start_xmit}
use zynq_can_sja1000_top.Transmit.Completion.{in_flight}
use zynq_can_sja1000_top.Transmit.Queue.{queue_awake}

-- The registers written so far with their values, the newest first.
abbrev pub writes : History → List (Reg × ℕ)
writes [] = []
writes (Event.iowrite o r x ∷ h) = (r, x) ∷ writes h
writes (_ ∷ h) = writes h

-- A data frame takes all four registers of the FIFO, a remote frame only ID and DLC.
abbrev pub is_remote : CanFrame → Bool
is_remote cf = cf.can_id / 2 ^ 30 % 2 == 1

abbrev pub fifo_writes : CanFrame → FifoWords → List (Reg × ℕ) → List (Reg × ℕ)
fifo_writes cf f rest =
    let both = (txfifo_dlc, u32 f.dlc) ∷ (txfifo_id, u32 f.id) ∷ rest in
    if is_remote cf then both else (txfifo_dw2, u32 f.dw2) ∷ (txfifo_dw1, u32 f.dw1) ∷ both

-- The frame was put into the FIFO by these writes and no other, and is one more in flight; the
-- bytes of a data frame are counted; and the queue is stopped exactly if the ring became full.
pub record IsSent (k : Kernel) (cf : CanFrame) (w w' : World) : Type 0 where
  pub registers : writes w'.history ≡ fifo_writes cf (tx_words k cf) (writes w.history)
  pub priv : w'.priv ≡ record w.priv { tx_head = u32 (w.priv.tx_head + 1) }
  pub stats : w'.stats ≡ (
      if is_remote cf
      then w.stats
      else record w.stats { tx_bytes = u32 (w.stats.tx_bytes + cf.can_dlc) })
  pub queue :
      queue_awake w'.history
      ≡ (if in_flight w' == w.priv.tx_max then false else queue_awake w.history)

module _ (k : Kernel) where
  pub xcan_start_xmit-IsSent :
      (cf : CanFrame) (w : World)
      → k.can_dropped_invalid_skb w.history cf ≡ false
      → has (read_reg k sr w).0 (2 ^ 10) ≡ false
      → let r = xcan_start_xmit k cf w in (r.0 ≡ tx_ok) × IsSent k cf w r.1
  unfolding xcan_start_xmit
  xcan_start_xmit-IsSent cf w valid room = (
    ground arith,
    record {
      registers = ground (arith, has_digit 30 cf.can_id);
      priv = ground arith;
      stats = ground (arith, has_digit 30 cf.can_id);
      queue = ground arith;
    },
  )

  -- xcan_start_xmit ends in one of three ways. A frame that is dropped as invalid: NETDEV_TX_OK,
  -- and nothing else happened. With bit 10, FIFO full, in the status register: it stops the queue
  -- and returns NETDEV_TX_BUSY. Otherwise it returns NETDEV_TX_OK and the frame is sent: the words
  -- of its identifier and length are written in this order, for a data frame then both data words,
  -- and nothing else; `tx_head` goes on by one, the length of a data frame is counted, and the
  -- queue is stopped if `tx_max` frames are in flight now, and else left as it was.
  pub xcan_start_xmit-branches :
      (cf : CanFrame) (w : World)
      → let r = xcan_start_xmit k cf w in
        let dropped = k.can_dropped_invalid_skb w.history cf in
        let status = read_reg k sr w in
        let full = status.0 / 2 ^ 10 % 2 in
        ((dropped ≡ true) × (r ≡ (tx_ok, w)))
        ⊎ ((dropped ≡ false)
            × (full ≡ 1)
            × (r ≡ (tx_busy, record w { history = Event.netif_stop_queue ∷ status.1.history })))
        ⊎ ((dropped ≡ false) × (full ≡ 0) × (r.0 ≡ tx_ok) × IsSent k cf w r.1)
  unfolding xcan_start_xmit
  xcan_start_xmit-branches cf w =
      let status = (read_reg k sr w).0 in
      elim (Bool-cases (k.can_dropped_invalid_skb w.history cf)) [
        | inl d ↦ inl (d, rw (d, xcan_start_xmit) refl)
        | inr d ↦ elim (Bool-cases (has status (2 ^ 10))) [
          | inl f ↦
              inr (inl (d, ground (arith, has_digit 10 status), rw (d, f, xcan_start_xmit) refl))
          | inr f ↦
              let s = xcan_start_xmit-IsSent cf w d f in
              inr (inr (d, ground (arith, has_digit 10 status), s.0, s.1))
        ]
      ]
