-- ===== src/Transmit/Race.antt =====
-- An interrupt in the middle of xcan_start_xmit of
-- petalinux/components/modules/xilinx_can/xilinx_can.c, between its last test and the call of
-- netif_stop_queue under that test: nothing in the code keeps the two together.
pub mod Tests
use zynq_can_sja1000_top.Common.{
  ℕ, ◌+◌, ◌%◌, ◌≡◌, refl, ◌∙◌, arith, Bool, true, false, has, sub32, ◌==◌, if◌then◌else◌, some, ◌∷◌,
}
use zynq_can_sja1000_top.Registers.{isr, ixr_txok_mask}
use zynq_can_sja1000_top.Can.{CanFrame, NetdevTx, tx_ok}
use zynq_can_sja1000_top.Kernel.{Kernel, Event}
use zynq_can_sja1000_top.Driver.{
  World, Step, pure, ◌>>=◌, ◌>>◌, get_priv, modify_priv, emit, inc, read_reg,
}
use zynq_can_sja1000_top.Driver.Run.{Ensures-some}
use zynq_can_sja1000_top.Frame.{FifoWords, tx_words}
use zynq_can_sja1000_top.Transmit.{write_frame, stop_when_full, send_frame}
use zynq_can_sja1000_top.Transmit.Completion.{in_flight}
use zynq_can_sja1000_top.Transmit.Queue.{IsControlled, queue_awake}
use zynq_can_sja1000_top.Receive.{xcan_rx_poll}
use zynq_can_sja1000_top.Receive.Ring.{Undisturbed-xcan_rx_poll}
use zynq_can_sja1000_top.ErrorFrame.Ring.{Undisturbed, Undisturbed-refl, Undisturbed-trans}
use zynq_can_sja1000_top.Interrupt.{xcan_interrupt}
use zynq_can_sja1000_top.Interrupt.Ring.{xcan_interrupt-Undisturbed}

-- `(priv->tx_head - priv->tx_tail) == priv->tx_max`
pub ring_full : Step Bool
ring_full = do p ← get_priv; pure (sub32 p.tx_head p.tx_tail == p.tx_max)

-- What xcan_start_xmit does once the test has its value.
pub stop_if : Bool → Step NetdevTx
stop_if full = do if full then emit Event.netif_stop_queue else pure tt; pure tx_ok

write_frame-priv :
    (cf : CanFrame) (f : FifoWords) (w : World) → (write_frame cf f w).1.priv ≡ w.priv
unfolding write_frame
write_frame-priv cf f w = ground arith

module _ (k : Kernel) where
  -- send_frame up to the test and with it.
  pub send_until_test : CanFrame → Step Bool
  unfolding ring_full
  send_until_test cf = do
    p ← get_priv
    emit (Event.put_echo_skb cf (p.tx_head % p.tx_max))
    modify_priv λ q. record q { tx_head = inc q.tx_head }
    write_frame cf (tx_words k cf)
    ring_full

  -- The two parts are send_frame.
  send_frame-parts :
      (cf : CanFrame) (w : World)
      → send_frame k cf w ≡ (do full ← send_until_test cf; stop_if full) w
  unfolding send_frame send_until_test stop_when_full stop_if ring_full
  send_frame-parts cf w = ground arith

  -- The same with an interrupt between the parts.
  pub interrupted_send : CanFrame → Step NetdevTx
  unfolding send_until_test stop_if
  interrupted_send cf = do full ← send_until_test cf; handled ← xcan_interrupt k; stop_if full

  -- The frame that fills the ring.
  full_after :
      (cf : CanFrame) (w : World)
      → IsControlled w
      → in_flight w + 1 ≡ w.priv.tx_max
      → (send_until_test cf w).0 ≡ true
  unfolding send_until_test ring_full
  full_after cf w c last =
      let u : World = record w {
        priv = record w.priv { tx_head = inc w.priv.tx_head };
        history = Event.put_echo_skb cf (w.priv.tx_head % w.priv.tx_max) ∷ w.history;
      } in
      rw (write_frame-priv cf (tx_words k cf) u) (ground (arith, c.words, c.max_fits))

  -- Interrupts without TXOK and polls, in any order: what may happen while no frame is sent.
  pub data Idle (w : World) : World → Type 0 where
    here : Idle w w
    irq :
        {u : World}
        → Idle w u
        → has (read_reg k isr u).0 ixr_txok_mask ≡ false
        → Idle w (xcan_interrupt k u).1
    poll :
        (fuel quota : ℕ) {u v : World} {n : ℕ}
        → Idle w u
        → xcan_rx_poll k fuel quota u ≡ some (n, v)
        → Idle w v

  Idle-Undisturbed : {w v : World} → Idle w v → Undisturbed w v
  Idle-Undisturbed {w} here = Undisturbed-refl w
  Idle-Undisturbed (irq {u} i off) =
      Undisturbed-trans (Idle-Undisturbed i) (xcan_interrupt-Undisturbed k u off)
  Idle-Undisturbed (poll fuel quota {u} i e) =
      Undisturbed-trans (Idle-Undisturbed i)
        (Ensures-some (λ n v. Undisturbed u v) (Undisturbed-xcan_rx_poll k fuel quota u) e)

  stopped :
      (full : Bool) (w : World)
      → full ≡ true
      → let u = (stop_if full w).1 in (queue_awake u.history ≡ false) × (in_flight u ≡ in_flight w)
  unfolding stop_if
  stopped full w e = rw e (refl, refl)

  -- With the ring controlled and one place left in it: when an interrupt comes between the last test
  -- of xcan_start_xmit and its call of netif_stop_queue, and the interrupt completes all frames in
  -- flight, then the queue is stopped although no frame is in flight, and both stay so over any
  -- sequence of interrupts without TXOK and of polls that return.
  pub interrupted_send-stalls :
      (cf : CanFrame) (w v : World)
      → IsControlled w
      → in_flight w + 1 ≡ w.priv.tx_max
      → let u = (send_until_test cf w).1 in
        in_flight (xcan_interrupt k u).1 ≡ 0
        → Idle (interrupted_send cf w).1 v
        → (queue_awake v.history ≡ false) × (in_flight v ≡ 0)
  unfolding interrupted_send
  interrupted_send-stalls cf w v c last done idle =
      let s = Idle-Undisturbed idle in
      let (full, u) = send_until_test cf w in
      let (off, same) = stopped full (xcan_interrupt k u).1 (full_after cf w c last) in
      let head = s.head in
      let tail = s.tail in (s.awake ∙ off, omega (arith, head, tail, same, done))
