-- ===== src/Transmit/Queue.antt =====
-- Flow control between xcan_start_xmit and xcan_tx_interrupt: the kernel calls the first only
-- while the transmit queue is awake.
use zynq_can_sja1000_top.Common.{ℕ, ◌^◌, ◌≤◌, ◌<◌, has}
use zynq_can_sja1000_top.Common.{
  ◌≡◌, ◌⊎◌, inl, inr, ap, sym, ◌∙◌, arith, Bool, true, false, [], ◌∷◌,
}
use zynq_can_sja1000_top.Registers.{ixr_txok_mask}
use zynq_can_sja1000_top.Can.{CanFrame}
use zynq_can_sja1000_top.Kernel.{Kernel, Event, History, led_tx}
use zynq_can_sja1000_top.Driver.{World, Priv, Stats}
use zynq_can_sja1000_top.Transmit.{xcan_start_xmit, xcan_tx_interrupt}
use zynq_can_sja1000_top.Transmit.Completion.{
  AreWords, in_flight, Completes, xcan_tx_interrupt-Completes,
}
use mathlib.Core.Bool.{true≢false}

-- The last call on the queue decides; before the first it is stopped.
abbrev pub queue_awake : History → Bool
queue_awake [] = false
queue_awake (Event.netif_stop_queue ∷ h) = false
queue_awake (Event.netif_start_queue ∷ h) = true
queue_awake (Event.netif_wake_queue ∷ h) = true
queue_awake (_ ∷ h) = queue_awake h

-- At most `tx_max` frames are in flight, and fewer while the queue is awake.
pub record IsControlled (w : World) : Type 0 where
  pub words : AreWords w
  pub max_pos : 0 < w.priv.tx_max
  pub max_fits : w.priv.tx_max < 2 ^ 32
  pub bounded : in_flight w ≤ w.priv.tx_max
  pub room : (queue_awake w.history ≡ false) ⊎ (in_flight w < w.priv.tx_max)

module _ (k : Kernel) where
  pub xcan_start_xmit-IsControlled :
      (cf : CanFrame) (w : World)
      → queue_awake w.history ≡ true
      → IsControlled w
      → IsControlled (xcan_start_xmit k cf w).1
  unfolding xcan_start_xmit
  xcan_start_xmit-IsControlled cf w awake c = ground arith

  -- With TXOK in the status the ring has room when the loop stops: either it took a frame, or
  -- there was none.
  made_room :
      {isr_value last count left : ℕ} {P Q : Type 0}
      → has isr_value ixr_txok_mask ≡ true
      → ((count ≡ 0) × (last ≡ isr_value) × P) ⊎ ((0 < count) × Q)
      → (left ≡ 0) ⊎ (has last ixr_txok_mask ≡ false)
      → (left ≡ 0) ⊎ (0 < count)
  made_room t (inr q) s = inr q.0
  made_room t (inl p) (inl s) = inl s
  made_room t (inl p) (inr s) =
      absurd (true≢false (sym t ∙ ap (λ x. has x ixr_txok_mask) (sym p.1) ∙ s))

  Completes-IsControlled :
      {isr_value : ℕ} {w w' : World}
      → has isr_value ixr_txok_mask ≡ true
      → IsControlled w
      → Completes isr_value w w'
      → IsControlled
          (record w' { history = Event.netif_wake_queue ∷ Event.led led_tx ∷ w'.history })
  Completes-IsControlled {w} t c done =
      let room = made_room t done.status done.stopped in
      let tail = ap (λ (q : Priv). q.tx_tail) done.priv in
      let head = ap (λ (q : Priv). q.tx_head) done.priv in
      let max = ap (λ (q : Priv). q.tx_max) done.priv in
      let packets = ap (λ (q : Stats). q.tx_packets) done.stats in ground arith

  -- xcan_tx_interrupt keeps the ring controlled when it is called as xcan_interrupt calls it,
  -- with TXOK in the status: it may wake the queue, since there is room.
  pub xcan_tx_interrupt-IsControlled :
      (isr_value : ℕ) (w : World)
      → has isr_value ixr_txok_mask ≡ true
      → IsControlled w
      → IsControlled (xcan_tx_interrupt k isr_value w).1
  xcan_tx_interrupt-IsControlled isr_value w t c =
      let (w', done, e) = xcan_tx_interrupt-Completes k isr_value w c.words in
      rw e (Completes-IsControlled t c done)
