-- ===== src/Transmit/Latch.antt =====
-- TXOK as the core sets it, and what xcan_tx_interrupt makes of it: the bit says that some frame
-- was sent, not how many.
pub mod Tests
use zynq_can_sja1000_top.Common.{
  ℕ, zero, suc, ◌+◌, ◌-◌, ◌%◌, ◌<◌, u32, ltb, has, ◌&&◌, if◌then◌else◌, ◌≡◌, refl, ap, ◌∙◌, arith,
  true, false, [], ◌∷◌,
}
use zynq_can_sja1000_top.Registers.{Reg, ixr_txok_mask, icr, isr}
use zynq_can_sja1000_top.Kernel.{Kernel, Event, History, ByteOrder}
use zynq_can_sja1000_top.Driver.{World}
use zynq_can_sja1000_top.Transmit.{xcan_tx_interrupt, tx_loop, complete_frame}
use zynq_can_sja1000_top.Transmit.Completion.{in_flight, AreWords}

-- How many frames the core had sent when TXOK was last cleared.
abbrev pub at_clear : (History → ℕ) → History → ℕ
at_clear sent [] = 0
at_clear sent (Event.iowrite o Reg.icr x ∷ h) =
    let before = at_clear sent h in if has x ixr_txok_mask then sent h else before
at_clear sent (_ ∷ h) = at_clear sent h

-- `sent h` frames were sent when `h` had happened; the bit TXOK is set from the first one that is
-- sent after it was cleared until it is cleared again.
pub record IsLatch (k : Kernel) (sent : History → ℕ) : Type 0 where
  pub txok :
      (h : History) (o : ByteOrder)
      → has (u32 (k.read32 h o Reg.isr)) ixr_txok_mask ≡ ltb (at_clear sent h) (sent h)

module _ (k : Kernel) (sent : History → ℕ) (latch : IsLatch k sent) where
  complete_frame-quiet :
      (w : World)
      → ((e f : Event) → sent (e ∷ f ∷ w.history) ≡ sent w.history)
      → has (complete_frame k w).0 ixr_txok_mask ≡ false
  unfolding complete_frame
  complete_frame-quiet w quiet =
      let o = w.priv.byte_order in
      let h =
        Event.get_echo_skb (w.priv.tx_tail % w.priv.tx_max) ∷ Event.iowrite o icr 2 ∷ w.history in
      let read = latch.txok h o in
      let q = quiet (Event.get_echo_skb (w.priv.tx_tail % w.priv.tx_max)) (Event.iowrite o icr 2) in
      ground arith

  tx_loop-stop :
      (fuel isr_value : ℕ) (w : World)
      → has isr_value ixr_txok_mask ≡ false
      → (tx_loop k fuel isr_value w).1 ≡ w
  unfolding tx_loop
  tx_loop-stop zero isr_value w e = refl
  tx_loop-stop (suc fuel) isr_value w e = ground arith

  one_round :
      (n isr_value : ℕ) (w : World)
      → 0 < in_flight w
      → has isr_value ixr_txok_mask ≡ true
      → ((e f : Event) → sent (e ∷ f ∷ w.history) ≡ sent w.history)
      → (tx_loop k (suc n) isr_value w).1 ≡ (complete_frame k w).1
  unfolding tx_loop
  one_round n isr_value w busy t quiet =
      let next = complete_frame k w in
      let go : (ltb 0 (in_flight w) && has isr_value ixr_txok_mask) ≡ true = ground arith in
      rw go (tx_loop-stop n next.0 next.1 (complete_frame-quiet w quiet))

  counted_one :
      (w : World)
      → AreWords w
      → 0 < in_flight w
      → let u = (complete_frame k w).1 in
        (in_flight u ≡ in_flight w - 1) × (u.stats.tx_packets ≡ u32 (w.stats.tx_packets + 1))
  unfolding complete_frame
  counted_one w a busy = (omega arith, refl)

  -- With TXOK as a latch, a frame in flight and TXOK in the status: when no frame is sent while
  -- xcan_tx_interrupt clears the bit and reads it again, it completes exactly one frame, however
  -- many the core had sent. With two sent before the interrupt one is left in flight, neither
  -- echoed nor counted.
  pub xcan_tx_interrupt-undercounts :
      (isr_value : ℕ) (w : World)
      → AreWords w
      → 0 < in_flight w
      → has isr_value ixr_txok_mask ≡ true
      → ((e f : Event) → sent (e ∷ f ∷ w.history) ≡ sent w.history)
      → let w' = (xcan_tx_interrupt k isr_value w).1 in
        (in_flight w' ≡ in_flight w - 1) × (w'.stats.tx_packets ≡ u32 (w.stats.tx_packets + 1))
  unfolding xcan_tx_interrupt
  xcan_tx_interrupt-undercounts isr_value w a busy t quiet =
      let some_flight : in_flight w ≡ suc (in_flight w - 1) = omega arith in
      let fuel = ap (λ n. (tx_loop k n isr_value w).1) some_flight in
      let e = fuel ∙ one_round (in_flight w - 1) isr_value w busy t quiet in
      rw e (counted_one w a busy)
