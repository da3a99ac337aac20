-- ===== src/Receive/Fifo/Moves.antt =====
-- What xcan_rx and a round of xcan_rx_poll move out of the receive FIFO.
use zynq_can_sja1000_top.Common.{
  ℕ, zero, suc, ◌+◌, ◌≤◌, ◌<◌, u16, ◌≡◌, refl, ap, sym, ◌∙◌, arith, [], ◌∷◌, ◌++◌,
}
use zynq_can_sja1000_top.Common.{none, some, true, inl, inr, ◌⊎◌, has, ltb}
use mathlib.Core.List.{append_assoc, append-nil}
use zynq_can_sja1000_top.Registers.{Reg, isr, icr, ixr_rxnemp_mask, ixr_rxok_mask}
use zynq_can_sja1000_top.Can.{CanFrame}
use zynq_can_sja1000_top.Kernel.{Kernel, Event, History}
use zynq_can_sja1000_top.Driver.{World, emit, read_reg, write_reg}
use zynq_can_sja1000_top.Frame.{FifoWords, rx_frame}
use zynq_can_sja1000_top.Receive.{receive_into, xcan_rx, poll_round}
use zynq_can_sja1000_top.Receive.Frames.{xcan_rx-dropped}
use zynq_can_sja1000_top.Timestamp.{xcan_timestamp2ktime, xcan_get_timestamp}
use zynq_can_sja1000_top.Receive.Fifo.{
  popped, handed_up, before_status, unannounced, IsFifo, frames,
}
use zynq_can_sja1000_top.Receive.Fifo.Latch.{latched_lem}

frames_split :
    (k : Kernel) (empty : CanFrame) (words : ℕ → FifoWords) (i m n : ℕ)
    → frames k empty words i m ++ frames k empty words (i + m) n ≡ frames k empty words i (m + n)
frames_split k empty words i zero n =
    let e : i + 0 ≡ i = omega arith in let f : 0 + n ≡ n = omega arith in rw (e, f) refl
frames_split k empty words i (suc m) n =
    let e : i + suc m ≡ suc i + m = omega arith in
    let f : suc m + n ≡ suc (m + n) = omega arith in
    rw (e, f) (ap (λ fs. rx_frame k (words i) empty ∷ fs) (frames_split k empty words (suc i) m n))

module _ (k : Kernel) (empty : CanFrame) (words : ℕ → FifoWords) (arrived : History → ℕ)
    (fifo : IsFifo k words arrived) where
  -- From `w` to `w'` the next `n` frames of the FIFO were taken out and handed up.
  pub record Moves (w : World) (n : ℕ) (w' : World) : Type 0 where
    pub taken : popped w'.history ≡ popped w.history + n
    pub given :
        handed_up w'.history ≡ handed_up w.history ++ frames k empty words (popped w.history) n

  -- `isr_value` was read last, and since then nothing was taken out.
  pub record Shows (isr_value : ℕ) (w : World) : Type 0 where
    pub seen :
        has isr_value ixr_rxnemp_mask ≡ ltb (popped w.history) (arrived (before_status w.history))
    pub older : arrived (before_status w.history) ≤ arrived w.history
    pub quiet : unannounced w.history ≡ 0

  -- A read of the interrupt status, when nothing was taken out since RXNEMP was cleared.
  pub Shows-read :
      (w : World) → unannounced w.history ≡ 0 → let r = read_reg k isr w in Shows r.0 r.1
  Shows-read w z = record {
    seen = fifo.status w.history w.priv.byte_order ∙ latched_lem arrived fifo.grows w.history z;
    older = fifo.grows _ w.history;
    quiet = z;
  }

  later : {n : ℕ} (e : Event) (h : History) → n < arrived h → n < arrived (e ∷ h)
  later e h p = omega (arith, fifo.grows e h)

  receive_into-Moves :
      (w : World)
      → popped w.history < arrived w.history
      → Moves w (receive_into k empty w).0 (receive_into k empty w).1
  unfolding receive_into xcan_timestamp2ktime
  receive_into-Moves w h =
      let id = read_reg k Reg.rxfifo_id w in
      let dlc = read_reg k Reg.rxfifo_dlc id.1 in
      let ts = u16 (k.le32_to_cpu (xcan_get_timestamp dlc.0)) in
      let u = (xcan_timestamp2ktime k ts dlc.1).1 in
      let dw1 = read_reg k Reg.rxfifo_dw1 u in
      let o = w.priv.byte_order in
      let h1 = later (Event.ioread o Reg.rxfifo_id id.0) w.history h in
      let h2 = later (Event.ioread o Reg.rxfifo_dlc dlc.0) id.1.history h1 in
      let h3 = later (Event.ioread u.priv.byte_order Reg.rxfifo_dw1 dw1.0) u.history h2 in
      record {
        taken = omega arith;
        given =
            ap (λ ws. handed_up w.history ++ (rx_frame k ws empty ∷ []))
              (λ i. record {
                id = fifo.id w.history o h i;
                dlc = fifo.dlc id.1.history o h1 i;
                dw1 = fifo.dw1 dlc.1.history u.priv.byte_order h2 i;
                dw2 = fifo.dw2 dw1.1.history u.priv.byte_order h3 i;
              });
      }

  -- Without a buffer nothing is taken out.
  xcan_rx-Moves :
      (w : World)
      → (k.alloc_can_skb w.history ≡ none) ⊎ (k.alloc_can_skb w.history ≡ some empty)
      → popped w.history < arrived w.history
      → Moves w (xcan_rx k w).0 (xcan_rx k w).1
  unfolding xcan_rx
  xcan_rx-Moves w (inl e) h =
      rw (xcan_rx-dropped k w e) (record { taken = omega arith; given = sym (append-nil _) })
  xcan_rx-Moves w (inr e) h =
      let m =
        receive_into-Moves (emit (Event.alloc_skb true) w).1
          (later (Event.alloc_skb true) w.history h) in
      rw (e, xcan_rx) (record { taken = m.taken; given = m.given })

  -- One round of the loop.
  pub poll_round-Moves :
      (w : World)
      → ((h : History) → (k.alloc_can_skb h ≡ none) ⊎ (k.alloc_can_skb h ≡ some empty))
      → popped w.history < arrived w.history
      → let r = poll_round k w in Moves w r.0.0 r.1 × Shows r.0.1 r.1
  unfolding poll_round
  poll_round-Moves w alloc h =
      let w' = (write_reg icr ixr_rxok_mask w).1 in
      let m = xcan_rx-Moves w' (alloc w'.history) (later _ w.history h) in
      let u = (write_reg icr ixr_rxnemp_mask (xcan_rx k w').1).1 in
      (record { taken = m.taken; given = m.given }, Shows-read u refl)

  pub Moves-trans : {w u w' : World} {m n : ℕ} → Moves w m u → Moves u n w' → Moves w (m + n) w'
  Moves-trans {w} {u} {w'} {m} {n} a b = record {
    taken = omega (arith, a.taken, b.taken);
    given =
        rw (b.given, a.given, a.taken, append_assoc, frames_split k empty words (popped w.history))
          refl;
  }
