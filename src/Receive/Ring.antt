-- ===== src/Receive/Ring.antt =====
-- Reception and the transmit ring.
use zynq_can_sja1000_top.Common.{ℕ, refl, arith, Option-cases, inl, inr, true}
use zynq_can_sja1000_top.Can.{CanFrame}
use zynq_can_sja1000_top.Kernel.{Kernel, Event}
use zynq_can_sja1000_top.Driver.{World, emit}
use zynq_can_sja1000_top.Driver.Run.{Ensures}
use zynq_can_sja1000_top.Timestamp.State.{
  history-timestamp, stats-timestamp, head-timestamp, tail-timestamp, max-timestamp,
}
use zynq_can_sja1000_top.ErrorFrame.Ring.{Undisturbed, Undisturbed-refl, Undisturbed-trans}
use zynq_can_sja1000_top.Receive.Stable.{IsPollStable, xcan_rx_poll-Stable}
use zynq_can_sja1000_top.Receive.{receive_into, xcan_rx, poll_end, xcan_rx_poll}

module _ (k : Kernel) where
  Undisturbed-receive_into :
      (empty : CanFrame) (w : World) → Undisturbed w (receive_into k empty w).1
  unfolding receive_into
  Undisturbed-receive_into empty w = record {
    head = rw head-timestamp refl;
    tail = rw tail-timestamp refl;
    max = rw max-timestamp refl;
    packets = rw stats-timestamp refl;
    awake = rw history-timestamp refl;
    echoes = rw history-timestamp refl;
    keeps = rw history-timestamp (ground arith);
  }

  Undisturbed-xcan_rx : (w : World) → Undisturbed w (xcan_rx k w).1
  unfolding xcan_rx
  Undisturbed-xcan_rx w =
      let u = (emit (Event.alloc_skb true) w).1 in
      elim (Option-cases (k.alloc_can_skb w.history)) [
        | inl e ↦ rw (e, xcan_rx) (ground arith)
        | inr (empty, e) ↦
            let alloc : Undisturbed w u = ground arith in
            rw (e, xcan_rx) (Undisturbed-trans alloc (Undisturbed-receive_into empty u))
      ]

  Undisturbed-IsPollStable : IsPollStable k Undisturbed
  unfolding poll_end
  Undisturbed-IsPollStable = record {
    same = Undisturbed-refl;
    trans = Undisturbed-trans;
    status = λ w. ground arith;
    clear = λ x w. ground arith;
    rx = Undisturbed-xcan_rx;
    finish = λ quota work w. ground arith;
  }

  pub Undisturbed-xcan_rx_poll :
      (fuel quota : ℕ) (w : World)
      → Ensures (λ n w'. Undisturbed w w') (xcan_rx_poll k fuel quota w)
  Undisturbed-xcan_rx_poll = xcan_rx_poll-Stable k Undisturbed Undisturbed-IsPollStable
