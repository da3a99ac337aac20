-- ===== src/Receive/Statistics.antt =====
-- Reception and the counters of the network device.
use zynq_can_sja1000_top.Common.{ℕ, arith, Option-cases, inl, inr, true}
use zynq_can_sja1000_top.Can.{CanFrame}
use zynq_can_sja1000_top.Kernel.{Kernel, Event}
use zynq_can_sja1000_top.Driver.{World, emit}
use zynq_can_sja1000_top.Driver.Run.{Ensures}
use zynq_can_sja1000_top.Driver.Statistics.{IsCounted, Counts}
use zynq_can_sja1000_top.Timestamp.State.{history-timestamp, stats-timestamp}
use zynq_can_sja1000_top.Receive.Stable.{IsPollStable, xcan_rx_poll-Stable}
use zynq_can_sja1000_top.Receive.{receive_into, xcan_rx, poll_end, xcan_rx_poll}

module _ (k : Kernel) where
  receive_into-IsCounted :
      (empty : CanFrame) (w : World) → IsCounted w → IsCounted (receive_into k empty w).1
  unfolding receive_into
  receive_into-IsCounted empty w c = record {
    rx_packets = rw (stats-timestamp, history-timestamp) (ground arith);
    rx_bytes = rw (stats-timestamp, history-timestamp) (ground arith);
    tx_packets = rw (stats-timestamp, history-timestamp) (c.tx_packets);
    tx_bytes = rw (stats-timestamp, history-timestamp) (c.tx_bytes);
  }

  xcan_rx-IsCounted : (w : World) → IsCounted w → IsCounted (xcan_rx k w).1
  unfolding xcan_rx
  xcan_rx-IsCounted w c =
      let u = (emit (Event.alloc_skb true) w).1 in
      elim (Option-cases (k.alloc_can_skb w.history)) [
        | inl e ↦ rw (e, xcan_rx) (ground arith)
        | inr (empty, e) ↦
            let alloc : IsCounted u = ground arith in
            rw (e, xcan_rx) (receive_into-IsCounted empty u alloc)
      ]

  Counts-IsPollStable : IsPollStable k Counts
  unfolding poll_end
  Counts-IsPollStable = record {
    same = λ w c. c;
    trans = λ s t c. t (s c);
    status = λ w c. ground arith;
    clear = λ x w c. ground arith;
    rx = xcan_rx-IsCounted;
    finish = λ quota work w c. ground arith;
  }

  pub xcan_rx_poll-Counts :
      (fuel quota : ℕ) (w : World) → Ensures (λ n w'. Counts w w') (xcan_rx_poll k fuel quota w)
  xcan_rx_poll-Counts = xcan_rx_poll-Stable k Counts Counts-IsPollStable
