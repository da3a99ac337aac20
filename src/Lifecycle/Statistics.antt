-- ===== src/Lifecycle/Statistics.antt =====
-- The counters of the network device over the whole life of a device.
use zynq_can_sja1000_top.Common.{arith, ℤ}
use mathlib.Core.Path.{subst}
use zynq_can_sja1000_top.Kernel.{Kernel}
use zynq_can_sja1000_top.Driver.{World}
use zynq_can_sja1000_top.Driver.Run.{Ensures-some}
use zynq_can_sja1000_top.Driver.Statistics.{IsCounted}
use zynq_can_sja1000_top.Mode.Stable.{Along, do_set_mode-Stable}
use zynq_can_sja1000_top.Netdev.Statistics.{Counts-IsCallStable}
use zynq_can_sja1000_top.Mode.Statistics.{Counts-IsStable}
use zynq_can_sja1000_top.Driver.Statistics.{Counts}
use zynq_can_sja1000_top.Netdev.Stable.{open-Stable, close-Stable}
use zynq_can_sja1000_top.Netdev.Stable.Sleep.{
  suspend-Stable, resume-Stable, get_berr_counter-Stable,
}
use zynq_can_sja1000_top.Transmit.Statistics.{xcan_start_xmit-IsCounted}
use zynq_can_sja1000_top.Receive.Statistics.{xcan_rx_poll-Counts}
use zynq_can_sja1000_top.Interrupt.Statistics.{xcan_interrupt-IsCounted}
use zynq_can_sja1000_top.Probe.Statistics.{xcan_probe-IsCounted}
use zynq_can_sja1000_top.Runtime.{Step, xmit, irq, poll}
use zynq_can_sja1000_top.Lifecycle.{
  Phase, Life, start, probe, open_device, close, run, set_mode, count_errors, suspend, resume,
}

module _ (k : Kernel) where
  Step-IsCounted : {w u : World} → Step k w u → IsCounted w → IsCounted u
  Step-IsCounted (xmit cf w awake) c = xcan_start_xmit-IsCounted k cf w c
  Step-IsCounted (irq w) c = xcan_interrupt-IsCounted k w c
  Step-IsCounted (poll fuel quota {w} e) c =
      Ensures-some (λ n u. Counts w u) (xcan_rx_poll-Counts k fuel quota w) e c

  abbrev Counted : {A : Type 0} → World → A → World → Type 0
  Counted = Along k Counts (Counts-IsStable k)

  module _ {w0 : World} (counted : IsCounted w0) where
    -- Where the counters are right without a device, and the errors of the platform are errors:
    -- after any sequence of probes, openings, closings, transmissions while the queue is awake,
    -- interrupts, polls that return, changes of the mode, reads of the error counters, suspends of a
    -- device that is up and resumes whose CAN clock can be enabled, each in a phase that Life has it
    -- in, without a removal, rx_packets is the number of frames handed up, received ones and error frames, rx_bytes
    -- the sum of their lengths, tx_packets the number of frames taken out of the ring, and tx_bytes
    -- the sum of the lengths of the data frames put into it, each modulo 2 ^ 32.
    pub Life-IsCounted : {phase : Phase} {w : World} → Life k w0 phase w → IsCounted w
    Life-IsCounted start = counted
    Life-IsCounted (probe pf {w} ok l e) =
        subst (λ (x : ℤ × World). IsCounted x.1) e (xcan_probe-IsCounted k pf w (Life-IsCounted l))
    Life-IsCounted (open_device fuel {w} l e) =
        Ensures-some (Counted w) (open-Stable k Counts (Counts-IsCallStable k) fuel w) e
          (Life-IsCounted l)
    Life-IsCounted (close {w} l e) =
        Ensures-some (Counted w) (close-Stable k Counts (Counts-IsCallStable k) w) e
          (Life-IsCounted l)
    Life-IsCounted (run l s) = Step-IsCounted s (Life-IsCounted l)
    Life-IsCounted (set_mode fuel mode {w} l e) =
        Ensures-some (Counted w)
          (do_set_mode-Stable k Counts (Counts-IsStable k) (λ u c. ground arith) fuel mode w) e
          (Life-IsCounted l)
    Life-IsCounted (count_errors bec {phase} {w} l e) =
        Ensures-some (Counted w) (get_berr_counter-Stable k Counts (Counts-IsCallStable k) bec w) e
          (Life-IsCounted l)
    Life-IsCounted (suspend {w} l e) =
        Ensures-some (Counted w) (suspend-Stable k Counts (Counts-IsCallStable k) w) e
          (Life-IsCounted l)
    Life-IsCounted (resume {w} l can e) =
        Ensures-some (Counted w) (resume-Stable k Counts (Counts-IsCallStable k) w) e
          (Life-IsCounted l)
