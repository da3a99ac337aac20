-- ===== src/Runtime/Account.antt =====
-- The frames of a running device, over any sequence of transmissions while the queue
-- is awake, interrupts and polls.
use zynq_can_sja1000_top.Kernel.{Kernel}
use zynq_can_sja1000_top.Driver.{World}
use zynq_can_sja1000_top.Driver.Run.{Ensures-some}
use zynq_can_sja1000_top.ErrorFrame.Ring.{Undisturbed}
use zynq_can_sja1000_top.Transmit.Echo.Account.{IsAccounted, xcan_start_xmit-IsAccounted}
use zynq_can_sja1000_top.Receive.Ring.{Undisturbed-xcan_rx_poll}
use zynq_can_sja1000_top.Interrupt.Account.{Undisturbed-IsAccounted, xcan_interrupt-IsAccounted}
use zynq_can_sja1000_top.Runtime.{Step, Reach, xmit, irq, poll, here, next}

module _ (k : Kernel) where
  pub Step-IsAccounted : {u v : World} → Step k u v → IsAccounted u → IsAccounted v
  Step-IsAccounted (xmit cf w awake) a = xcan_start_xmit-IsAccounted k cf w awake a
  Step-IsAccounted (irq w) a = xcan_interrupt-IsAccounted k w a
  Step-IsAccounted (poll fuel quota {w} e) a =
      Undisturbed-IsAccounted
        (Ensures-some (λ n w'. Undisturbed w w') (Undisturbed-xcan_rx_poll k fuel quota w) e) a

  -- However transmissions while the queue is awake, interrupts and polls that return follow one
  -- another: from a state in which `tx_max` divides 2 ^ 32, the ring is controlled, and the frames
  -- put into it so far are those echoed so far followed by those that it holds, they come to such
  -- a state. So each frame that xcan_start_xmit puts into the ring is echoed at most once, in the
  -- order of the transmissions, and until then it is in the ring: none is lost or confused with
  -- another, also when the counters wrap.
  pub Reach-IsAccounted : {w v : World} → Reach k w v → IsAccounted w → IsAccounted v
  Reach-IsAccounted here a = a
  Reach-IsAccounted (next r s) a = Step-IsAccounted s (Reach-IsAccounted r a)
