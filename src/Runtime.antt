-- ===== src/Runtime.antt =====
-- The running device: the kernel's calls of xcan_start_xmit, xcan_interrupt and xcan_rx_poll of
-- petalinux/components/modules/xilinx_can/xilinx_can.c in any order.
pub mod Account
pub mod Keeps
pub mod Tests
use zynq_can_sja1000_top.Common.{ℕ, ◌≡◌, some, true}
use zynq_can_sja1000_top.Can.{CanFrame}
use zynq_can_sja1000_top.Kernel.{Kernel}
use zynq_can_sja1000_top.Driver.{World}
use zynq_can_sja1000_top.Driver.Run.{Ensures-some}
use zynq_can_sja1000_top.ErrorFrame.Ring.{Undisturbed}
use zynq_can_sja1000_top.Transmit.{xcan_start_xmit}
use zynq_can_sja1000_top.Transmit.Queue.{IsControlled, queue_awake, xcan_start_xmit-IsControlled}
use zynq_can_sja1000_top.Receive.{xcan_rx_poll}
use zynq_can_sja1000_top.Receive.Ring.{Undisturbed-xcan_rx_poll}
use zynq_can_sja1000_top.Interrupt.{xcan_interrupt}
use zynq_can_sja1000_top.Interrupt.Ring.{Undisturbed-IsControlled, xcan_interrupt-IsControlled}

module _ (k : Kernel) where
  -- One call. The kernel hands a frame over only while the queue is awake, and its calls do not
  -- overlap; a poll is a call that has returned.
  pub data Step : World → World → Type 0 where
    xmit :
        (cf : CanFrame) (w : World)
        → queue_awake w.history ≡ true
        → Step w (xcan_start_xmit k cf w).1
    irq : (w : World) → Step w (xcan_interrupt k w).1
    poll :
        (fuel quota : ℕ) {w w' : World} {n : ℕ}
        → xcan_rx_poll k fuel quota w ≡ some (n, w')
        → Step w w'

  pub data Reach (w : World) : World → Type 0 where
    here : Reach w w
    next : {u v : World} → Reach w u → Step u v → Reach w v

  Step-IsControlled : {u v : World} → Step u v → IsControlled u → IsControlled v
  Step-IsControlled (xmit cf w awake) c = xcan_start_xmit-IsControlled k cf w awake c
  Step-IsControlled (irq w) c = xcan_interrupt-IsControlled k w c
  Step-IsControlled (poll fuel quota {w} e) c =
      Undisturbed-IsControlled
        (Ensures-some (λ n w'. Undisturbed w w') (Undisturbed-xcan_rx_poll k fuel quota w) e) c

  -- However transmissions while the queue is awake, interrupts and polls that return follow one
  -- another: if the counters are 32-bit words, `tx_max` is positive and fits 32 bits, at most
  -- `tx_max` frames are in flight, and fewer in case the queue is awake, then all this holds
  -- afterwards. So the ring never overflows.
  pub Reach-IsControlled : {w v : World} → Reach w v → IsControlled w → IsControlled v
  Reach-IsControlled here c = c
  Reach-IsControlled (next r s) c = Step-IsControlled s (Reach-IsControlled r c)
