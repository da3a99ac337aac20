-- ===== src/Interrupt/Account.antt =====
-- xcan_interrupt and the frames in the transmit ring.
use zynq_can_sja1000_top.Common.{inl, inr, ◌∙◌}
use zynq_can_sja1000_top.Kernel.{Kernel}
use zynq_can_sja1000_top.Driver.{World}
use zynq_can_sja1000_top.Transmit.Echo.Account.{IsAccounted, xcan_tx_interrupt-IsAccounted}
use zynq_can_sja1000_top.Transmit.Echo.Same.{SameRing-IsAccounted}
use zynq_can_sja1000_top.ErrorFrame.Ring.{Undisturbed}
use zynq_can_sja1000_top.Interrupt.Ring.{xcan_interrupt-Along}
use zynq_can_sja1000_top.Interrupt.{xcan_interrupt}

pub Undisturbed-IsAccounted : {w w' : World} → Undisturbed w w' → IsAccounted w → IsAccounted w'
Undisturbed-IsAccounted s a =
    SameRing-IsAccounted
      (record { head = s.head; tail = s.tail; max = s.max; packets = s.packets; echoes = s.echoes })
      (elim a.controlled.room [ inl e ↦ inl (s.awake ∙ e) | inr h ↦ inr h ]) a

pub xcan_interrupt-IsAccounted :
    (k : Kernel) (w : World) → IsAccounted w → IsAccounted (xcan_interrupt k w).1
xcan_interrupt-IsAccounted k =
    xcan_interrupt-Along k (λ w u. IsAccounted w → IsAccounted u)
      (record {
        alone = Undisturbed-IsAccounted;
        trans = λ s t a. t (s a);
        tx = xcan_tx_interrupt-IsAccounted k;
      })
