-- ===== src/ErrorFrame/Ring.antt =====
-- xcan_err_interrupt and the transmit ring.
use zynq_can_sja1000_top.Common.{ℕ, ◌≡◌, refl, ◌∙◌, arith}
use zynq_can_sja1000_top.Kernel.{Kernel}
use zynq_can_sja1000_top.Driver.{World}
use zynq_can_sja1000_top.Driver.Resources.{Keeps, Keeps-trans}
use zynq_can_sja1000_top.Mode.Stable.{IsStable}
use zynq_can_sja1000_top.Transmit.Queue.{queue_awake}
use zynq_can_sja1000_top.Transmit.Echo.{echo_calls}
use zynq_can_sja1000_top.ErrorFrame.{deliver_error, xcan_err_interrupt}
use zynq_can_sja1000_top.ErrorFrame.Stable.{IsErrorStable, err_interrupt-Stable}

-- The ring with its echo slots, the counter of sent frames, the queue, and the resources are as
-- they were.
pub record Undisturbed (w w' : World) : Type 0 where
  pub head : w'.priv.tx_head ≡ w.priv.tx_head
  pub tail : w'.priv.tx_tail ≡ w.priv.tx_tail
  pub max : w'.priv.tx_max ≡ w.priv.tx_max
  pub packets : w'.stats.tx_packets ≡ w.stats.tx_packets
  pub awake : queue_awake w'.history ≡ queue_awake w.history
  pub echoes : echo_calls w'.history ≡ echo_calls w.history
  pub keeps : Keeps w w'

pub Undisturbed-trans : {u v w : World} → Undisturbed u v → Undisturbed v w → Undisturbed u w
Undisturbed-trans s t = record {
  head = t.head ∙ s.head;
  tail = t.tail ∙ s.tail;
  max = t.max ∙ s.max;
  packets = t.packets ∙ s.packets;
  awake = t.awake ∙ s.awake;
  echoes = t.echoes ∙ s.echoes;
  keeps = Keeps-trans s.keeps t.keeps;
}

pub Undisturbed-refl : (w : World) → Undisturbed w w
Undisturbed-refl w = record {
  head = refl;
  tail = refl;
  max = refl;
  packets = refl;
  awake = refl;
  echoes = refl;
  keeps = record { resources = refl; clocks = λ on. refl };
}

module _ (k : Kernel) where
  Undisturbed-IsStable : IsStable k Undisturbed
  Undisturbed-IsStable = record {
    same = Undisturbed-refl;
    trans = Undisturbed-trans;
    read = λ r w. ground arith;
    write = λ r x w. ground arith;
    sleep = λ w. ground arith;
    state = λ s w. ground arith;
  }

  Undisturbed-IsErrorStable : IsErrorStable k Undisturbed
  unfolding deliver_error
  Undisturbed-IsErrorStable = record {
    start = Undisturbed-IsStable;
    can_stats = λ c w. ground arith;
    tx_counted = λ w. ground arith;
    rx_counted = λ w. ground arith;
    over_counted = λ w. ground arith;
    call = λ e w h. ground arith;
    deliver = λ cf w. ground arith;
  }

  pub Undisturbed-err_interrupt :
      (isr_value : ℕ) (w : World) → Undisturbed w (xcan_err_interrupt k isr_value w).1
  Undisturbed-err_interrupt = err_interrupt-Stable k Undisturbed Undisturbed-IsErrorStable
