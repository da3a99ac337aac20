-- ===== src/Transmit/Echo/Tests.antt =====
-- Two frames in flight in a ring of four, in slots 3 and 0.
use native.Mathlib.Nat.{dvd-mul_right}
use zynq_can_sja1000_top.Common.{ℕ, ◌^◌, arith, refl, List, [], ◌∷◌, inr}
use zynq_can_sja1000_top.Can.{CanFrame}
use zynq_can_sja1000_top.Kernel.{Event}
use zynq_can_sja1000_top.Driver.{World}
use zynq_can_sja1000_top.Demo.{demo, no_data, running}
use zynq_can_sja1000_top.Transmit.{xcan_tx_interrupt}
use zynq_can_sja1000_top.Transmit.Queue.{IsControlled}
use zynq_can_sja1000_top.Transmit.Echo.Held.{Holds}
use zynq_can_sja1000_top.Transmit.Echo.Refine.{Echoes, xcan_tx_interrupt-Echoes}

abbrev pub frame : ℕ → CanFrame
frame n = record no_data { can_id = n; can_dlc = 1 }

abbrev pub busy : World
busy = record running {
  history =
      Event.put_echo_skb (frame 2) 0
      ∷ Event.put_echo_skb (frame 1) 3
      ∷ Event.netif_start_queue
      ∷ [];
}

abbrev pub queue : List CanFrame
queue = frame 1 ∷ frame 2 ∷ []

pub busy-IsControlled : IsControlled busy
busy-IsControlled = record {
  words = record { head = omega arith; tail = omega arith; packets = omega arith };
  max_pos = omega arith;
  max_fits = omega arith;
  bounded = omega arith;
  room = inr (omega arith);
}

pub busy-Holds : Holds busy queue
busy-Holds = record { stored = (refl, (refl, tt)); others = λ s n. ground arith }

xcan_tx_interrupt-Echoes_example : Echoes 2 busy queue (xcan_tx_interrupt demo 2 busy).1
xcan_tx_interrupt-Echoes_example =
    xcan_tx_interrupt-Echoes demo 2 busy queue (dvd-mul_right 4 (2 ^ 30)) busy-IsControlled
      busy-Holds
