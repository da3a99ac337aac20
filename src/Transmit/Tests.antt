-- ===== src/Transmit/Tests.antt =====
-- A ring of four echo slots with two frames in flight, and one of three as the counters wrap.
use zynq_can_sja1000_top.Common.{true, false, ◌/◌, ◌%◌, ◌≡◌, ◌⊎◌, ◌^◌, ◌<◌, refl, inr, arith, ◌∷◌}
use zynq_can_sja1000_top.Kernel.{Event, led_tx}
use zynq_can_sja1000_top.Driver.{World, read_reg}
use zynq_can_sja1000_top.Demo.{demo, no_data, running}
use zynq_can_sja1000_top.Transmit.{xcan_start_xmit, xcan_tx_interrupt}
use zynq_can_sja1000_top.Can.{tx_ok, tx_busy}
use zynq_can_sja1000_top.Registers.{sr}
use zynq_can_sja1000_top.Transmit.Branches.{IsSent, xcan_start_xmit-branches}
use zynq_can_sja1000_top.Transmit.Ring.{NotIn}
use zynq_can_sja1000_top.Transmit.Completion.{
  AreWords, Completes, in_flight, xcan_tx_interrupt-Completes,
}
use zynq_can_sja1000_top.Transmit.Queue.{IsControlled}
use zynq_can_sja1000_top.Transmit.Slots.{used_slots, next_slot, put_slots, slot_collision}

pub running-AreWords : AreWords running
running-AreWords = record { head = omega arith; tail = omega arith; packets = omega arith }

pub running-IsControlled : IsControlled running
running-IsControlled = record {
  words = running-AreWords;
  max_pos = omega arith;
  max_fits = omega arith;
  bounded = omega arith;
  room = inr (omega arith);
}

xcan_tx_interrupt-Completes_example :
    (w' : World) × Completes 2 running w'
    × (xcan_tx_interrupt demo 2 running
        ≡ (tt, record w' { history = Event.netif_wake_queue ∷ Event.led led_tx ∷ w'.history }))
xcan_tx_interrupt-Completes_example = xcan_tx_interrupt-Completes demo 2 running running-AreWords

-- 2 ^ 32 % 3 is 1: one frame is in flight.
abbrev wrapped : World
wrapped = record running {
  priv = record running.priv { tx_max = 3; tx_head = 0; tx_tail = 0xffffffff };
}

slot_collision_example :
    (in_flight wrapped < 3)
    × (put_slots (xcan_start_xmit demo no_data wrapped).1.history
        ≡ next_slot wrapped ∷ put_slots wrapped.history)
    × ¬ NotIn (next_slot wrapped) (used_slots wrapped)
slot_collision_example =
    slot_collision demo no_data wrapped (omega arith) (omega arith) (omega arith) refl refl refl
      refl

xcan_start_xmit-branches_example :
    let r = xcan_start_xmit demo no_data running in
    let status = read_reg demo sr running in
    let full = status.0 / 2 ^ 10 % 2 in
    ((false ≡ true) × (r ≡ (tx_ok, running)))
    ⊎ ((false ≡ false)
        × (full ≡ 1)
        × (r ≡ (tx_busy, record running { history = Event.netif_stop_queue ∷ status.1.history })))
    ⊎ ((false ≡ false) × (full ≡ 0) × (r.0 ≡ tx_ok) × IsSent demo no_data running r.1)
xcan_start_xmit-branches_example = xcan_start_xmit-branches demo no_data running
