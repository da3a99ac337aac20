-- ===== src/Transmit/Race/Tests.antt =====
-- A frame that fills a ring of four, and an interrupt that completes all four.
use zynq_can_sja1000_top.Common.{ℕ, ◌+◌, ◌≡◌, refl, arith, false, ltb, if◌then◌else◌, [], ◌∷◌, inr}
use zynq_can_sja1000_top.Registers.{Reg}
use zynq_can_sja1000_top.Kernel.{Kernel, Event, History}
use zynq_can_sja1000_top.Driver.{World}
use zynq_can_sja1000_top.Demo.{demo, demo_priv, no_data, running}
use zynq_can_sja1000_top.Interrupt.{
  handle_sleep, handle_tx, handle_error, handle_rx, handle, xcan_interrupt,
}
use zynq_can_sja1000_top.Transmit.{write_frame, tx_loop, complete_frame, xcan_tx_interrupt}
use zynq_can_sja1000_top.Transmit.Completion.{in_flight}
use zynq_can_sja1000_top.Transmit.Queue.{IsControlled, queue_awake}
use zynq_can_sja1000_top.Transmit.Race.{
  ring_full, stop_if, send_until_test, interrupted_send, Idle, here, irq, interrupted_send-stalls,
}

abbrev completed : History → ℕ
completed [] = 0
completed (Event.get_echo_skb s ∷ h) = completed h + 1
completed (_ ∷ h) = completed h

-- TXOK until all four are completed.
abbrev sending_registers : History → Reg → ℕ
sending_registers h Reg.isr = if ltb (completed h) 4 then 2 else 0
sending_registers h _ = 0

abbrev sending : Kernel
sending = record demo { read32 = λ h o r. sending_registers h r }

abbrev one_place : World
one_place = record running { priv = record demo_priv { tx_head = 6 } }

one_place-IsControlled : IsControlled one_place
one_place-IsControlled = record {
  words = record { head = omega arith; tail = omega arith; packets = omega arith };
  max_pos = omega arith;
  max_fits = omega arith;
  bounded = omega arith;
  room = inr (omega arith);
}

all_done : in_flight (xcan_interrupt sending (send_until_test sending no_data one_place).1).1 ≡ 0
unfolding xcan_interrupt handle handle_sleep handle_tx handle_error handle_rx xcan_tx_interrupt
    tx_loop complete_frame send_until_test ring_full write_frame
all_done = refl

abbrev stuck : World
stuck = (interrupted_send sending no_data one_place).1

-- One more interrupt, with nothing in its status.
stuck-Idle : Idle sending stuck (xcan_interrupt sending stuck).1
unfolding xcan_interrupt handle handle_sleep handle_tx handle_error handle_rx xcan_tx_interrupt
    tx_loop complete_frame send_until_test ring_full write_frame interrupted_send stop_if
stuck-Idle = irq here refl

interrupted_send-stalls_example :
    (queue_awake (xcan_interrupt sending stuck).1.history ≡ false)
    × (in_flight (xcan_interrupt sending stuck).1 ≡ 0)
interrupted_send-stalls_example =
    interrupted_send-stalls sending no_data one_place (xcan_interrupt sending stuck).1
      one_place-IsControlled (omega arith) all_done stuck-Idle
