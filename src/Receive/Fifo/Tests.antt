-- ===== src/Receive/Fifo/Tests.antt =====
-- A core with three frames in its FIFO.
use zynq_can_sja1000_top.Common.{
  ℕ, ◌≡◌, refl, arith, some, none, inr, if◌then◌else◌, ◌%◌, ◌*◌, ◌^◌, true, false, Bool, has,
}
use zynq_can_sja1000_top.Registers.{Reg, ixr_rxnemp_mask}
use zynq_can_sja1000_top.Kernel.{Kernel, History}
use zynq_can_sja1000_top.Driver.{World}
use zynq_can_sja1000_top.Demo.{demo, no_data, running}
use zynq_can_sja1000_top.Frame.{FifoWords}
use zynq_can_sja1000_top.Receive.{
  xcan_rx, receive_into, poll_round, poll_loop, poll_end, xcan_rx_poll,
}
use zynq_can_sja1000_top.Receive.Fifo.{popped, latched, IsFifo}
use zynq_can_sja1000_top.Receive.Fifo.Drain.{Delivers, xcan_rx_poll-Delivers}
use zynq_can_sja1000_top.Timestamp.{xcan_timestamp2ktime}

abbrev frame_words : ℕ → FifoWords
frame_words i = record { id = i % 2 ^ 11 * 2 ^ 21; dlc = 0x20001234; dw1 = 0x0a0b0000; dw2 = 0 }

abbrev three : History → ℕ
three h = 3

abbrev fifo_registers : History → Reg → ℕ
fifo_registers h Reg.rxfifo_id = (frame_words (popped h)).id
fifo_registers h Reg.rxfifo_dlc = (frame_words (popped h)).dlc
fifo_registers h Reg.rxfifo_dw1 = (frame_words (popped h)).dw1
fifo_registers h Reg.isr = if latched three h then 0x80 else 0
fifo_registers h _ = 0

abbrev loaded : Kernel
loaded = record demo { read32 = λ h o r. fifo_registers h r }

rxnemp : (b : Bool) → has ((if b then 0x80 else 0) % 2 ^ 32) ixr_rxnemp_mask ≡ b
rxnemp true = refl
rxnemp false = refl

loaded-IsFifo : IsFifo loaded frame_words three
loaded-IsFifo = record {
  grows = λ e h. omega arith;
  id = λ h o p. omega arith;
  dlc = λ h o p. refl;
  dw1 = λ h o p. refl;
  dw2 = λ h o p. refl;
  status = λ h o. rxnemp (latched three h);
}

-- What a poll with a budget of 2 leaves behind.
abbrev drained : ℕ × World
drained = elim (xcan_rx_poll loaded 3 2 running) [ none ↦ (0, running) | some r ↦ r ]

drained_lem : xcan_rx_poll loaded 3 2 running ≡ some drained
unfolding xcan_rx_poll poll_loop poll_round poll_end xcan_rx receive_into xcan_timestamp2ktime
drained_lem = refl

xcan_rx_poll-Delivers_example :
    Delivers loaded no_data frame_words three loaded-IsFifo 2 running drained.0 drained.1
xcan_rx_poll-Delivers_example =
    xcan_rx_poll-Delivers loaded no_data frame_words three loaded-IsFifo 3 2 running (λ h. inr refl)
      refl drained_lem
