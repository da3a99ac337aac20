-- ===== src/Receive/Tests.antt =====
-- Polls with one frame in the FIFO, and with no memory for it.
use zynq_can_sja1000_top.Common.{ℕ, ◌≡◌, ◌≢◌, refl, arith, some, none, ◌+◌}
use zynq_can_sja1000_top.Kernel.{Kernel, History}
use zynq_can_sja1000_top.Driver.{World}
use mathlib.Core.Path.{subst}
use mathlib.Core.Option.{some-injective}
use zynq_can_sja1000_top.Can.{CanFrame}
use zynq_can_sja1000_top.Frame.Valid.{IsBuffer}
use zynq_can_sja1000_top.Receive.Valid.{AreFrames, xcan_rx_poll-AreFrames}
use zynq_can_sja1000_top.Demo.{demo, demo-IsDocumented, no_data, running}
use zynq_can_sja1000_top.Receive.{
  xcan_rx, receive_into, poll_round, poll_loop, poll_end, xcan_rx_poll,
}
use zynq_can_sja1000_top.Receive.Frames.{Takes, xcan_rx-Takes}
use zynq_can_sja1000_top.Receive.Poll.{Contract, xcan_rx_poll-Contract}
use zynq_can_sja1000_top.Receive.Returns.{xcan_rx_poll-returns, xcan_rx_poll-spins}
use zynq_can_sja1000_top.Timestamp.{xcan_timestamp2ktime}

xcan_rx-Takes_example :
    ((xcan_rx demo running).0 ≡ 1) × Takes demo no_data running (xcan_rx demo running).1
xcan_rx-Takes_example = xcan_rx-Takes demo running no_data refl

-- What a poll with a budget of 2 leaves behind.
abbrev polled : ℕ × World
polled = elim (xcan_rx_poll demo 3 2 running) [ none ↦ (0, running) | some r ↦ r ]

pub polled_lem : xcan_rx_poll demo 3 2 running ≡ some polled
unfolding xcan_rx_poll poll_loop poll_round poll_end xcan_rx receive_into xcan_timestamp2ktime
polled_lem = refl

xcan_rx_poll-Contract_example : Contract demo 2 running polled.0 polled.1
xcan_rx_poll-Contract_example = xcan_rx_poll-Contract demo 3 2 running polled_lem

byte_buffers : (h : History) (cf : CanFrame) → demo.alloc_can_skb h ≡ some cf → IsBuffer cf
byte_buffers h cf e = subst IsBuffer (some-injective _ _ e) (omega arith)

xcan_rx_poll-AreFrames_example : AreFrames polled.1.history
xcan_rx_poll-AreFrames_example =
    xcan_rx_poll-AreFrames demo demo-IsDocumented byte_buffers 3 2 running tt polled_lem

has_buffers : (h : History) → demo.alloc_can_skb h ≢ none
has_buffers h = λ e. cc

xcan_rx_poll-returns_example : xcan_rx_poll demo (64 + 1) 64 running ≢ none
xcan_rx_poll-returns_example = xcan_rx_poll-returns demo 64 running has_buffers

abbrev starved : Kernel
starved = record demo { alloc_can_skb = λ h. none; read32 = λ h o r. 0x80 }

xcan_rx_poll-spins_example : xcan_rx_poll starved 1000 64 running ≡ none
xcan_rx_poll-spins_example =
    xcan_rx_poll-spins starved 1000 64 running (omega arith) (λ h. refl) (λ h o. refl)
