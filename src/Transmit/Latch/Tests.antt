-- ===== src/Transmit/Latch/Tests.antt =====
-- A core that has sent both frames in flight.
use zynq_can_sja1000_top.Common.{
  ℕ, ◌-◌, ◌+◌, ◌≡◌, u32, refl, arith, true, false, Bool, ltb, has, if◌then◌else◌, ◌^◌, ◌%◌,
}
use zynq_can_sja1000_top.Registers.{Reg, ixr_txok_mask}
use zynq_can_sja1000_top.Kernel.{Kernel, History}
use zynq_can_sja1000_top.Demo.{demo, running}
use zynq_can_sja1000_top.Transmit.{xcan_tx_interrupt}
use zynq_can_sja1000_top.Transmit.Completion.{in_flight}
use zynq_can_sja1000_top.Transmit.Latch.{IsLatch, at_clear, xcan_tx_interrupt-undercounts}
use zynq_can_sja1000_top.Transmit.Tests.{running-AreWords}

abbrev both_sent : History → ℕ
both_sent h = 2

abbrev latch_registers : History → Reg → ℕ
latch_registers h Reg.isr = if ltb (at_clear both_sent h) (both_sent h) then 2 else 0
latch_registers h _ = 0

abbrev latching : Kernel
latching = record demo { read32 = λ h o r. latch_registers h r }

txok : (b : Bool) → has ((if b then 2 else 0) % 2 ^ 32) ixr_txok_mask ≡ b
txok true = refl
txok false = refl

latching-IsLatch : IsLatch latching both_sent
latching-IsLatch = record { txok = λ h o. txok (ltb (at_clear both_sent h) 2) }

xcan_tx_interrupt-undercounts_example :
    let w' = (xcan_tx_interrupt latching 2 running).1 in
    (in_flight w' ≡ in_flight running - 1)
    × (w'.stats.tx_packets ≡ u32 (running.stats.tx_packets + 1))
xcan_tx_interrupt-undercounts_example =
    xcan_tx_interrupt-undercounts latching both_sent latching-IsLatch 2 running running-AreWords
      (omega arith) refl (λ e f. refl)
