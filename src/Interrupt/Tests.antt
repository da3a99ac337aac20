-- ===== src/Interrupt/Tests.antt =====
-- An interrupt with RXOK and RXNEMP.
use zynq_can_sja1000_top.Common.{◌≡◌, ◌≢◌, ◌⊎◌, has, false}
use zynq_can_sja1000_top.Registers.{isr}
use zynq_can_sja1000_top.Driver.{read_reg}
use zynq_can_sja1000_top.Demo.{demo, running}
use zynq_can_sja1000_top.Interrupt.{IrqReturn, rx_bits, xcan_interrupt}
use zynq_can_sja1000_top.Interrupt.Receive.{Schedules, xcan_interrupt-Schedules}

xcan_interrupt-Schedules_example :
    let status = read_reg demo isr running in
    let result = xcan_interrupt demo running in
    ((status.0 ≡ 0) × (result ≡ (IrqReturn.irq_none, status.1)))
    ⊎ ((status.0 ≢ 0)
        × (result.0 ≡ IrqReturn.irq_handled)
        × ((has status.0 rx_bits ≡ false) ⊎ Schedules result.1))
xcan_interrupt-Schedules_example = xcan_interrupt-Schedules demo running
