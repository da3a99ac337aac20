-- ===== src/ErrorFrame/Report/Tests.antt =====
-- Error-passive with a lost arbitration and three protocol errors.
use zynq_can_sja1000_top.Common.{refl, some}
use zynq_can_sja1000_top.Kernel.{Kernel}
use zynq_can_sja1000_top.Demo.{demo, running}
use zynq_can_sja1000_top.ErrorFrame.{xcan_err_interrupt}
use zynq_can_sja1000_top.ErrorFrame.Report.{no_error}
use zynq_can_sja1000_top.ErrorFrame.Report.Sent.{Sent, xcan_err_interrupt-Sent}

abbrev with_skb : Kernel
with_skb = record demo { alloc_can_err_skb = λ h. some no_error }

xcan_err_interrupt-Sent_example : Sent 0x141 running (xcan_err_interrupt with_skb 0x141 running).1
xcan_err_interrupt-Sent_example = xcan_err_interrupt-Sent with_skb 0x141 running refl
