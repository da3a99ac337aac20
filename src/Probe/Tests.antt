-- ===== src/Probe/Tests.antt =====
-- A controller with FIFOs of 64 frames and a clock of 24 MHz is found and removed.
use zynq_can_sja1000_top.Common.{◌+◌, ◌≡◌, refl, some, none, true, pos, [], arith}
use zynq_can_sja1000_top.Driver.{World}
use zynq_can_sja1000_top.Demo.{demo, demo_priv, demo_stats, running}
use zynq_can_sja1000_top.Driver.Resources.{held}
use zynq_can_sja1000_top.Probe.{
  Platform, xcan_probe, probe_device, probe_clocks, probe_can, probe_bus, probe_register,
  probe_order, probe_end, xcan_remove,
}
use zynq_can_sja1000_top.Probe.Ends.{IsPlatform, ProbedFrom, xcan_probe-Probed}
use zynq_can_sja1000_top.Probe.Remove.{Removed, xcan_remove-xcan_probe}
use zynq_can_sja1000_top.Driver.Run.{Yields}
use zynq_can_sja1000_top.Mode.Tests.{demo-IsTicking}

abbrev pub found : Platform
found = record {
  ioremap_error = none;
  tx_fifo_depth = (pos 0, 64);
  rx_fifo_depth = (pos 0, 64);
  candev = some (record demo_priv { tx_head = 0; tx_tail = 0 });
  can_clk_error = none;
  compatible = true;
  pclk_error = none;
  s_axi_aclk_error = none;
  clk_rate = 24000000;
}

pub found-IsPlatform : IsPlatform found
found-IsPlatform = record {
  rate = omega arith;
  ioremap = λ e h. cc;
  first_clk = λ e h. cc;
  second_clk = λ e h. cc;
}

abbrev pub before : World
before = record running { stats = record demo_stats { tx_packets = 0; tx_bytes = 0 }; history = [] }

abbrev pub probed : World
probed = (xcan_probe demo found before).1

xcan_probe-Probed_example :
    let r = xcan_probe demo found before in ProbedFrom demo found before r.0 r.1
xcan_probe-Probed_example = xcan_probe-Probed demo found before found-IsPlatform

pub probed_lem : xcan_probe demo found before ≡ (pos 0, probed)
unfolding xcan_probe probe_device probe_clocks probe_can probe_bus probe_register probe_order
    probe_end
probed_lem = refl

xcan_remove-xcan_probe_example :
    Yields (λ r v. Removed (held before.history) r v) (xcan_remove demo (2 + 1) probed)
xcan_remove-xcan_probe_example =
    xcan_remove-xcan_probe demo found 2 before probed demo-IsTicking found-IsPlatform probed_lem
