-- ===== src/Probe/Statistics.antt =====
-- xcan_probe and the counters of the network device.
use zynq_can_sja1000_top.Common.{arith, ◌∷◌, Option-cases, inl, inr, true}
use zynq_can_sja1000_top.Kernel.{Kernel, Event}
use zynq_can_sja1000_top.Driver.{World}
use zynq_can_sja1000_top.Driver.Statistics.{IsCounted}
use zynq_can_sja1000_top.Netdev.Statistics.{Counts-IsCallStable}
use zynq_can_sja1000_top.Driver.Statistics.{Counts}
use zynq_can_sja1000_top.Probe.Stable.{IsProbeStable, probe_clocks-Stable}
use zynq_can_sja1000_top.Probe.{Platform, set_factors, probe_device, xcan_probe}

module _ (k : Kernel) where
  Counts-IsProbeStable : IsProbeStable k Counts
  unfolding set_factors
  Counts-IsProbeStable = record {
    calls = Counts-IsCallStable k;
    order = λ o w c. ground arith;
    freq = λ n w c. ground arith;
    factors = λ w c. ground arith;
  }

  module _ (pf : Platform) where
    probe_device-IsCounted : (w : World) → IsCounted w → IsCounted (probe_device k pf w).1
    unfolding probe_device
    probe_device-IsCounted w c = elim (Option-cases pf.candev) [
      | inl x ↦ simp (x, probe_device) (ground arith)
      | inr (fresh, x) ↦
          let u : World = record w {
            priv = record fresh { tx_max = pf.tx_fifo_depth.1 };
            history = Event.alloc_candev true ∷ w.history;
          } in
          let allocated : IsCounted u = ground arith in
          simp (x, probe_device) (probe_clocks-Stable k Counts Counts-IsProbeStable pf u allocated)
    ]

    pub xcan_probe-IsCounted : (w : World) → IsCounted w → IsCounted (xcan_probe k pf w).1
    unfolding xcan_probe
    xcan_probe-IsCounted w c = let device = probe_device-IsCounted w c in ground arith
