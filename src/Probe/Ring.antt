-- ===== src/Probe/Ring.antt =====
-- xcan_probe and the transmit ring: what the new instance brings.
use zynq_can_sja1000_top.Common.{
  ◌≡◌, ◌⊎◌, inl, inr, refl, arith, some, true, ℤ, Bool-cases, Option-cases, is_negative, is_nonzero,
  ◌∷◌,
}
use zynq_can_sja1000_top.Kernel.{Kernel, Event}
use zynq_can_sja1000_top.Driver.{World, Priv}
use zynq_can_sja1000_top.Netdev.Open.{is_negative-is_nonzero}
use zynq_can_sja1000_top.Transmit.Echo.{echo_calls}
use zynq_can_sja1000_top.Transmit.Echo.Same.{SameRing}
use zynq_can_sja1000_top.Probe.{Platform, set_factors, probe_device, xcan_probe}
use zynq_can_sja1000_top.Netdev.Ring.{SameRing-IsCallStable}
use zynq_can_sja1000_top.Probe.Stable.{IsProbeStable, probe_clocks-Stable}
use zynq_can_sja1000_top.Probe.Ends.{IsPlatform}

-- The ring of a new instance: its counters, the depth of the device tree, and the echo slots as
-- they were.
pub record IsFresh (pf : Platform) (w w' : World) : Type 0 where
  pub fresh : Priv
  pub allocated : pf.candev ≡ some fresh
  pub head : w'.priv.tx_head ≡ fresh.tx_head
  pub tail : w'.priv.tx_tail ≡ fresh.tx_tail
  pub max : w'.priv.tx_max ≡ pf.tx_fifo_depth.1
  pub packets : w'.stats.tx_packets ≡ w.stats.tx_packets
  pub echoes : echo_calls w'.history ≡ echo_calls w.history

module _ (k : Kernel) where
  SameRing-IsProbeStable : IsProbeStable k SameRing
  unfolding set_factors
  SameRing-IsProbeStable = record {
    calls = SameRing-IsCallStable k;
    order = λ o w. ground arith;
    freq = λ n w. ground arith;
    factors = λ w. ground arith;
  }

  module _ (pf : Platform) where
    abbrev Outcome : World → ℤ × World → Type 0
    Outcome w r = (is_nonzero r.0 ≡ true) ⊎ IsFresh pf w r.1

    probe_device-Fresh : (w : World) → Outcome w (probe_device k pf w)
    unfolding probe_device
    probe_device-Fresh w = elim (Option-cases pf.candev) [
      | inl x ↦ simp (x, probe_device) (inl refl)
      | inr (fresh, x) ↦
          let u : World = record w {
            priv = record fresh { tx_max = pf.tx_fifo_depth.1 };
            history = Event.alloc_candev true ∷ w.history;
          } in
          let s = probe_clocks-Stable k SameRing SameRing-IsProbeStable pf u in
          simp (x, probe_device)
            (inr (record {
              fresh = fresh;
              allocated = x;
              head = s.head;
              tail = s.tail;
              max = s.max;
              packets = s.packets;
              echoes = s.echoes;
            }))
    ]

    -- xcan_probe returns an error, or the ring is that of a new instance.
    pub xcan_probe-Fresh : (w : World) → IsPlatform pf → Outcome w (xcan_probe k pf w)
    unfolding xcan_probe
    xcan_probe-Fresh w ok = elim (Option-cases pf.ioremap_error) [
      | inr (e, x) ↦ simp (x, xcan_probe) (inl (ok.ioremap e x))
      | inl x ↦ elim (Bool-cases (is_negative pf.tx_fifo_depth.0)) [
        | inl t ↦ simp (x, t, xcan_probe) (inl (is_negative-is_nonzero _ t))
        | inr t ↦ elim (Bool-cases (is_negative pf.rx_fifo_depth.0)) [
          | inl u ↦ simp (x, t, u, xcan_probe) (inl (is_negative-is_nonzero _ u))
          | inr u ↦ simp (x, t, u, xcan_probe) (probe_device-Fresh w)
        ]
      ]
    ]
