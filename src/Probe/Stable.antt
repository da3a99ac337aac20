-- ===== src/Probe/Stable.antt =====
-- What xcan_probe keeps from the allocation of the device on: a relation between states that holds
-- along its register access, its calls and its assignments holds along all of it.
use zynq_can_sja1000_top.Common.{
  ℕ, refl, Bool-cases, Option-cases, inl, inr, ℤ, is_nonzero, u32, ◌==◌,
}
use zynq_can_sja1000_top.Registers.{sr, sr_config_mask}
use zynq_can_sja1000_top.Kernel.{Kernel, Event, ByteOrder, can_clk, bus_clk}
use zynq_can_sja1000_top.Driver.{World, emit, read_reg}
use zynq_can_sja1000_top.Netdev.{clk_prepare_enable}
use zynq_can_sja1000_top.Netdev.Stable.{IsCallStable}
use zynq_can_sja1000_top.Probe.{
  Platform, register_candev, err_free, err_unprepare_disable_dev, err_unprepare_disable_busclk,
  set_factors, bus_clk_error, probe_end, probe_order, probe_register, probe_bus, probe_can,
  probe_clocks,
}

-- The assignments of xcan_probe.
pub record IsProbeStable (k : Kernel) (R : World → World → Type 0) : Type 0 where
  pub calls : IsCallStable k R
  pub order :
      (o : ByteOrder) (w : World) → R w (record w { priv = record w.priv { byte_order = o } })
  pub freq : (n : ℕ) (w : World) → R w (record w { priv = record w.priv { clock_freq = n } })
  pub factors : (w : World) → R w (record w { priv = set_factors k w.priv })

module _ (k : Kernel) (R : World → World → Type 0) (stable : IsProbeStable k R) where
  open stable use {calls, order, freq, factors}
  open calls use {start, call}
  open start use {same, trans, read}

  free-Stable : (r : ℤ) (w : World) → R w (err_free r w).1
  unfolding err_free
  free-Stable r w = call Event.free_candev w refl

  dev-Stable : (r : ℤ) (w : World) → R w (err_unprepare_disable_dev r w).1
  unfolding err_unprepare_disable_dev
  dev-Stable r w = trans (call (Event.clk_disable_unprepare can_clk) w refl) (free-Stable r _)

  busclk-Stable : (r : ℤ) (w : World) → R w (err_unprepare_disable_busclk r w).1
  unfolding err_unprepare_disable_busclk
  busclk-Stable r w = trans (call (Event.clk_disable_unprepare bus_clk) w refl) (dev-Stable r _)

  end-Stable : (r : ℤ) (w : World) → R w (probe_end k r w).1
  unfolding probe_end
  end-Stable r w =
      let u = (emit (Event.clk_disable_unprepare bus_clk) w).1 in
      let v = (emit (Event.clk_disable_unprepare can_clk) u).1 in
      elim (Bool-cases (is_nonzero r)) [
        | inl e ↦ rw e (busclk-Stable r w)
        | inr e ↦ rw e (
            trans (call (Event.clk_disable_unprepare bus_clk) w refl)
              (trans (call (Event.clk_disable_unprepare can_clk) u refl) (factors v)))
      ]

  order-Stable : (w : World) → R w (probe_order k w).1
  unfolding probe_order
  order-Stable w =
      let u : World = record w { priv = record w.priv { byte_order = ByteOrder.le } } in
      let (status, v) = read_reg k sr u in
      let seen = trans (order ByteOrder.le w) (read sr u) in
      elim (Bool-cases (status == sr_config_mask)) [
        | inl e ↦ rw e seen
        | inr e ↦ rw e (trans seen (order ByteOrder.be v))
      ]

  module _ (pf : Platform) where
    register-Stable : (w : World) → R w (probe_register k pf w).1
    unfolding probe_register
    register-Stable w =
        let u = (probe_order k w).1 in
        let v : World = record u { priv = record u.priv { clock_freq = u32 pf.clk_rate } } in
        let x = (emit Event.napi_add v).1 in
        let (r, y) = register_candev k x in
        trans (order-Stable w) (
          trans (freq (u32 pf.clk_rate) u) (
            trans (call Event.napi_add v refl)
              (trans (call (Event.register_candev r) x refl) (end-Stable r y))))

    bus-Stable : (r : ℤ) (w : World) → R w (probe_bus k pf r w).1
    unfolding probe_bus
    bus-Stable r w = elim (Bool-cases (is_nonzero r)) [
      | inl e ↦ rw e (dev-Stable r w)
      | inr e ↦ rw e (register-Stable w)
    ]

    can-Stable : (r : ℤ) (w : World) → R w (probe_can k pf r w).1
    unfolding probe_can
    can-Stable r w =
        let (bus, u) = clk_prepare_enable k bus_clk w in
        elim (Bool-cases (is_nonzero r)) [
          | inl e ↦ rw e (free-Stable r w)
          | inr e ↦
              rw e (trans (call (Event.clk_prepare_enable bus_clk bus) w refl) (bus-Stable bus u))
        ]

    pub probe_clocks-Stable : (w : World) → R w (probe_clocks k pf w).1
    unfolding probe_clocks
    probe_clocks-Stable w =
        let (can, u) = clk_prepare_enable k can_clk w in
        elim (Option-cases pf.can_clk_error) [
          | inr (e, x) ↦ simp (x, probe_clocks) (free-Stable e w)
          | inl x ↦ elim (Option-cases (bus_clk_error pf)) [
            | inr (e, y) ↦ simp (x, y, probe_clocks) (free-Stable e w)
            | inl y ↦
                simp (x, y, probe_clocks)
                  (trans (call (Event.clk_prepare_enable can_clk can) w refl) (can-Stable can u))
          ]
        ]
