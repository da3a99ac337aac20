-- ===== src/Netdev/Stable/Sleep.antt =====
-- The same for suspending and resuming, and for reading the error counters.
use zynq_can_sja1000_top.Common.{refl, Bool-cases, inl, inr, ℤ, is_nonzero}
use zynq_can_sja1000_top.Registers.{msr, srr, ecr, srr_cen_mask, msr_sleep_mask}
use zynq_can_sja1000_top.Can.{CanState}
use zynq_can_sja1000_top.Kernel.{Kernel, Event, can_clk, bus_clk}
use zynq_can_sja1000_top.Driver.{World, emit, read_reg, write_reg, set_state}
use zynq_can_sja1000_top.Driver.Run.{Ensures}
use zynq_can_sja1000_top.Mode.Stable.{Along, Along-from}
use zynq_can_sja1000_top.Netdev.{
  BerrCounter, clk_prepare_enable, clk_enable, xcan_suspend, xcan_resume, resume_can, resume_core,
  xcan_get_berr_counter, berr_bus, read_counters,
}
use zynq_can_sja1000_top.Netdev.Stable.{IsCallStable}

module _ (k : Kernel) (R : World → World → Type 0) (stable : IsCallStable k R) where
  open stable use {start, call}
  open start use {same, trans, read, write, state}

  sleep-Stable :
      (w : World)
      → let w1 = (write_reg msr msr_sleep_mask w).1 in
        let w2 = (set_state CanState.sleeping w1).1 in
        let w3 = (emit (Event.clk_disable bus_clk) w2).1 in
        R w (emit (Event.clk_disable can_clk) w3).1
  sleep-Stable w =
      let w1 = (write_reg msr msr_sleep_mask w).1 in
      let w2 = (set_state CanState.sleeping w1).1 in
      let w3 = (emit (Event.clk_disable bus_clk) w2).1 in
      trans (write msr msr_sleep_mask w) (
        trans (state CanState.sleeping w1) (
          trans (call (Event.clk_disable bus_clk) w2 refl)
            (call (Event.clk_disable can_clk) w3 refl)))

  pub suspend-Stable : (w : World) → Ensures (Along k R start w) (xcan_suspend k w)
  unfolding xcan_suspend
  suspend-Stable w =
      let u = (emit Event.netif_stop_queue w).1 in
      let v = (emit Event.netif_device_detach u).1 in
      elim (Bool-cases (k.netif_running w.history)) [
        | inl e ↦ rw e (
            trans (call Event.netif_stop_queue w refl)
              (trans (call Event.netif_device_detach u refl) (sleep-Stable v)))
        | inr e ↦ rw e (sleep-Stable w)
      ]

  resume_core-Stable : (w : World) → Ensures (Along k R start w) (resume_core k w)
  unfolding resume_core
  resume_core-Stable w =
      let w1 = (write_reg msr 0 w).1 in
      let w2 = (write_reg srr srr_cen_mask w1).1 in
      let w3 = (set_state CanState.error_active w2).1 in
      let w4 = (emit Event.netif_device_attach w3).1 in
      let active =
        trans (write msr 0 w)
          (trans (write srr srr_cen_mask w1) (state CanState.error_active w2)) in
      elim (Bool-cases (k.netif_running w3.history)) [
        | inl e ↦ rw e (
            trans active (
              trans (call Event.netif_device_attach w3 refl)
                (call Event.netif_start_queue w4 refl)))
        | inr e ↦ rw e active
      ]

  resume_can-Stable : (r : ℤ) (w : World) → Ensures (Along k R start w) (resume_can k r w)
  unfolding resume_can
  resume_can-Stable r w = elim (Bool-cases (is_nonzero r)) [
    | inl e ↦ rw e (call (Event.clk_disable_unprepare bus_clk) w refl)
    | inr e ↦ rw e (resume_core-Stable w)
  ]

  pub resume-Stable : (w : World) → Ensures (Along k R start w) (xcan_resume k w)
  unfolding xcan_resume
  resume-Stable w =
      let (bus, u) = clk_enable k bus_clk w in
      let asked = call (Event.clk_enable bus_clk bus) w refl in
      elim (Bool-cases (is_nonzero bus)) [
        | inl e ↦ rw e asked
        | inr e ↦ rw e (
            let (can, v) = clk_enable k can_clk u in
            Along-from k R start w v (resume_can k can v)
              (trans asked (call (Event.clk_enable can_clk can) u refl)) (resume_can-Stable can v))
      ]

  read_counters-Stable : (w : World) → Ensures (Along k R start w) (read_counters k w)
  unfolding read_counters
  read_counters-Stable w =
      let u = (read_reg k ecr w).1 in
      let v = (read_reg k ecr u).1 in
      let x = (emit (Event.clk_disable_unprepare bus_clk) v).1 in
      trans (read ecr w) (
        trans (read ecr u) (
          trans (call (Event.clk_disable_unprepare bus_clk) v refl)
            (call (Event.clk_disable_unprepare can_clk) x refl)))

  berr_bus-Stable :
      (bec : BerrCounter) (r : ℤ) (w : World) → Ensures (Along k R start w) (berr_bus k bec r w)
  unfolding berr_bus
  berr_bus-Stable bec r w = elim (Bool-cases (is_nonzero r)) [
    | inl e ↦ rw e (call (Event.clk_disable_unprepare can_clk) w refl)
    | inr e ↦ rw e (read_counters-Stable w)
  ]

  pub get_berr_counter-Stable :
      (bec : BerrCounter) (w : World) → Ensures (Along k R start w) (xcan_get_berr_counter k bec w)
  unfolding xcan_get_berr_counter
  get_berr_counter-Stable bec w =
      let (can, u) = clk_prepare_enable k can_clk w in
      let asked = call (Event.clk_prepare_enable can_clk can) w refl in
      elim (Bool-cases (is_nonzero can)) [
        | inl e ↦ rw e asked
        | inr e ↦ rw e (
            let (bus, v) = clk_prepare_enable k bus_clk u in
            Along-from k R start w v (berr_bus k bec bus v)
              (trans asked (call (Event.clk_prepare_enable bus_clk bus) u refl))
              (berr_bus-Stable bec bus v))
      ]
