-- ===== src/Netdev/Stable.antt =====
-- What opening, closing, suspending and resuming keep: a relation between states that holds along
-- register accesses and the kernel's calls for a network device holds along all of them.
pub mod Sleep
use zynq_can_sja1000_top.Common.{
  ℕ, ◌-◌, ◌^◌, ◌≡◌, refl, Bool, Bool-cases, inl, inr, true, false, ℤ, is_negative, is_nonzero,
  bit_and,
}
use zynq_can_sja1000_top.Registers.{ier, srr, intr_all, srr_reset_mask}
use zynq_can_sja1000_top.Can.{CanState}
use zynq_can_sja1000_top.Kernel.{Kernel, Event, can_clk, bus_clk, led_open, led_stop}
use zynq_can_sja1000_top.Driver.{World, emit, read_reg, write_reg}
use zynq_can_sja1000_top.Driver.Run.{Ensures}
use zynq_can_sja1000_top.Mode.{set_reset_mode, xcan_chip_start}
use zynq_can_sja1000_top.Mode.Stable.{
  IsStable, Along, Along-from, Along-elim, set_reset_mode-Stable, chip_start-Stable,
}
use zynq_can_sja1000_top.Netdev.{
  request_irq, clk_prepare_enable, clk_enable, open_candev, err_irq, err_can_clk, err_bus_clk,
  err_candev, open_done, open_start, open_reset, open_bus, open_clocks, open_irq, xcan_open,
  xcan_close, xcan_chip_stop,
}

-- The calls from probing to removing a device.
abbrev pub is_netdev_call : Event → Bool
is_netdev_call (Event.request_irq r) = true
is_netdev_call Event.free_irq = true
is_netdev_call (Event.clk_prepare_enable c r) = true
is_netdev_call (Event.clk_disable_unprepare c) = true
is_netdev_call (Event.clk_enable c r) = true
is_netdev_call (Event.clk_disable c) = true
is_netdev_call (Event.open_candev r) = true
is_netdev_call Event.close_candev = true
is_netdev_call (Event.led e) = true
is_netdev_call Event.napi_enable = true
is_netdev_call Event.napi_disable = true
is_netdev_call Event.netif_start_queue = true
is_netdev_call Event.netif_stop_queue = true
is_netdev_call Event.netif_wake_queue = true
is_netdev_call Event.netif_device_attach = true
is_netdev_call Event.netif_device_detach = true
is_netdev_call (Event.alloc_candev b) = true
is_netdev_call Event.free_candev = true
is_netdev_call (Event.register_candev r) = true
is_netdev_call Event.unregister_candev = true
is_netdev_call Event.napi_add = true
is_netdev_call Event.napi_del = true
is_netdev_call _ = false

pub record IsCallStable (k : Kernel) (R : World → World → Type 0) : Type 0 where
  pub start : IsStable k R
  pub call : (e : Event) (w : World) → is_netdev_call e ≡ true → R w (emit e w).1

module _ (k : Kernel) (R : World → World → Type 0) (stable : IsCallStable k R) where
  open stable use {start, call}
  open start use {same, trans, read, write, state}

  err_irq-Stable : (r : ℤ) (w : World) → R w (err_irq r w).1
  unfolding err_irq
  err_irq-Stable r w = call Event.free_irq w refl

  err_can_clk-Stable : (r : ℤ) (w : World) → R w (err_can_clk r w).1
  unfolding err_can_clk
  err_can_clk-Stable r w =
      trans (call (Event.clk_disable_unprepare can_clk) w refl) (err_irq-Stable r _)

  err_bus_clk-Stable : (r : ℤ) (w : World) → R w (err_bus_clk r w).1
  unfolding err_bus_clk
  err_bus_clk-Stable r w =
      trans (call (Event.clk_disable_unprepare bus_clk) w refl) (err_can_clk-Stable r _)

  err_candev-Stable : (r : ℤ) (w : World) → R w (err_candev r w).1
  unfolding err_candev
  err_candev-Stable r w = trans (call Event.close_candev w refl) (err_bus_clk-Stable r _)

  open_done-Stable : (r : ℤ) (w : World) → Ensures (Along k R start w) (open_done k r w)
  unfolding open_done
  open_done-Stable r w =
      let u = (emit (Event.led led_open) w).1 in
      let v = (emit Event.napi_enable u).1 in
      elim (Bool-cases (is_negative r)) [
        | inl e ↦ rw e (err_candev-Stable r w)
        | inr e ↦ rw e (
            trans (call (Event.led led_open) w refl)
              (trans (call Event.napi_enable u refl) (call Event.netif_start_queue v refl)))
      ]

  open_start-Stable :
      (fuel : ℕ) (r : ℤ) (w : World) → Ensures (Along k R start w) (open_start k fuel r w)
  unfolding open_start
  open_start-Stable fuel r w = elim (Bool-cases (is_nonzero r)) [
    | inl e ↦ rw e (err_bus_clk-Stable r w)
    | inr e ↦ rw e (
        Along-elim k R start w (xcan_chip_start k fuel w) (open_done k)
          (chip_start-Stable k R start fuel w) open_done-Stable)
  ]

  open_reset-Stable :
      (fuel : ℕ) (r : ℤ) (w : World) → Ensures (Along k R start w) (open_reset k fuel r w)
  unfolding open_reset
  open_reset-Stable fuel r w = elim (Bool-cases (is_negative r)) [
    | inl e ↦ rw e (err_bus_clk-Stable r w)
    | inr e ↦ rw e (
        let (ret, u) = open_candev k w in
        Along-from k R start w u (open_start k fuel ret u) (call (Event.open_candev ret) w refl)
          (open_start-Stable fuel ret u))
  ]

  open_bus-Stable :
      (fuel : ℕ) (r : ℤ) (w : World) → Ensures (Along k R start w) (open_bus k fuel r w)
  unfolding open_bus
  open_bus-Stable fuel r w = elim (Bool-cases (is_nonzero r)) [
    | inl e ↦ rw e (err_can_clk-Stable r w)
    | inr e ↦ rw e (
        Along-elim k R start w (set_reset_mode k fuel w) (open_reset k fuel)
          (set_reset_mode-Stable k R start fuel w) (open_reset-Stable fuel))
  ]

  open_clocks-Stable :
      (fuel : ℕ) (r : ℤ) (w : World) → Ensures (Along k R start w) (open_clocks k fuel r w)
  unfolding open_clocks
  open_clocks-Stable fuel r w = elim (Bool-cases (is_nonzero r)) [
    | inl e ↦ rw e (err_irq-Stable r w)
    | inr e ↦ rw e (
        let (ret, u) = clk_prepare_enable k bus_clk w in
        Along-from k R start w u (open_bus k fuel ret u)
          (call (Event.clk_prepare_enable bus_clk ret) w refl) (open_bus-Stable fuel ret u))
  ]

  pub open-Stable : (fuel : ℕ) (w : World) → Ensures (Along k R start w) (xcan_open k fuel w)
  unfolding xcan_open open_irq
  open-Stable fuel w =
      let (irq, v) = request_irq k w in
      let asked = call (Event.request_irq irq) w refl in
      elim (Bool-cases (is_negative irq)) [
        | inl e ↦ rw e asked
        | inr e ↦ rw e (
            let (ret, u) = clk_prepare_enable k can_clk v in
            Along-from k R start w u (open_clocks k fuel ret u)
              (trans asked (call (Event.clk_prepare_enable can_clk ret) v refl))
              (open_clocks-Stable fuel ret u))
      ]

  chip_stop-Stable : (w : World) → R w (xcan_chip_stop k w)
  unfolding xcan_chip_stop
  chip_stop-Stable w =
      let (enabled, u) = read_reg k ier w in
      let x = bit_and enabled (2 ^ 32 - 1 - intr_all) in
      let w1 = (write_reg ier x u).1 in
      let w2 = (write_reg srr srr_reset_mask w1).1 in
      trans (read ier w)
        (trans (write ier x u) (trans (write srr srr_reset_mask w1) (state CanState.stopped w2)))

  pub close-Stable : (w : World) → Ensures (Along k R start w) (xcan_close k w)
  unfolding xcan_close
  close-Stable w =
      let w1 = (emit Event.netif_stop_queue w).1 in
      let w2 = (emit Event.napi_disable w1).1 in
      let w3 = xcan_chip_stop k w2 in
      let w4 = (emit (Event.clk_disable_unprepare bus_clk) w3).1 in
      let w5 = (emit (Event.clk_disable_unprepare can_clk) w4).1 in
      let w6 = (emit Event.free_irq w5).1 in
      let w7 = (emit Event.close_candev w6).1 in
      let off = trans (call Event.netif_stop_queue w refl) (call Event.napi_disable w1 refl) in
      let freed = trans (call Event.free_irq w5 refl) (call Event.close_candev w6 refl) in
      trans off (
        trans (chip_stop-Stable w2) (
          trans (call (Event.clk_disable_unprepare bus_clk) w3 refl) (
            trans (call (Event.clk_disable_unprepare can_clk) w4 refl)
              (trans freed (call (Event.led led_stop) w7 refl)))))
