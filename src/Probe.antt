-- ===== src/Probe.antt =====
-- Probing and removal in petalinux/components/modules/xilinx_can/xilinx_can.c: xcan_probe and
-- xcan_remove.
pub mod Ends
pub mod Remove
pub mod Stable
pub mod Ring
pub mod Statistics
pub mod Tests
use zynq_can_sja1000_top.Common.{
  ℕ, ◌/◌, ◌*◌, ◌^◌, u32, u64, Bool, ◌==◌, if◌then◌else◌, Option, none, some, ℤ, pos, is_negative,
  is_nonzero, true, false,
}
use zynq_can_sja1000_top.Registers.{sr, sr_config_mask}
use zynq_can_sja1000_top.Can.{minus_enomem}
use zynq_can_sja1000_top.Kernel.{Kernel, Event, ByteOrder, can_clk, bus_clk}
use zynq_can_sja1000_top.Driver.{Priv, Step, modify_priv, emit, read_reg, pure, ◌>>=◌, ◌>>◌}
use zynq_can_sja1000_top.Driver.Run.{Run}
use zynq_can_sja1000_top.Mode.{set_reset_mode}
use zynq_can_sja1000_top.Netdev.{clk_prepare_enable}

-- What the device tree and the platform give: an error, or the value. `compatible` is
-- `of_device_is_compatible` for "xlnx,zynq-can-1.0", which chooses the name of the bus clock.
pub record Platform : Type 0 where
  pub ioremap_error : Option ℤ
  pub tx_fifo_depth : ℤ × ℕ
  pub rx_fifo_depth : ℤ × ℕ
  -- What alloc_candev hands out, `none` for NULL.
  pub candev : Option Priv
  pub can_clk_error : Option ℤ
  pub compatible : Bool
  pub pclk_error : Option ℤ
  pub s_axi_aclk_error : Option ℤ
  pub clk_rate : ℕ

-- `err_free`, `err_unprepare_disable_dev` and `err_unprepare_disable_busclk`.
pub err_free : ℤ → Step ℤ
err_free ret w = (ret, (emit Event.free_candev w).1)

pub err_unprepare_disable_dev : ℤ → Step ℤ
unfolding err_free
err_unprepare_disable_dev ret w = err_free ret (emit (Event.clk_disable_unprepare can_clk) w).1

pub err_unprepare_disable_busclk : ℤ → Step ℤ
unfolding err_unprepare_disable_dev
err_unprepare_disable_busclk ret w =
    err_unprepare_disable_dev ret (emit (Event.clk_disable_unprepare bus_clk) w).1

-- The factors between ticks of the core and nanoseconds, in 32 bits.
unfoldable pub set_factors : Kernel → Priv → Priv
set_factors k p = record p {
  cantime2ns_shr = 0;
  cantime2ns_mul = 1000000000 / p.clock_freq;
  ns2cantime_shr = 20;
  ns2cantime_mul = u32 (k.div_u64 (u64 (p.clock_freq * 2 ^ 20)) 1000000000);
}

abbrev pub bus_clk_error : Platform → Option ℤ
bus_clk_error pf = if pf.compatible then pf.pclk_error else pf.s_axi_aclk_error

module _ (k : Kernel) where
  abbrev pub register_candev : Step ℤ
  register_candev w =
      let r = k.register_candev_result w.history in (r, (emit (Event.register_candev r) w).1)

  -- xcan_probe behind register_candev.
  unfoldable pub probe_end : ℤ → Step ℤ
  unfolding err_unprepare_disable_busclk set_factors
  probe_end ret = if is_nonzero ret then err_unprepare_disable_busclk ret else (do
    emit (Event.clk_disable_unprepare bus_clk)
    emit (Event.clk_disable_unprepare can_clk)
    modify_priv (set_factors k)
    pure (pos 0))

  -- The byte order: little-endian, if the status register then reads as it must after a reset.
  unfoldable pub probe_order : Step (Unit {0})
  probe_order = do
    modify_priv λ p. record p { byte_order = ByteOrder.le }
    status ← read_reg k sr
    if status == sr_config_mask
        then pure tt
        else modify_priv λ p. record p { byte_order = ByteOrder.be }

  module _ (pf : Platform) where
    -- Behind both clocks.
    unfoldable pub probe_register : Step ℤ
    unfolding probe_end probe_order
    probe_register = do
      probe_order
      modify_priv λ p. record p { clock_freq = u32 pf.clk_rate }
      emit Event.napi_add
      ret ← register_candev
      probe_end ret

    unfoldable pub probe_bus : ℤ → Step ℤ
    unfolding probe_register
    probe_bus ret = if is_nonzero ret then err_unprepare_disable_dev ret else probe_register

    unfoldable pub probe_can : ℤ → Step ℤ
    unfolding probe_bus
    probe_can ret =
        if is_nonzero ret
        then err_free ret
        else (do err ← clk_prepare_enable k bus_clk; probe_bus err)

    unfoldable pub probe_clocks : Step ℤ
    unfolding probe_can
    probe_clocks = elim pf.can_clk_error [
      | some e ↦ err_free e
      | none ↦ elim (bus_clk_error pf) [
        | some e ↦ err_free e
        | none ↦ (do err ← clk_prepare_enable k can_clk; probe_can err)
      ]
    ]

    -- Behind the properties of the device tree.
    unfoldable pub probe_device : Step ℤ
    unfolding probe_clocks
    probe_device = elim pf.candev [
      | none ↦ (do emit (Event.alloc_candev false); pure minus_enomem)
      | some fresh ↦ (do
        emit (Event.alloc_candev true)
        modify_priv λ p. record fresh { tx_max = pf.tx_fifo_depth.1 }
        probe_clocks)
    ]

    unfoldable pub xcan_probe : Step ℤ
    unfolding probe_device
    xcan_probe = elim pf.ioremap_error [
      | some e ↦ pure e
      | none ↦
          if is_negative pf.tx_fifo_depth.0
          then pure pf.tx_fifo_depth.0
          else if is_negative pf.rx_fifo_depth.0
          then pure pf.rx_fifo_depth.0
          else probe_device
    ]

  -- xcan_remove goes on whatever set_reset_mode returns.
  pub xcan_remove : ℕ → Run ℤ
  xcan_remove fuel w = elim (set_reset_mode k fuel w) [
    | none ↦ none
    | some (err, u) ↦ some (
        (do emit Event.unregister_candev; emit Event.napi_del; emit Event.free_candev; pure (pos 0))
          u)
  ]
