-- ===== src/Netdev.antt =====
-- The life of the network device in petalinux/components/modules/xilinx_can/xilinx_can.c:
-- xcan_open, xcan_close, xcan_chip_stop, xcan_get_berr_counter, xcan_suspend and xcan_resume. The
-- labels of xcan_open, where its error paths meet, are functions of their own.
pub mod Returns
pub mod Open
pub mod Close
pub mod Power
pub mod Stable
pub mod Statistics
pub mod Ring
pub mod Wake
pub mod Overflow
pub mod Tests
use zynq_can_sja1000_top.Common.{
  ℕ, ◌-◌, ◌^◌, bit_and, ◌>>>◌, if◌then◌else◌, ℤ, pos, is_negative, is_nonzero,
}
use zynq_can_sja1000_top.Registers.{
  ier, srr, msr, ecr, intr_all, srr_reset_mask, srr_cen_mask, msr_sleep_mask,
}
use zynq_can_sja1000_top.Registers.{ecr_tec_mask, ecr_rec_mask, esr_rec_shift}
use zynq_can_sja1000_top.Can.{CanState}
use zynq_can_sja1000_top.Kernel.{Kernel, Event, Clk, can_clk, bus_clk, led_open, led_stop}
use zynq_can_sja1000_top.Driver.{World, Step, get_world, set_state, emit, write_reg, read_reg}
use zynq_can_sja1000_top.Driver.Run.{Run, lift, pure, ◌>>=◌, ◌>>◌}
use zynq_can_sja1000_top.Mode.{set_reset_mode, xcan_chip_start}

-- `struct can_berr_counter`
pub record BerrCounter : Type 0 where
  pub txerr : ℕ
  pub rxerr : ℕ

-- `err_irq`, `err_can_clk`, `err_bus_clk` and `err_candev`, each going on to the one before.
pub err_irq : ℤ → Step ℤ
err_irq ret w = (ret, (emit Event.free_irq w).1)

pub err_can_clk : ℤ → Step ℤ
unfolding err_irq
err_can_clk ret w = err_irq ret (emit (Event.clk_disable_unprepare can_clk) w).1

pub err_bus_clk : ℤ → Step ℤ
unfolding err_can_clk
err_bus_clk ret w = err_can_clk ret (emit (Event.clk_disable_unprepare bus_clk) w).1

pub err_candev : ℤ → Step ℤ
unfolding err_bus_clk
err_candev ret w = err_bus_clk ret (emit Event.close_candev w).1

module _ (k : Kernel) where
  -- Calls of the kernel that may fail.
  abbrev pub request_irq : Step ℤ
  request_irq w = let r = k.request_irq_result w.history in (r, (emit (Event.request_irq r) w).1)

  abbrev pub clk_prepare_enable : Clk → Step ℤ
  clk_prepare_enable c w =
      let r = k.clk_prepare_enable_result c w.history in
      (r, (emit (Event.clk_prepare_enable c r) w).1)

  abbrev pub clk_enable : Clk → Step ℤ
  clk_enable c w = let r = k.clk_enable_result c w.history in (r, (emit (Event.clk_enable c r) w).1)

  abbrev pub open_candev : Step ℤ
  open_candev w = let r = k.open_candev_result w.history in (r, (emit (Event.open_candev r) w).1)

  -- xcan_open behind xcan_chip_start.
  unfoldable pub open_done : ℤ → Run ℤ
  unfolding err_candev
  open_done ret = if is_negative ret then lift (err_candev ret) else (do
    lift (emit (Event.led led_open))
    lift (emit Event.napi_enable)
    lift (emit Event.netif_start_queue)
    pure (pos 0))

  -- Behind open_candev.
  unfoldable pub open_start : ℕ → ℤ → Run ℤ
  open_start fuel ret =
      if is_nonzero ret
      then lift (err_bus_clk ret)
      else (do err ← xcan_chip_start k fuel; open_done err)

  -- Behind set_reset_mode.
  unfoldable pub open_reset : ℕ → ℤ → Run ℤ
  open_reset fuel ret =
      if is_negative ret
      then lift (err_bus_clk ret)
      else (do err ← lift open_candev; open_start fuel err)

  -- Behind both clocks.
  unfoldable pub open_bus : ℕ → ℤ → Run ℤ
  open_bus fuel ret =
      if is_nonzero ret
      then lift (err_can_clk ret)
      else (do err ← set_reset_mode k fuel; open_reset fuel err)

  unfoldable pub open_clocks : ℕ → ℤ → Run ℤ
  open_clocks fuel ret =
      if is_nonzero ret
      then lift (err_irq ret)
      else (do err ← lift (clk_prepare_enable bus_clk); open_bus fuel err)

  unfoldable pub open_irq : ℕ → ℤ → Run ℤ
  open_irq fuel ret =
      if is_negative ret
      then pure ret
      else (do err ← lift (clk_prepare_enable can_clk); open_clocks fuel err)

  unfoldable pub xcan_open : ℕ → Run ℤ
  xcan_open fuel = do ret ← lift request_irq; open_irq fuel ret

  pub xcan_chip_stop : World → World
  xcan_chip_stop w =
      let enabled = read_reg k ier w in
      let w1 = (write_reg ier (bit_and enabled.0 (2 ^ 32 - 1 - intr_all)) enabled.1).1 in
      let w2 = (write_reg srr srr_reset_mask w1).1 in (set_state CanState.stopped w2).1

  unfoldable pub xcan_close : Run ℤ
  unfolding xcan_chip_stop
  xcan_close = do
    lift (emit Event.netif_stop_queue)
    lift (emit Event.napi_disable)
    lift (λ w. (tt, xcan_chip_stop w))
    lift (emit (Event.clk_disable_unprepare bus_clk))
    lift (emit (Event.clk_disable_unprepare can_clk))
    lift (emit Event.free_irq)
    lift (emit Event.close_candev)
    lift (emit (Event.led led_stop))
    pure (pos 0)

  -- The two reads of xcan_get_berr_counter, and the release of the clocks. `bec` is what the
  -- caller's buffer holds before.
  pub read_counters : Run (ℤ × BerrCounter)
  read_counters = do
    tx ← lift (read_reg k ecr)
    rx ← lift (read_reg k ecr)
    lift (emit (Event.clk_disable_unprepare bus_clk))
    lift (emit (Event.clk_disable_unprepare can_clk))
    pure (
      pos 0,
      record { txerr = bit_and tx ecr_tec_mask; rxerr = bit_and rx ecr_rec_mask >>> esr_rec_shift },
    )

  pub berr_bus : BerrCounter → ℤ → Run (ℤ × BerrCounter)
  unfolding read_counters
  berr_bus bec ret =
      if is_nonzero ret
      then (do lift (emit (Event.clk_disable_unprepare can_clk)); pure (ret, bec))
      else read_counters

  pub xcan_get_berr_counter : BerrCounter → Run (ℤ × BerrCounter)
  unfolding berr_bus
  xcan_get_berr_counter bec = do
    ret ← lift (clk_prepare_enable can_clk)
    if is_nonzero ret
        then pure (ret, bec)
        else (do err ← lift (clk_prepare_enable bus_clk); berr_bus bec err)

  unfoldable pub xcan_suspend : Run ℤ
  xcan_suspend = do
    w ← lift get_world
    if k.netif_running w.history
        then (do lift (emit Event.netif_stop_queue); lift (emit Event.netif_device_detach))
        else pure tt
    lift (write_reg msr msr_sleep_mask)
    lift (set_state CanState.sleeping)
    lift (emit (Event.clk_disable bus_clk))
    lift (emit (Event.clk_disable can_clk))
    pure (pos 0)

  -- xcan_resume behind both clocks.
  unfoldable pub resume_core : Run ℤ
  resume_core = do
    lift (write_reg msr 0)
    lift (write_reg srr srr_cen_mask)
    lift (set_state CanState.error_active)
    w ← lift get_world
    if k.netif_running w.history
        then (do lift (emit Event.netif_device_attach); lift (emit Event.netif_start_queue))
        else pure tt
    pure (pos 0)

  unfoldable pub resume_can : ℤ → Run ℤ
  unfolding resume_core
  resume_can ret =
      if is_nonzero ret
      then (do lift (emit (Event.clk_disable_unprepare bus_clk)); pure ret)
      else resume_core

  unfoldable pub xcan_resume : Run ℤ
  unfolding resume_can
  xcan_resume = do
    ret ← lift (clk_enable bus_clk)
    if is_nonzero ret then pure ret else (do err ← lift (clk_enable can_clk); resume_can err)
