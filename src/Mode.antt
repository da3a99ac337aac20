-- ===== src/Mode.antt =====
-- Starting the core, in petalinux/components/modules/xilinx_can/xilinx_can.c: set_reset_mode,
-- xcan_set_bittiming, xcan_chip_start and xcan_do_set_mode. The two waiting loops take fuel.
pub mod Wait
pub mod Program
pub mod Start
pub mod Restart
pub mod Stable
pub mod Held
pub mod Statistics
pub mod Tests
use zynq_can_sja1000_top.Common.{
  ℕ, zero, suc, ◌+◌, u32, has, not, if◌then◌else◌, ℤ, pos, is_negative, none, some, Bool,
}
use zynq_can_sja1000_top.Registers.{
  srr, msr, brpr, btr, sr, ier, intr_all, srr_reset_mask, srr_cen_mask,
}
use zynq_can_sja1000_top.Registers.{msr_lback_mask, sr_config_mask, sr_lback_mask, sr_normal_mask}
use zynq_can_sja1000_top.Can.{CanState, CanMode, mode_start, can_ctrlmode_loopback}
use zynq_can_sja1000_top.Can.{minus_etimedout, minus_eperm, minus_eopnotsupp}
use zynq_can_sja1000_top.Kernel.{Kernel, Event}
use zynq_can_sja1000_top.Driver.{
  World, Priv, Step, get_priv, get_world, set_state, emit, write_reg, read_reg,
}
use zynq_can_sja1000_top.Driver.Run.{Run, lift, pure, ◌>>=◌, ◌>>◌}
use zynq_can_sja1000_top.Bittiming.{btr0, btr1}

-- `priv->can.ctrlmode & CAN_CTRLMODE_LOOPBACK`
abbrev pub loopback : Priv → Bool
loopback p = has p.ctrlmode can_ctrlmode_loopback

-- Interrupts, mode and enable, the three writes before the second wait.
unfoldable pub write_mode : Bool → Step (Unit {0})
write_mode loop w =
    let w1 = (write_reg ier intr_all w).1 in
    let w2 = (write_reg msr (if loop then msr_lback_mask else 0) w1).1 in
    write_reg srr srr_cen_mask w2

module _ (k : Kernel) where
  -- `while (!(priv->read_reg(priv, XCAN_SR_OFFSET) & XCAN_SR_CONFIG_MASK))`
  unfoldable pub wait_config : ℕ → ℕ → Run ℤ
  wait_config zero timeout w = none
  wait_config (suc fuel) timeout w =
      let status = read_reg k sr w in
      let rest = wait_config fuel timeout (emit Event.usleep_range status.1).1 in
      if has status.0 sr_config_mask
      then some (pos 0, status.1)
      else if k.time_after (k.jiffies status.1.history) timeout
      then some (minus_etimedout, status.1)
      else rest

  -- `jiffies + XCAN_TIMEOUT`, an unsigned long.
  unfoldable pub deadline : World → ℕ
  deadline w = u32 (k.jiffies w.history + k.hz)

  unfoldable pub set_reset_mode : ℕ → Run ℤ
  set_reset_mode fuel = do
    lift (write_reg srr srr_reset_mask)
    w ← lift get_world
    wait_config fuel (deadline w)

  unfoldable pub xcan_set_bittiming : Run ℤ
  xcan_set_bittiming = do
    status ← lift (read_reg k sr)
    if not (has status sr_config_mask) then pure minus_eperm else (do
      p ← lift get_priv
      lift (write_reg brpr (btr0 p.bittiming))
      lift (write_reg btr (btr1 p.bittiming))
      pure (pos 0))

  -- `while (!(priv->read_reg(priv, XCAN_SR_OFFSET) & reg_sr_mask))`
  unfoldable pub wait_mode : ℕ → ℕ → ℕ → Run ℤ
  wait_mode zero mask timeout w = none
  wait_mode (suc fuel) mask timeout w =
      let status = read_reg k sr w in
      let rest = wait_mode fuel mask timeout status.1 in
      if has status.0 mask
      then some (pos 0, status.1)
      else if k.time_after (k.jiffies status.1.history) timeout
      then some (minus_etimedout, status.1)
      else rest

  -- xcan_chip_start after the second wait.
  unfoldable pub finish_start : ℤ → Run ℤ
  finish_start err =
      if is_negative err
      then pure err
      else (do lift (set_state CanState.error_active); pure (pos 0))

  -- xcan_chip_start behind its two calls.
  unfoldable pub enable_core : ℕ → Run ℤ
  unfolding write_mode
  enable_core fuel = do
    p ← lift get_priv
    lift (write_mode (loopback p))
    w ← lift get_world
    err ← wait_mode fuel (if loopback p then sr_lback_mask else sr_normal_mask) (deadline w)
    finish_start err

  unfoldable pub after_bittiming : ℕ → ℤ → Run ℤ
  after_bittiming fuel err = if is_negative err then pure err else enable_core fuel

  unfoldable pub program_core : ℕ → Run ℤ
  program_core fuel = do err ← xcan_set_bittiming; after_bittiming fuel err

  unfoldable pub after_reset : ℕ → ℤ → Run ℤ
  after_reset fuel err = if is_negative err then pure err else program_core fuel

  unfoldable pub xcan_chip_start : ℕ → Run ℤ
  xcan_chip_start fuel = do err ← set_reset_mode fuel; after_reset fuel err

  -- xcan_do_set_mode after the start of the core.
  pub wake_after : ℤ → Run ℤ
  wake_after ret =
      if is_negative ret then pure ret else (do lift (emit Event.netif_wake_queue); pure ret)

  pub xcan_do_set_mode : ℕ → CanMode → Run ℤ
  xcan_do_set_mode fuel CanMode.mode_start = do ret ← xcan_chip_start fuel; wake_after ret
  xcan_do_set_mode fuel _ = pure minus_eopnotsupp
