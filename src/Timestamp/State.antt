-- ===== src/Timestamp/State.antt =====
-- The driver's state over xcan_timestamp2ktime.
use zynq_can_sja1000_top.Common.{ℕ, ◌≡◌, refl, arith}
use zynq_can_sja1000_top.Kernel.{Kernel}
use zynq_can_sja1000_top.Driver.{World}
use zynq_can_sja1000_top.Timestamp.{xcan_timestamp2ktime}

module _ (k : Kernel) (ts : ℕ) (w : World) where
  pub history-timestamp : (xcan_timestamp2ktime k ts w).1.history ≡ w.history
  unfolding xcan_timestamp2ktime
  history-timestamp = refl

  pub stats-timestamp : (xcan_timestamp2ktime k ts w).1.stats ≡ w.stats
  unfolding xcan_timestamp2ktime
  stats-timestamp = refl

  pub byte_order-timestamp : (xcan_timestamp2ktime k ts w).1.priv.byte_order ≡ w.priv.byte_order
  unfolding xcan_timestamp2ktime
  byte_order-timestamp = ground arith

  pub head-timestamp : (xcan_timestamp2ktime k ts w).1.priv.tx_head ≡ w.priv.tx_head
  unfolding xcan_timestamp2ktime
  head-timestamp = ground arith

  pub tail-timestamp : (xcan_timestamp2ktime k ts w).1.priv.tx_tail ≡ w.priv.tx_tail
  unfolding xcan_timestamp2ktime
  tail-timestamp = ground arith

  pub max-timestamp : (xcan_timestamp2ktime k ts w).1.priv.tx_max ≡ w.priv.tx_max
  unfolding xcan_timestamp2ktime
  max-timestamp = ground arith
