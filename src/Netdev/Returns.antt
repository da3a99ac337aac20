-- ===== src/Netdev/Returns.antt =====
-- The loops of xcan_open end.
use zynq_can_sja1000_top.Common.{
  ℕ, ◌≢◌, ◌+◌, inl, inr, none, Bool-cases, ℤ, is_negative, is_nonzero,
}
use zynq_can_sja1000_top.Kernel.{Kernel}
use zynq_can_sja1000_top.Driver.{World}
use zynq_can_sja1000_top.Driver.Run.{returns-elim}
use zynq_can_sja1000_top.Mode.{set_reset_mode, xcan_chip_start}
use zynq_can_sja1000_top.Mode.Restart.{IsTicking, set_reset_mode-returns, xcan_chip_start-returns}
use zynq_can_sja1000_top.Netdev.{
  open_done, open_start, open_reset, open_bus, open_clocks, open_irq, xcan_open,
}

module _ (k : Kernel) where
  open_done-returns : (r : ℤ) (w : World) → open_done k r w ≢ none
  unfolding open_done
  open_done-returns r w = elim (Bool-cases (is_negative r)) [
    | inl e ↦ rw e (λ x. cc)
    | inr e ↦ rw e (λ x. cc)
  ]

  open_start-returns : (n : ℕ) (r : ℤ) (w : World) → IsTicking k n → open_start k (n + 1) r w ≢ none
  unfolding open_start
  open_start-returns n r w clock = elim (Bool-cases (is_nonzero r)) [
    | inl e ↦ rw e (λ x. cc)
    | inr e ↦ rw e (
        returns-elim (xcan_chip_start k (n + 1) w) (open_done k)
          (xcan_chip_start-returns k n w clock) open_done-returns)
  ]

  open_reset-returns : (n : ℕ) (r : ℤ) (w : World) → IsTicking k n → open_reset k (n + 1) r w ≢ none
  unfolding open_reset
  open_reset-returns n r w clock = elim (Bool-cases (is_negative r)) [
    | inl e ↦ rw e (λ x. cc)
    | inr e ↦ rw e (open_start-returns n _ _ clock)
  ]

  open_bus-returns : (n : ℕ) (r : ℤ) (w : World) → IsTicking k n → open_bus k (n + 1) r w ≢ none
  unfolding open_bus
  open_bus-returns n r w clock = elim (Bool-cases (is_nonzero r)) [
    | inl e ↦ rw e (λ x. cc)
    | inr e ↦ rw e (
        returns-elim (set_reset_mode k (n + 1) w) (open_reset k (n + 1))
          (set_reset_mode-returns k n w clock) (λ s v. open_reset-returns n s v clock))
  ]

  open_clocks-returns :
      (n : ℕ) (r : ℤ) (w : World) → IsTicking k n → open_clocks k (n + 1) r w ≢ none
  unfolding open_clocks
  open_clocks-returns n r w clock = elim (Bool-cases (is_nonzero r)) [
    | inl e ↦ rw e (λ x. cc)
    | inr e ↦ rw e (open_bus-returns n _ _ clock)
  ]

  open_irq-returns : (n : ℕ) (r : ℤ) (w : World) → IsTicking k n → open_irq k (n + 1) r w ≢ none
  unfolding open_irq
  open_irq-returns n r w clock = elim (Bool-cases (is_negative r)) [
    | inl e ↦ rw e (λ x. cc)
    | inr e ↦ rw e (open_clocks-returns n _ _ clock)
  ]

  pub xcan_open-returns : (n : ℕ) (w : World) → IsTicking k n → xcan_open k (n + 1) w ≢ none
  unfolding xcan_open
  xcan_open-returns n w clock = open_irq-returns n _ _ clock
