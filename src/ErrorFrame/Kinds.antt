-- ===== src/ErrorFrame/Kinds.antt =====
-- The five tests of the error status in xcan_err_interrupt, and what they change.
use zynq_can_sja1000_top.Common.{ℕ, ◌+◌, ◌/◌, ◌%◌, ◌^◌, ◌<◌, u32, ◌≡◌, refl, ◌∙◌, arith, ap₂}
use zynq_can_sja1000_top.Common.Bits.{has_digit}
use zynq_can_sja1000_top.Can.{CanFrame}
use zynq_can_sja1000_top.Driver.{World, Stats}
use zynq_can_sja1000_top.ErrorFrame.{Skb, tx_error, rx_error, error_kinds}

-- The state with `t` and `r` more errors counted.
abbrev pub more_errors : ℕ → ℕ → World → World
more_errors t r w = record w {
  stats = record w.stats {
    tx_errors = u32 (w.stats.tx_errors + t);
    rx_errors = u32 (w.stats.rx_errors + r);
  };
}

pub record AreCounters (s : Stats) : Type 0 where
  pub tx_errors : s.tx_errors < 2 ^ 32
  pub rx_errors : s.rx_errors < 2 ^ 32
  pub rx_over_errors : s.rx_over_errors < 2 ^ 32

module _ (w : World) (c : AreCounters w.stats) where
  no_more_errors : w ≡ more_errors 0 0 w
  no_more_errors = ground arith

  module _ (k status : ℕ) (mark : CanFrame → CanFrame) (skb : Skb) where
    tx_error_step :
        (t r : ℕ) (u : World)
        → u ≡ more_errors t r w
        → (tx_error status (2 ^ k) mark skb u).1 ≡ more_errors (t + status / 2 ^ k % 2) r w
    unfolding tx_error
    tx_error_step t r u e = rw e (ground (arith, has_digit k status))

    rx_error_step :
        (t r : ℕ) (u : World)
        → u ≡ more_errors t r w
        → (rx_error status (2 ^ k) mark skb u).1 ≡ more_errors t (r + status / 2 ^ k % 2) w
    unfolding rx_error
    rx_error_step t r u e = rw e (ground (arith, has_digit k status))

  -- The error bits in the order of the tests: ACK and bit errors count as transmit errors; stuff,
  -- form and CRC errors as receive errors.
  pub error_kinds_lem :
      (status : ℕ) (skb : Skb)
      → (error_kinds status skb w).1
        ≡ more_errors
            (status / 2 ^ 4 % 2 + status / 2 ^ 3 % 2)
            (status / 2 ^ 2 % 2 + status / 2 ^ 1 % 2 + status / 2 ^ 0 % 2)
            w
  unfolding error_kinds
  error_kinds_lem status skb =
      rx_error_step 0 status _ _ _ _ _ (
        rx_error_step 1 status _ _ _ _ _ (
          rx_error_step 2 status _ _ _ _ _
            (tx_error_step 3 status _ _ _ _ _ (tx_error_step 4 status _ _ _ _ _ no_more_errors))))
      ∙ ap₂ (λ (t r : ℕ). more_errors t r w) (omega arith) (omega arith)

-- What the tests leave alone, whatever the counters are.
abbrev pub Same : World → World → Type 0
Same u w = (u.priv ≡ w.priv) × (u.history ≡ w.history)

module _ (status mask : ℕ) (mark : CanFrame → CanFrame) (skb : Skb) (w u : World)
    (s : Same u w) where
  Same-tx_error : Same (tx_error status mask mark skb u).1 w
  unfolding tx_error
  Same-tx_error = ground arith

  Same-rx_error : Same (rx_error status mask mark skb u).1 w
  unfolding rx_error
  Same-rx_error = ground arith

pub Same-error_kinds : (status : ℕ) (skb : Skb) (w : World) → Same (error_kinds status skb w).1 w
unfolding error_kinds
Same-error_kinds status skb w = Same-rx_error status _ _ _ w _ (
    Same-rx_error status _ _ _ w _ (
      Same-rx_error status _ _ _ w _
        (Same-tx_error status _ _ _ w _ (Same-tx_error status _ _ _ w _ (refl, refl)))))
