-- ===== src/Lifecycle/Misuse.antt =====
-- The calls of xcan_remove and of xcan_suspend for a device that is down, when its clocks are off.
use zynq_can_sja1000_top.Common.{ℕ, ◌<◌, ◌≡◌, ap, ◌∙◌, ℤ, some, false}
use mathlib.Core.Path.{subst}
use zynq_can_sja1000_top.Kernel.{Kernel}
use zynq_can_sja1000_top.Driver.{World}
use zynq_can_sja1000_top.Driver.Run.{Ensures-some}
use zynq_can_sja1000_top.Driver.Resources.{power, is_on}
use zynq_can_sja1000_top.Netdev.{xcan_suspend}
use zynq_can_sja1000_top.Netdev.Power.{suspend-faults}
use zynq_can_sja1000_top.Probe.{xcan_remove}
use zynq_can_sja1000_top.Probe.Remove.{remove-faults}
use zynq_can_sja1000_top.Lifecycle.{Phase, Life}
use zynq_can_sja1000_top.Lifecycle.Clocks.{Life-IsClocked}

module _ (k : Kernel) where
  -- The calls that the kernel makes for a device that is down, and that do not enable its clocks.
  pub data Unclocked (w u : World) : Type 0 where
    remove : (fuel : ℕ) {r : ℤ} → xcan_remove k fuel w ≡ some (r, u) → Unclocked w u
    suspend_down : {r : ℤ} → xcan_suspend k w ≡ some (r, u) → Unclocked w u

  -- With the clocks off without a device: when xcan_remove or xcan_suspend is called for a device
  -- that is registered and down, a register is accessed with a clock off.
  pub Unclocked-faults :
      {w0 w u : World}
      → Life k w0 Phase.registered w
      → is_on (power w0.history) ≡ false
      → Unclocked w u
      → (power w0.history).faults < (power u.history).faults
  Unclocked-faults {w0} {w} {u} l off c = go c
    where
      same : power w.history ≡ power w0.history
      same = (Life-IsClocked k w0 l).0.1

      go : Unclocked w u → (power w0.history).faults < (power u.history).faults
      go (remove fuel e) =
          subst (λ p. p.faults < (power u.history).faults) same
            (Ensures-some (λ r v. (power w.history).faults < (power v.history).faults)
              (remove-faults k fuel w (ap is_on same ∙ off)) e)
      go (suspend_down e) =
          subst (λ p. p.faults < (power u.history).faults) same
            (Ensures-some (λ r v. (power w.history).faults < (power v.history).faults)
              (suspend-faults k w (ap is_on same ∙ off)) e)
