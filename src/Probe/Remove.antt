-- ===== src/Probe/Remove.antt =====
-- xcan_remove, after a probe that succeeded.
use mathlib.Core.Path.{subst}
use mathlib.Core.Bool.{true≢false}
use zynq_can_sja1000_top.Common.{
  ℕ, ◌+◌, ◌<◌, false, ◌≡◌, ◌≢◌, inl, inr, refl, sym, List, ◌∷◌, ◌++◌, none, ℤ, pos,
}
use zynq_can_sja1000_top.Kernel.{Kernel, Event, History}
use zynq_can_sja1000_top.Driver.{World}
use zynq_can_sja1000_top.Driver.Run.{Ensures, Ensures-elim, Yields, Ensures-Yields, returns-elim}
use zynq_can_sja1000_top.Driver.Resources.{Resource, device, held, power, is_on}
use zynq_can_sja1000_top.Mode.Held.{Kept, set_reset_mode-Keeps, set_reset_mode-faults}
use zynq_can_sja1000_top.Mode.{set_reset_mode}
use zynq_can_sja1000_top.Mode.Restart.{IsTicking, set_reset_mode-returns}
use zynq_can_sja1000_top.Probe.{Platform, xcan_probe, xcan_remove}
use zynq_can_sja1000_top.Probe.Ends.{IsPlatform, ProbedFrom, xcan_probe-Probed}

-- A removal that returned 0: `rs` is held, and the last three calls unregister the device, delete
-- its NAPI context and free it, in this order.
pub record Removed (rs : List Resource) (r : ℤ) (w : World) : Type 0 where
  pub result : r ≡ pos 0
  pub released : held w.history ≡ rs
  pub earlier : History
  pub calls : w.history ≡ Event.free_candev ∷ Event.napi_del ∷ Event.unregister_candev ∷ earlier

module _ (k : Kernel) where
  remove-Ensures :
      (fuel : ℕ) (base : List Resource) (w : World)
      → held w.history ≡ device ++ base
      → Ensures (λ r w'. Removed base r w') (xcan_remove k fuel w)
  unfolding xcan_remove
  remove-Ensures fuel base w h =
      Ensures-elim (Kept w) (λ r w'. Removed base r w') (set_reset_mode k fuel w) _
        (set_reset_mode-Keeps k fuel w)
        (λ err u e. record {
          result = refl;
          released = rw (e.resources, h) refl;
          earlier = u.history;
          calls = refl;
        })

  -- With a clock off, the reset of xcan_remove is a fault.
  pub remove-faults :
      (fuel : ℕ) (w : World)
      → is_on (power w.history) ≡ false
      → Ensures (λ r u. (power w.history).faults < (power u.history).faults) (xcan_remove k fuel w)
  unfolding xcan_remove
  remove-faults fuel w off =
      Ensures-elim (λ r u. (power w.history).faults < (power u.history).faults)
        (λ r u. (power w.history).faults < (power u.history).faults) (set_reset_mode k fuel w) _
        (set_reset_mode-faults k fuel w off) (λ err u q. q)

  remove-returns : (n : ℕ) (w : World) → IsTicking k n → xcan_remove k (n + 1) w ≢ none
  unfolding xcan_remove
  remove-returns n w clock =
      returns-elim (set_reset_mode k (n + 1) w) _ (set_reset_mode-returns k n w clock)
        (λ err u z. cc)

  -- Where a second is over within `n` events, the CAN clock has a rate and errors are not 0:
  -- after an xcan_probe that returned 0, xcan_remove returns, `n + 1` rounds of its loop being
  -- enough, with 0, and leaves what was held before the probe: the device is unregistered, then its NAPI
  -- context is deleted, then the device is freed.
  pub xcan_remove-xcan_probe :
      (pf : Platform) (n : ℕ) (w u : World)
      → IsTicking k n
      → IsPlatform pf
      → xcan_probe k pf w ≡ (pos 0, u)
      → Yields (λ r v. Removed (held w.history) r v) (xcan_remove k (n + 1) u)
  xcan_remove-xcan_probe pf n w u clock ok probed =
      Ensures-Yields (xcan_remove k (n + 1) u) (remove-returns n u clock) (
        cases (
          subst (λ (x : ℤ × World). ProbedFrom k pf w x.0 x.1) probed
            (xcan_probe-Probed k pf w ok)))
    where
      cases :
          ProbedFrom k pf w (pos 0) u
          → Ensures (λ r v. Removed (held w.history) r v) (xcan_remove k (n + 1) u)
      cases (inl (z, a, c)) = remove-Ensures (n + 1) (held w.history) u a.0
      cases (inr (z, h)) = absurd (true≢false (sym z))
