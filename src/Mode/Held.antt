-- ===== src/Mode/Held.antt =====
-- The waiting loops and the start of the core acquire and release nothing, and leave the clocks
-- as they are.
use zynq_can_sja1000_top.Common.{ℕ, ◌≡◌, ◌≤◌, ◌<◌, refl, arith, false}
use native.Mathlib.Nat.{le_refl, le_trans}
use zynq_can_sja1000_top.Registers.{srr, srr_reset_mask}
use zynq_can_sja1000_top.Can.{CanMode}
use zynq_can_sja1000_top.Kernel.{Kernel}
use zynq_can_sja1000_top.Driver.{World, write_reg}
use zynq_can_sja1000_top.Driver.Run.{Ensures, Ensures-map}
use zynq_can_sja1000_top.Driver.Resources.{Keeps, Keeps-trans, power, is_on}
use zynq_can_sja1000_top.Mode.{
  wait_config, deadline, set_reset_mode, xcan_chip_start, xcan_do_set_mode,
}
use zynq_can_sja1000_top.Mode.Stable.{
  IsStable, wait_config-Stable, set_reset_mode-Stable, chip_start-Stable, do_set_mode-Stable,
}

abbrev pub Kept : {A : Type 0} → World → A → World → Type 0
Kept w r w' = Keeps w w'

-- No fault is taken back.
abbrev NoFewer : World → World → Type 0
NoFewer w u = (power w.history).faults ≤ (power u.history).faults

module _ (k : Kernel) where
  Keeps-IsStable : IsStable k Keeps
  Keeps-IsStable = record {
    same = λ w. record { resources = refl; clocks = λ on. refl };
    trans = Keeps-trans;
    read = λ r w. ground arith;
    write = λ r x w. ground arith;
    sleep = λ w. ground arith;
    state = λ s w. ground arith;
  }

  NoFewer-IsStable : IsStable k NoFewer
  NoFewer-IsStable = record {
    same = λ w. le_refl (power w.history).faults;
    trans = le_trans;
    read = λ r w. ground arith;
    write = λ r x w. ground arith;
    sleep = λ w. ground arith;
    state = λ s w. ground arith;
  }

  pub set_reset_mode-Keeps : (fuel : ℕ) (w : World) → Ensures (Kept w) (set_reset_mode k fuel w)
  set_reset_mode-Keeps = set_reset_mode-Stable k Keeps Keeps-IsStable

  pub chip_start-Keeps : (fuel : ℕ) (w : World) → Ensures (Kept w) (xcan_chip_start k fuel w)
  chip_start-Keeps = chip_start-Stable k Keeps Keeps-IsStable

  pub do_set_mode-Keeps :
      (fuel : ℕ) (mode : CanMode) (w : World) → Ensures (Kept w) (xcan_do_set_mode k fuel mode w)
  do_set_mode-Keeps = do_set_mode-Stable k Keeps Keeps-IsStable (λ w. ground arith)

  -- With a clock off, the reset is a fault.
  pub set_reset_mode-faults :
      (fuel : ℕ) (w : World)
      → is_on (power w.history) ≡ false
      → Ensures
          (λ r u. (power w.history).faults < (power u.history).faults)
          (set_reset_mode k fuel w)
  unfolding set_reset_mode
  set_reset_mode-faults fuel w off =
      let u = (write_reg srr srr_reset_mask w).1 in
      let reset : (power w.history).faults < (power u.history).faults = ground arith in
      Ensures-map (wait_config k fuel (deadline k u) u) (λ r x q. omega (arith, reset, q))
        (wait_config-Stable k NoFewer NoFewer-IsStable fuel (deadline k u) u)
