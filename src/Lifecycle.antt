-- ===== src/Lifecycle.antt =====
-- The life of a device of petalinux/components/modules/xilinx_can/xilinx_can.c: xcan_probe,
-- xcan_open, xcan_close, xcan_suspend, xcan_resume and xcan_get_berr_counter, and between opening
-- and closing the calls of a running device, in any order that the kernel may choose.
pub mod Clocks
pub mod Misuse
pub mod Session
pub mod Statistics
pub mod Tests
use zynq_can_sja1000_top.Common.{ℕ, ◌≡◌, ℤ, some, false, is_nonzero, if◌then◌else◌}
use zynq_can_sja1000_top.Can.{CanMode}
use zynq_can_sja1000_top.Kernel.{Kernel}
use zynq_can_sja1000_top.Driver.{World}
use zynq_can_sja1000_top.Mode.{xcan_do_set_mode}
use zynq_can_sja1000_top.Netdev.{
  BerrCounter, xcan_open, xcan_close, xcan_get_berr_counter, xcan_suspend, xcan_resume,
}
use zynq_can_sja1000_top.Netdev.Power.{second_result}
use zynq_can_sja1000_top.Probe.{Platform, xcan_probe}
use zynq_can_sja1000_top.Probe.Ends.{IsPlatform}
use zynq_can_sja1000_top.Runtime.{Step}

-- No device; a device that is registered, and down; one that is up; and one that was up and is
-- suspended.
pub data Phase : Type 0 where
  absent registered opened asleep : Phase

-- The phase after a call that goes to `there` with the result 0, and else stays in `here`.
abbrev pub phase_after : ℤ → (there here : Phase) → Phase
phase_after r there here = if is_nonzero r then here else there

module _ (k : Kernel) where
  -- From `w0`, with no device, the kernel's calls so far led to a device in a phase.
  pub data Life (w0 : World) : Phase → World → Type 0 where
    start : Life w0 Phase.absent w0
    probe :
        (pf : Platform) {w u : World} {r : ℤ}
        → IsPlatform pf
        → Life w0 Phase.absent w
        → xcan_probe k pf w ≡ (r, u)
        → Life w0 (phase_after r Phase.registered Phase.absent) u
    open_device :
        (fuel : ℕ) {w u : World} {r : ℤ}
        → Life w0 Phase.registered w
        → xcan_open k fuel w ≡ some (r, u)
        → Life w0 (phase_after r Phase.opened Phase.registered) u
    close :
        {w u : World} {r : ℤ}
        → Life w0 Phase.opened w
        → xcan_close k w ≡ some (r, u)
        → Life w0 Phase.registered u
    run : {w u : World} → Life w0 Phase.opened w → Step k w u → Life w0 Phase.opened u
    set_mode :
        (fuel : ℕ) (mode : CanMode) {w u : World} {r : ℤ}
        → Life w0 Phase.opened w
        → xcan_do_set_mode k fuel mode w ≡ some (r, u)
        → Life w0 Phase.opened u
    count_errors :
        (bec : BerrCounter) {phase : Phase} {w u : World} {r : ℤ × BerrCounter}
        → Life w0 phase w
        → xcan_get_berr_counter k bec w ≡ some (r, u)
        → Life w0 phase u
    suspend :
        {w u : World} {r : ℤ}
        → Life w0 Phase.opened w
        → xcan_suspend k w ≡ some (r, u)
        → Life w0 Phase.asleep u
    -- The CAN clock can be enabled again: what happens otherwise is said of xcan_resume alone.
    resume :
        {w u : World} {r : ℤ}
        → Life w0 Phase.asleep w
        → is_nonzero (second_result k w) ≡ false
        → xcan_resume k w ≡ some (r, u)
        → Life w0 (phase_after r Phase.opened Phase.asleep) u
