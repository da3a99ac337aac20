-- ===== src/Netdev/Ring.antt =====
-- The calls between which the device runs, and the transmit ring: they leave its counters and its
-- echo slots alone.
use zynq_can_sja1000_top.Common.{ℕ, ◌≡◌, ◌⊎◌, arith, false}
use zynq_can_sja1000_top.Can.{CanMode}
use zynq_can_sja1000_top.Kernel.{Kernel}
use zynq_can_sja1000_top.Driver.{World}
use zynq_can_sja1000_top.Driver.Run.{Ensures}
use zynq_can_sja1000_top.Mode.{xcan_do_set_mode}
use zynq_can_sja1000_top.Mode.Stable.{IsStable, do_set_mode-Stable}
use zynq_can_sja1000_top.Transmit.Queue.{queue_awake}
use zynq_can_sja1000_top.Transmit.Echo.Same.{SameRing, SameRing-refl, SameRing-trans}
use zynq_can_sja1000_top.Netdev.{
  BerrCounter, xcan_open, xcan_close, xcan_chip_stop, xcan_suspend, xcan_resume,
  xcan_get_berr_counter, berr_bus, read_counters,
}
use zynq_can_sja1000_top.Netdev.Stable.{IsCallStable, open-Stable}
use zynq_can_sja1000_top.Netdev.Stable.Sleep.{resume-Stable}

module _ (k : Kernel) where
  abbrev pub Ring : {A : Type 0} → World → A → World → Type 0
  Ring w r w' = SameRing w w'

  SameRing-IsStable : IsStable k SameRing
  SameRing-IsStable = record {
    same = SameRing-refl;
    trans = SameRing-trans;
    read = λ r w. ground arith;
    write = λ r x w. ground arith;
    sleep = λ w. ground arith;
    state = λ s w. ground arith;
  }

  pub SameRing-IsCallStable : IsCallStable k SameRing
  SameRing-IsCallStable = record { start = SameRing-IsStable; call = λ e w h. ground arith }

  pub do_set_mode-Ring :
      (fuel : ℕ) (mode : CanMode) (w : World) → Ensures (Ring w) (xcan_do_set_mode k fuel mode w)
  do_set_mode-Ring = do_set_mode-Stable k SameRing SameRing-IsStable (λ w. ground arith)

  pub open-Ring : (fuel : ℕ) (w : World) → Ensures (Ring w) (xcan_open k fuel w)
  open-Ring = open-Stable k SameRing SameRing-IsCallStable

  pub resume-Ring : (w : World) → Ensures (Ring w) (xcan_resume k w)
  resume-Ring = resume-Stable k SameRing SameRing-IsCallStable

  -- A call that leaves the ring alone and does not wake the queue.
  abbrev pub Quiet : {A : Type 0} → World → A → World → Type 0
  Quiet w r w' =
      SameRing w w'
      × ((queue_awake w'.history ≡ false) ⊎ (queue_awake w'.history ≡ queue_awake w.history))

  pub close-Quiet : (w : World) → Ensures (Quiet w) (xcan_close k w)
  unfolding xcan_close xcan_chip_stop
  close-Quiet w = ground arith

  pub suspend-Quiet : (w : World) → Ensures (Quiet w) (xcan_suspend k w)
  unfolding xcan_suspend
  suspend-Quiet w = ground arith

  pub get_berr_counter-Quiet :
      (bec : BerrCounter) (w : World) → Ensures (Quiet w) (xcan_get_berr_counter k bec w)
  unfolding xcan_get_berr_counter berr_bus read_counters
  get_berr_counter-Quiet bec w = ground arith
