-- ===== src/Netdev/Wake.antt =====
-- The calls that wake the transmit queue without a look at the ring: xcan_open, xcan_resume, and
-- xcan_do_set_mode after bus-off.
use mathlib.Core.Bool.{true≢false}
use zynq_can_sja1000_top.Common.{
  List, ◌∷◌, ℕ, ◌≡◌, ◌⊎◌, inl, inr, refl, sym, arith, some, true, Bool-cases, pos, is_nonzero,
}
use zynq_can_sja1000_top.Can.{CanMode}
use zynq_can_sja1000_top.Kernel.{Kernel, History, Event, can_clk, bus_clk}
use zynq_can_sja1000_top.Driver.{World}
use zynq_can_sja1000_top.Driver.Run.{Ensures, Ensures-some}
use zynq_can_sja1000_top.Mode.{xcan_do_set_mode}
use zynq_can_sja1000_top.Driver.Resources.{Resource, Power, held, power}
use zynq_can_sja1000_top.Mode.Restart.{restart_leaves_ring}
use zynq_can_sja1000_top.Transmit.Queue.{queue_awake}
use zynq_can_sja1000_top.Transmit.Completion.{in_flight}
use zynq_can_sja1000_top.Netdev.{xcan_open, xcan_resume, resume_can, resume_core}
use zynq_can_sja1000_top.Netdev.Ring.{Ring, open-Ring, resume-Ring}
use zynq_can_sja1000_top.Transmit.Echo.Same.{SameRing}
use zynq_can_sja1000_top.Netdev.Open.{Opened, open-Ensures, OpenedFrom}

module _ (k : Kernel) where
  -- A resume of a running interface that returns 0 starts the queue.
  resume-awake :
      (w : World)
      → ((h : History) → k.netif_running h ≡ true)
      → Ensures (λ r w'. (is_nonzero r ≡ true) ⊎ (queue_awake w'.history ≡ true)) (xcan_resume k w)
  unfolding xcan_resume resume_can resume_core
  resume-awake w running =
      let bus = k.clk_enable_result bus_clk w.history in
      let h = Event.clk_enable bus_clk bus ∷ w.history in
      elim (Bool-cases (is_nonzero bus)) [
        | inl e ↦ rw e (inl e)
        | inr e ↦ elim (Bool-cases (is_nonzero (k.clk_enable_result can_clk h))) [
          | inl z ↦ rw (e, z) (inl z)
          | inr z ↦ rw (e, z, running _) (inr refl)
        ]
      ]

  -- The calls that make the device run again, with 0 as their result.
  pub data Starts : World → World → Type 0 where
    restart :
        (fuel : ℕ) {w w' : World}
        → xcan_do_set_mode k fuel CanMode.mode_start w ≡ some (pos 0, w')
        → Starts w w'
    open_again : (fuel : ℕ) {w w' : World} → xcan_open k fuel w ≡ some (pos 0, w') → Starts w w'
    resume :
        {w w' : World}
        → ((h : History) → k.netif_running h ≡ true)
        → xcan_resume k w ≡ some (pos 0, w')
        → Starts w w'

  same_flight :
      (w w' : World) → SameRing w w' → in_flight w ≡ w.priv.tx_max → in_flight w' ≡ w'.priv.tx_max
  same_flight w w' s full = let head = s.head in let tail = s.tail in let max = s.max in omega arith

  awake-Opened :
      (w w' : World) (base : List Resource) (p : Power)
      → Opened base p (pos 0) w'
      → queue_awake w'.history ≡ true
  awake-Opened w w' base p (inl (z, h, awake)) = awake
  awake-Opened w w' base p (inr (z, h)) = absurd (true≢false (sym z))

  woken :
      (w' : World)
      → (is_nonzero (pos 0) ≡ true) ⊎ (queue_awake w'.history ≡ true)
      → queue_awake w'.history ≡ true
  woken w' (inl z) = absurd (true≢false (sym z))
  woken w' (inr a) = a

  -- With `tx_max` frames in flight, a restart after bus-off, an opening, and the resume of a
  -- running interface each leave the queue awake and the ring full when they return 0: nothing
  -- resets `tx_head` and `tx_tail`.
  pub Starts-full :
      {w w' : World}
      → Starts w w'
      → in_flight w ≡ w.priv.tx_max
      → (queue_awake w'.history ≡ true) × (in_flight w' ≡ w'.priv.tx_max)
  Starts-full (restart fuel {w} e) full = restart_leaves_ring k fuel w full e refl
  Starts-full (open_again fuel {w} {w'} e) full = (
    awake-Opened w w' (held w.history) (power w.history)
        (Ensures-some (OpenedFrom k w) (open-Ensures k fuel w) e),
    same_flight w w' (Ensures-some (Ring k w) (open-Ring k fuel w) e) full,
  )
  Starts-full (resume {w} {w'} running e) full = (
    woken w' (
        Ensures-some (λ r w'. (is_nonzero r ≡ true) ⊎ (queue_awake w'.history ≡ true))
          (resume-awake w running) e),
    same_flight w w' (Ensures-some (Ring k w) (resume-Ring k w) e) full,
  )
