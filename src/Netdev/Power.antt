-- ===== src/Netdev/Power.antt =====
-- The clocks over xcan_suspend and xcan_resume.
use mathlib.Core.Bool.{true≢false}
use zynq_can_sja1000_top.Common.{◌≡◌, ◌≢◌, ◌<◌, ◌⊎◌, inl, inr, refl, ap, sym, ◌∙◌, arith, ◌∷◌}
use zynq_can_sja1000_top.Common.{none, some, true, false, Bool-cases, ℤ, pos, is_nonzero}
use zynq_can_sja1000_top.Can.{CanState}
use zynq_can_sja1000_top.Kernel.{Kernel, Event, can_clk, bus_clk}
use zynq_can_sja1000_top.Driver.{World, Priv}
use zynq_can_sja1000_top.Driver.Run.{Ensures, Ensures-map, Ensures-some}
use zynq_can_sja1000_top.Driver.Resources.{
  Power, power, held, is_on, enable, disable, unprepare, give, At, release, bus_clock,
}
use zynq_can_sja1000_top.Netdev.{xcan_suspend, xcan_resume, resume_can, resume_core}

abbrev pub enable_both : Power → Power
enable_both p = enable can_clk (enable bus_clk p)

abbrev pub disable_both : Power → Power
disable_both p = disable can_clk (disable bus_clk p)

pub enable_both-disable_both : (p : Power) → is_on p ≡ true → enable_both (disable_both p) ≡ p
enable_both-disable_both p on = ground arith

-- The same is held, and the clocks have the counts `p`.
abbrev pub Leaves : Power → World → World → Type 0
Leaves p w w' = At (held w.history) p w'

module _ (k : Kernel) where
  -- The result of `clk_enable` for the CAN clock, which xcan_resume enables second.
  abbrev pub second_result : World → ℤ
  second_result w =
      k.clk_enable_result can_clk
        (Event.clk_enable bus_clk (k.clk_enable_result bus_clk w.history) ∷ w.history)

  -- Behind both calls.
  abbrev pub clocks_on : World → World
  clocks_on w = record w {
    history =
        Event.clk_enable can_clk (second_result w)
        ∷ Event.clk_enable bus_clk (k.clk_enable_result bus_clk w.history)
        ∷ w.history;
  }

  abbrev pub Resumed : World → ℤ → World → Type 0
  Resumed w r w' =
      (r ≡ pos 0)
      × Leaves (enable_both (power w.history)) w w'
      × (w'.priv ≡ record w.priv { can_state = CanState.error_active })

  abbrev pub ResumeEnds : World → ℤ → World → Type 0
  ResumeEnds w r w' =
      Resumed w r w'
      ⊎ ((is_nonzero r ≡ true)
          × (r ≡ k.clk_enable_result bus_clk w.history)
          × Leaves (power w.history) w w'
          × (w'.priv ≡ w.priv))
      ⊎ ((is_nonzero r ≡ true)
          × (r ≡ second_result w)
          × (held w'.history ≡ release bus_clock (held w.history))
          × (power w'.history ≡ unprepare bus_clk (power w.history))
          × (w'.priv ≡ w.priv))

  resume_core-Resumed :
      (w u : World)
      → u.priv ≡ w.priv
      → Leaves (enable_both (power w.history)) w u
      → Ensures (Resumed w) (resume_core k u)
  unfolding resume_core
  resume_core-Resumed w u p a = ground arith

  resume_core-returns : (w : World) → resume_core k w ≢ none
  unfolding resume_core
  resume_core-returns w = ground arith

  give-enable : (p : Power) → give bus_clk (enable bus_clk p) ≡ unprepare bus_clk p
  give-enable p = ground arith

  resume_can-ResumeEnds :
      (w : World)
      → is_nonzero (k.clk_enable_result bus_clk w.history) ≡ false
      → (resume_can k (second_result w) (clocks_on w) ≢ none)
        × Ensures (ResumeEnds w) (resume_can k (second_result w) (clocks_on w))
  unfolding resume_can
  resume_can-ResumeEnds w z = elim (Bool-cases (is_nonzero (second_result w))) [
    | inl e ↦
        rw e ((λ x. cc), inr (inr (e, refl, refl, rw (z, e) (give-enable (power w.history)), refl)))
    | inr e ↦ rw e (
      resume_core-returns (clocks_on w),
      Ensures-map (resume_core k (clocks_on w)) (λ r w' p. inl p)
          (resume_core-Resumed w (clocks_on w) refl (refl, rw (z, e) refl)),
    )
  ]

  -- xcan_resume always ends in one of three ways: with 0, both clocks enabled once more than
  -- before, and the controller error-active; with the error of the bus clock and nothing changed;
  -- or with the error of the CAN clock, both clocks enabled as often as before, but the bus clock
  -- unprepared once, since the error path undoes a `clk_enable` with `clk_disable_unprepare`. What
  -- is held changes in the third way only, and no register is accessed while a clock is off.
  pub xcan_resume-ResumeEnds :
      (w : World) → (xcan_resume k w ≢ none) × Ensures (ResumeEnds w) (xcan_resume k w)
  unfolding xcan_resume
  xcan_resume-ResumeEnds w =
      elim (Bool-cases (is_nonzero (k.clk_enable_result bus_clk w.history))) [
        | inl e ↦ rw e ((λ x. cc), inr (inl (e, refl, (refl, rw e refl), refl)))
        | inr e ↦ rw e (resume_can-ResumeEnds w e)
      ]

  -- Suspended from `w`: both clocks enabled once less.
  abbrev pub Suspended : World → ℤ → World → Type 0
  Suspended w r w' =
      (r ≡ pos 0)
      × Leaves (disable_both (power w.history)) w w'
      × (w'.priv ≡ record w.priv { can_state = CanState.sleeping })

  pub suspend-Suspended :
      (w : World) → is_on (power w.history) ≡ true → Ensures (Suspended w) (xcan_suspend k w)
  unfolding xcan_suspend
  suspend-Suspended w on = ground arith

  pub back-Resumed :
      (w u v : World)
      → is_on (power w.history) ≡ true
      → Suspended w (pos 0) u
      → Resumed u (pos 0) v
      → Leaves (power w.history) w v
        × (v.priv ≡ record w.priv { can_state = CanState.error_active })
  back-Resumed w u v on s b = (
    (b.1.0 ∙ s.1.0, b.1.1 ∙ ap enable_both s.1.1 ∙ enable_both-disable_both (power w.history) on),
    b.2 ∙ ap (λ (p : Priv). record p { can_state = CanState.error_active }) s.2,
  )

  -- With both clocks enabled, after an xcan_suspend, which returns 0, and an xcan_resume that
  -- returned 0, both clocks are enabled and prepared as often as before, the same is held, no
  -- register was accessed while a clock was off, and nothing of the driver's state has changed but
  -- that the controller is error-active.
  pub xcan_resume-xcan_suspend :
      (w u v : World) {r : ℤ}
      → is_on (power w.history) ≡ true
      → xcan_suspend k w ≡ some (r, u)
      → xcan_resume k u ≡ some (pos 0, v)
      → (r ≡ pos 0)
        × Leaves (power w.history) w v
        × (v.priv ≡ record w.priv { can_state = CanState.error_active })
  xcan_resume-xcan_suspend w u v {r} on down up =
      cases (Ensures-some (ResumeEnds u) (xcan_resume-ResumeEnds u).1 up)
    where
      gone : Suspended w r u
      gone = Ensures-some (Suspended w) (suspend-Suspended w on) down

      cases :
          ResumeEnds u (pos 0) v
          → (r ≡ pos 0)
            × Leaves (power w.history) w v
            × (v.priv ≡ record w.priv { can_state = CanState.error_active })
      cases (inl b) =
          let back = back-Resumed w u v on (refl, gone.1, gone.2) b in (gone.0, back.0, back.1)
      cases (inr (inl (e, _, _, _))) = absurd (true≢false (sym e))
      cases (inr (inr (e, _, _, _, _))) = absurd (true≢false (sym e))

  -- With a clock off, the first access of xcan_suspend is a fault.
  pub suspend-faults :
      (w : World)
      → is_on (power w.history) ≡ false
      → Ensures (λ r u. (power w.history).faults < (power u.history).faults) (xcan_suspend k w)
  unfolding xcan_suspend
  suspend-faults w off = ground arith
