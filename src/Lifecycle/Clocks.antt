-- ===== src/Lifecycle/Clocks.antt =====
-- What a device holds in each phase of its life, and that its clocks are on whenever a register
-- is accessed.
use zynq_can_sja1000_top.Common.{
  ◌≡◌, ◌⊎◌, inl, inr, refl, ap, sym, ◌∙◌, arith, List, ◌++◌, ℤ, pos, some, true, false, is_nonzero,
}
use mathlib.Core.Path.{subst}
use mathlib.Core.Bool.{true≢false}
use mathlib.Core.Option.{some-injective}
use zynq_can_sja1000_top.Probe.{Platform}
use zynq_can_sja1000_top.Kernel.{Kernel}
use zynq_can_sja1000_top.Driver.{World}
use zynq_can_sja1000_top.Driver.Run.{Ensures-some, Yields}
use zynq_can_sja1000_top.Driver.Resources.{
  Resource, device, held, Power, power, is_on, At, take_both, is_on-take_both, Keeps, Keeps-At,
}
use zynq_can_sja1000_top.Mode.Held.{Kept, do_set_mode-Keeps}
use zynq_can_sja1000_top.Netdev.{xcan_close}
use zynq_can_sja1000_top.Netdev.Open.{all_held, OpenedFrom, open-Ensures}
use zynq_can_sja1000_top.Netdev.Close.{
  IsDown, close-IsDown, BerrEnds, xcan_get_berr_counter-BerrEnds,
}
use zynq_can_sja1000_top.Netdev.Power.{
  enable_both, disable_both, enable_both-disable_both, Suspended, suspend-Suspended, ResumeEnds,
  xcan_resume-ResumeEnds, second_result,
}
use zynq_can_sja1000_top.Probe.Ends.{ProbedFrom, xcan_probe-Probed}
use zynq_can_sja1000_top.Runtime.Keeps.{Step-Keeps}
use zynq_can_sja1000_top.Lifecycle.{
  Phase, absent, registered, opened, asleep, phase_after, Life, start, probe, open_device, close,
  run, set_mode, count_errors, suspend, resume,
}

-- What is held in a phase, besides `base`.
abbrev pub resources : Phase → List Resource → List Resource
resources absent base = base
resources registered base = device ++ base
resources opened base = all_held ++ (device ++ base)
resources asleep base = all_held ++ (device ++ base)

-- The counts of the clocks in a phase, where they were `p` without a device: an open device has
-- both prepared and enabled once more, a suspended one prepared only.
abbrev pub clocks : Phase → Power → Power
clocks absent p = p
clocks registered p = p
clocks opened p = take_both p
clocks asleep p = disable_both (take_both p)

abbrev pub InPhase : World → Phase → World → Type 0
InPhase w0 phase w = At (resources phase (held w0.history)) (clocks phase (power w0.history)) w

clocks-faults : (phase : Phase) (p : Power) → (clocks phase p).faults ≡ p.faults
clocks-faults absent p = refl
clocks-faults registered p = refl
clocks-faults opened p = refl
clocks-faults asleep p = ground arith

clocks-warnings : (phase : Phase) (p : Power) → (clocks phase p).warnings ≡ p.warnings
clocks-warnings absent p = refl
clocks-warnings registered p = refl
clocks-warnings opened p = refl
clocks-warnings asleep p = ground arith

settle :
    (P : Phase → Type 0) (r : ℤ) (there back : Phase)
    → ((r ≡ pos 0) × P there) ⊎ ((is_nonzero r ≡ true) × P back)
    → P (phase_after r there back)
settle P r there back (inl (e, h)) = rw e h
settle P r there back (inr (e, h)) = rw e h

-- What is true of `u` by what is held in `w`, where that is known.
At-via :
    (f : List Resource → List Resource) (g : Power → Power) (rs : List Resource) (p : Power)
    (w u : World)
    → At rs p w
    → At (f (held w.history)) (g (power w.history)) u
    → At (f rs) (g p) u
At-via f g rs p w u a b = (b.0 ∙ ap f a.0, b.1 ∙ ap g a.1)

module _ (k : Kernel) (w0 : World) where
  Keeps-InPhase : {w u : World} → Keeps w u → InPhase w0 opened w → InPhase w0 opened u
  Keeps-InPhase s a = Keeps-At s (is_on-take_both (power w0.history)) a

  probed-InPhase :
      (pf : Platform) (w u : World) (r : ℤ)
      → InPhase w0 absent w
      → ProbedFrom k pf w r u
      → InPhase w0 (phase_after r registered absent) u
  probed-InPhase pf w u r a (inl (z, b, c)) =
      settle (λ phase. InPhase w0 phase u) r registered absent
        (inl (z, At-via (resources registered) (clocks registered) _ _ w u a b))
  probed-InPhase pf w u r a (inr (z, b)) =
      settle (λ phase. InPhase w0 phase u) r registered absent
        (inr (z, At-via (resources absent) (clocks absent) _ _ w u a b))

  opened-InPhase :
      (w u : World) (r : ℤ)
      → InPhase w0 registered w
      → OpenedFrom k w r u
      → InPhase w0 (phase_after r opened registered) u
  opened-InPhase w u r a (inl (z, b, c)) =
      settle (λ phase. InPhase w0 phase u) r opened registered
        (inl (z, At-via (λ rs. all_held ++ rs) take_both _ _ w u a b))
  opened-InPhase w u r a (inr (z, b)) =
      settle (λ phase. InPhase w0 phase u) r opened registered
        (inr (z, At-via (λ rs. rs) (λ p. p) _ _ w u a b))

  resumed-InPhase :
      (w u : World) (r : ℤ)
      → InPhase w0 asleep w
      → is_nonzero (second_result k w) ≡ false
      → ResumeEnds k w r u
      → InPhase w0 (phase_after r opened asleep) u
  resumed-InPhase w u r a can (inl (z, b, c)) =
      let p = power w0.history in
      let on = enable_both-disable_both (take_both p) (is_on-take_both p) in
      settle (λ phase. InPhase w0 phase u) r opened asleep
        (inl (z, (b.0 ∙ a.0, b.1 ∙ ap enable_both a.1 ∙ on)))
  resumed-InPhase w u r a can (inr (inl (z, e, b, c))) =
      settle (λ phase. InPhase w0 phase u) r opened asleep
        (inr (z, At-via (λ rs. rs) (λ p. p) _ _ w u a b))
  resumed-InPhase w u r a can (inr (inr (z, e, _, _, _))) =
      absurd (true≢false (sym z ∙ ap is_nonzero e ∙ can))

  close_result :
      (base : List Resource) (p : Power) (w u : World) (r : ℤ)
      → Yields (λ s v. (s ≡ pos 0) × IsDown base p w v) (xcan_close k w)
      → xcan_close k w ≡ some (r, u)
      → IsDown base p w u
  close_result base p w u r (s, v, e, (z, down)) h =
      subst (λ (x : ℤ × World). IsDown base p w x.1) (some-injective _ _ (sym e ∙ h)) down

  Life-InPhase : {phase : Phase} {w : World} → Life k w0 phase w → InPhase w0 phase w
  Life-InPhase start = (refl, refl)
  Life-InPhase (probe pf {w} {u} {r} ok l e) =
      probed-InPhase pf w u r (Life-InPhase l)
        (subst (λ (x : ℤ × World). ProbedFrom k pf w x.0 x.1) e (xcan_probe-Probed k pf w ok))
  Life-InPhase (open_device fuel {w} {u} {r} l e) =
      opened-InPhase w u r (Life-InPhase l)
        (Ensures-some (OpenedFrom k w) (open-Ensures k fuel w) e)
  Life-InPhase (close {w} {u} {r} l e) =
      let base = device ++ held w0.history in
      let p = power w0.history in
      (close_result base p w u r (close-IsDown k base p w (Life-InPhase l)) e).released
  Life-InPhase (run l s) = Keeps-InPhase (Step-Keeps k s) (Life-InPhase l)
  Life-InPhase (set_mode fuel mode {w} l e) =
      Keeps-InPhase (Ensures-some (Kept w) (do_set_mode-Keeps k fuel mode w) e) (Life-InPhase l)
  Life-InPhase (count_errors bec {phase} {w} {u} l e) =
      let ends = Ensures-some (BerrEnds k bec w) (xcan_get_berr_counter-BerrEnds k bec w).1 e in
      At-via (λ rs. rs) (λ p. p) _ _ w u (Life-InPhase l) ends.1.0
  Life-InPhase (suspend {w} {u} l e) =
      let a = Life-InPhase l in
      let on = ap is_on a.1 ∙ is_on-take_both (power w0.history) in
      let s = Ensures-some (Suspended k w) (suspend-Suspended k w on) e in
      (s.1.0 ∙ a.0, s.1.1 ∙ ap disable_both a.1)
  Life-InPhase (resume {w} {u} {r} l can e) =
      resumed-InPhase w u r (Life-InPhase l) can
        (Ensures-some (ResumeEnds k w) (xcan_resume-ResumeEnds k w).1 e)

  -- Take any sequence of these calls, where the errors of the platform are errors: a probe without
  -- a device; an opening of a device that is down; for one that is up transmissions while the
  -- queue is awake, interrupts, polls that return, changes of the mode, a closing or a suspend; a
  -- resume of a suspended device whose CAN clock can be enabled again; and reads of the error
  -- counters in any phase. A removal, a suspend of a device that is down and a resume whose CAN
  -- clock fails are not among them. Then a device holds exactly what belongs to its phase besides
  -- what was held without it, registered and with its NAPI context, and its clocks have the counts
  -- of the phase: down they are as without a device; up, both are prepared and enabled once more;
  -- suspended, they are prepared once more and enabled as without a device. Since there was no
  -- device, no register was accessed while a clock was off, and no clock was disabled or
  -- unprepared more often than it could be.
  pub Life-IsClocked :
      {phase : Phase} {w : World}
      → Life k w0 phase w
      → InPhase w0 phase w
        × ((power w.history).faults ≡ (power w0.history).faults)
        × ((power w.history).warnings ≡ (power w0.history).warnings)
  Life-IsClocked {phase} l =
      let a = Life-InPhase l in
      (
        a,
        ap (λ (p : Power). p.faults) a.1 ∙ clocks-faults phase (power w0.history),
        ap (λ (p : Power). p.warnings) a.1 ∙ clocks-warnings phase (power w0.history),
      )
