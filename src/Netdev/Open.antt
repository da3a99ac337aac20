-- ===== src/Netdev/Open.antt =====
-- How xcan_open ends: what is held, and the clocks.
use mathlib.Core.Bool.{true≢false}
use zynq_can_sja1000_top.Common.{
  ℕ, zero, suc, ◌≡◌, ◌+◌, ◌⊎◌, inl, inr, refl, sym, ap, ◌∙◌, List, [], ◌∷◌, ◌++◌,
}
use zynq_can_sja1000_top.Common.{true, false, Bool-cases, ℤ, pos, negsuc, is_negative, is_nonzero}
use zynq_can_sja1000_top.Kernel.{Kernel, Event, can_clk, bus_clk}
use zynq_can_sja1000_top.Driver.{World, emit}
use zynq_can_sja1000_top.Driver.Run.{Ensures, Ensures-elim, Yields, Ensures-Yields}
use zynq_can_sja1000_top.Driver.Resources.{
  Resource, irq_line, can_clock, bus_clock, candev, held, Power, power, At, take, take_both,
  is_on-take_both, At-take, At-refused, At-give, Keeps-At,
}
use zynq_can_sja1000_top.Mode.Held.{Kept, set_reset_mode-Keeps, chip_start-Keeps}
use zynq_can_sja1000_top.Mode.Restart.{IsTicking}
use zynq_can_sja1000_top.Transmit.Queue.{queue_awake}
use zynq_can_sja1000_top.Netdev.{
  err_irq, err_can_clk, err_bus_clk, err_candev, open_done, open_start, open_reset, open_bus,
  open_clocks, open_irq, xcan_open,
}
use zynq_can_sja1000_top.Netdev.Returns.{xcan_open-returns}

-- What a network device that is up holds.
abbrev pub all_held : List Resource
all_held = candev ∷ bus_clock ∷ can_clock ∷ irq_line ∷ []

-- Either everything is held, both clocks are prepared and enabled once more than `p` says, and
-- the queue is awake; or the result is an error, and all is as before.
abbrev pub Opened : List Resource → Power → ℤ → World → Type 0
Opened base p r w =
    ((r ≡ pos 0) × At (all_held ++ base) (take_both p) w × (queue_awake w.history ≡ true))
    ⊎ ((is_nonzero r ≡ true) × At base p w)

pub is_negative-is_nonzero : (r : ℤ) → is_negative r ≡ true → is_nonzero r ≡ true
is_negative-is_nonzero (pos zero) h = absurd (true≢false (sym h))
is_negative-is_nonzero (pos (suc n)) h = refl
is_negative-is_nonzero (negsuc n) h = refl

-- The error path from each label: `r` is returned, and all that was acquired is released.
abbrev Undone : List Resource → Power → ℤ → ℤ × World → Type 0
Undone base p r o = (o.0 ≡ r) × At base p o.1

module _ (base : List Resource) (p : Power) (r : ℤ) (w : World) where
  err_irq-Undone : At (irq_line ∷ base) p w → Undone base p r (err_irq r w)
  unfolding err_irq
  err_irq-Undone a = (refl, (rw a.0 refl, a.1))

  err_can_clk-Undone :
      At (can_clock ∷ irq_line ∷ base) (take can_clk p) w → Undone base p r (err_can_clk r w)
  unfolding err_can_clk err_irq
  err_can_clk-Undone a = let b = At-give can_clk w a in (refl, (rw b.0 refl, b.1))

  err_bus_clk-Undone :
      At (bus_clock ∷ can_clock ∷ irq_line ∷ base) (take_both p) w
      → Undone base p r (err_bus_clk r w)
  unfolding err_bus_clk err_can_clk err_irq
  err_bus_clk-Undone a =
      let u = (emit (Event.clk_disable_unprepare bus_clk) w).1 in
      let b = At-give can_clk u (At-give bus_clk w a) in (refl, (rw b.0 refl, b.1))

  err_candev-Undone : At (all_held ++ base) (take_both p) w → Undone base p r (err_candev r w)
  unfolding err_candev err_bus_clk err_can_clk err_irq
  err_candev-Undone a =
      let u = (emit Event.close_candev w).1 in
      let v = (emit (Event.clk_disable_unprepare bus_clk) u).1 in
      let closed : At (bus_clock ∷ can_clock ∷ irq_line ∷ base) (take_both p) u =
        (rw a.0 refl, a.1) in
      let b = At-give can_clk v (At-give bus_clk u closed) in (refl, (rw b.0 refl, b.1))

Undone-Opened :
    (base : List Resource) (p : Power) (r : ℤ) (o : ℤ × World)
    → is_nonzero r ≡ true
    → Undone base p r o
    → Opened base p o.0 o.1
Undone-Opened base p r o z (e, a) = inr (ap is_nonzero e ∙ z, a)

module _ (k : Kernel) where
  module _ (base : List Resource) (p : Power) where
    open_done-Opened :
        (r : ℤ) (w : World)
        → At (all_held ++ base) (take_both p) w
        → Ensures (Opened base p) (open_done k r w)
    unfolding open_done
    open_done-Opened r w a = elim (Bool-cases (is_negative r)) [
      | inl e ↦ rw e (
          Undone-Opened base p r (err_candev r w) (is_negative-is_nonzero r e)
            (err_candev-Undone base p r w a))
      | inr e ↦ rw e (inl (refl, a, refl))
    ]

    open_start-Opened :
        (fuel : ℕ) (r : ℤ) (w : World)
        → ((is_nonzero r ≡ true) × At (bus_clock ∷ can_clock ∷ irq_line ∷ base) (take_both p) w)
          ⊎ ((is_nonzero r ≡ false) × At (all_held ++ base) (take_both p) w)
        → Ensures (Opened base p) (open_start k fuel r w)
    unfolding open_start
    open_start-Opened fuel r w (inl (e, a)) =
        rw e (Undone-Opened base p r (err_bus_clk r w) e (err_bus_clk-Undone base p r w a))
    open_start-Opened fuel r w (inr (e, a)) = rw e (
        Ensures-elim (Kept w) (Opened base p) _ _ (chip_start-Keeps k fuel w)
          (λ s v q. open_done-Opened s v (Keeps-At q (is_on-take_both p) a)))

    open_reset-Opened :
        (fuel : ℕ) (r : ℤ) (w : World)
        → At (bus_clock ∷ can_clock ∷ irq_line ∷ base) (take_both p) w
        → Ensures (Opened base p) (open_reset k fuel r w)
    unfolding open_reset
    open_reset-Opened fuel r w a =
        let opened = k.open_candev_result w.history in
        elim (Bool-cases (is_negative r)) [
          | inl e ↦ rw e (
              Undone-Opened base p r (err_bus_clk r w) (is_negative-is_nonzero r e)
                (err_bus_clk-Undone base p r w a))
          | inr e ↦ elim (Bool-cases (is_nonzero opened)) [
            | inl z ↦ rw e (open_start-Opened fuel _ _ (inl (z, (rw (z, a.0) refl, a.1))))
            | inr z ↦ rw e (open_start-Opened fuel _ _ (inr (z, (rw (z, a.0) refl, a.1))))
          ]
        ]

    open_bus-Opened :
        (fuel : ℕ) (r : ℤ) (w : World)
        → ((is_nonzero r ≡ true) × At (can_clock ∷ irq_line ∷ base) (take can_clk p) w)
          ⊎ ((is_nonzero r ≡ false) × At (bus_clock ∷ can_clock ∷ irq_line ∷ base) (take_both p) w)
        → Ensures (Opened base p) (open_bus k fuel r w)
    unfolding open_bus
    open_bus-Opened fuel r w (inl (e, a)) =
        rw e (Undone-Opened base p r (err_can_clk r w) e (err_can_clk-Undone base p r w a))
    open_bus-Opened fuel r w (inr (e, a)) = rw e (
        Ensures-elim (Kept w) (Opened base p) _ _ (set_reset_mode-Keeps k fuel w)
          (λ s v q. open_reset-Opened fuel s v (Keeps-At q (is_on-take_both p) a)))

    open_clocks-Opened :
        (fuel : ℕ) (r : ℤ) (w : World)
        → ((is_nonzero r ≡ true) × At (irq_line ∷ base) p w)
          ⊎ ((is_nonzero r ≡ false) × At (can_clock ∷ irq_line ∷ base) (take can_clk p) w)
        → Ensures (Opened base p) (open_clocks k fuel r w)
    unfolding open_clocks
    open_clocks-Opened fuel r w (inl (e, a)) =
        rw e (Undone-Opened base p r (err_irq r w) e (err_irq-Undone base p r w a))
    open_clocks-Opened fuel r w (inr (e, a)) =
        let bus = k.clk_prepare_enable_result bus_clk w.history in
        elim (Bool-cases (is_nonzero bus)) [
          | inl z ↦ rw e (open_bus-Opened fuel _ _ (inl (z, At-refused bus_clk bus w z a)))
          | inr z ↦ rw e (open_bus-Opened fuel _ _ (inr (z, At-take bus_clk bus w z a)))
        ]

    open_irq-Opened :
        (fuel : ℕ) (r : ℤ) (w : World)
        → ((is_negative r ≡ true) × At base p w)
          ⊎ ((is_negative r ≡ false) × At (irq_line ∷ base) p w)
        → Ensures (Opened base p) (open_irq k fuel r w)
    unfolding open_irq
    open_irq-Opened fuel r w (inl (e, a)) = rw e (inr (is_negative-is_nonzero r e, a))
    open_irq-Opened fuel r w (inr (e, a)) =
        let can = k.clk_prepare_enable_result can_clk w.history in
        elim (Bool-cases (is_nonzero can)) [
          | inl z ↦ rw e (open_clocks-Opened fuel _ _ (inl (z, At-refused can_clk can w z a)))
          | inr z ↦ rw e (open_clocks-Opened fuel _ _ (inr (z, At-take can_clk can w z a)))
        ]

  abbrev pub OpenedFrom : World → ℤ → World → Type 0
  OpenedFrom w = Opened (held w.history) (power w.history)

  pub open-Ensures : (fuel : ℕ) (w : World) → Ensures (OpenedFrom w) (xcan_open k fuel w)
  unfolding xcan_open
  open-Ensures fuel w =
      let base = held w.history in
      let p = power w.history in
      elim (Bool-cases (is_negative (k.request_irq_result w.history))) [
        | inl z ↦ open_irq-Opened base p fuel _ _ (inl (z, (rw z refl, refl)))
        | inr z ↦ open_irq-Opened base p fuel _ _ (inr (z, (rw z refl, refl)))
      ]

  -- Where a second is over within `n` events, xcan_open returns, `n + 1` rounds of its loops being
  -- enough. Either its result is 0, it holds the interrupt, both clocks and the open CAN device
  -- besides what was held, both clocks are enabled and prepared once more than before, and the
  -- queue is awake; or its result is an error, and what is held and the clocks are as before. In
  -- both cases no register is accessed while a clock is off.
  pub xcan_open-Opened :
      (n : ℕ) (w : World) → IsTicking k n → Yields (OpenedFrom w) (xcan_open k (n + 1) w)
  xcan_open-Opened n w clock =
      Ensures-Yields (xcan_open k (n + 1) w) (xcan_open-returns k n w clock)
        (open-Ensures (n + 1) w)
