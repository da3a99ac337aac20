-- ===== src/Netdev/Close.antt =====
-- What xcan_close and the other functions that take the clocks leave behind.
use mathlib.Core.Bool.{true≢false}
use zynq_can_sja1000_top.Common.{
  ℕ, ◌≡◌, ◌≢◌, ◌-◌, ◌^◌, ◌⊎◌, inl, inr, refl, sym, List, ◌∷◌, ◌++◌, bit_and, ◌<◌, ◌>>>◌, arith,
}
use zynq_can_sja1000_top.Common.{some, none, true, false, Bool-cases, ℤ, pos, is_nonzero, u32}
use zynq_can_sja1000_top.Common.Bits.{bit_and_low, bit_and_field}
use zynq_can_sja1000_top.Registers.{
  ier, srr, intr_all, ecr, ecr_tec_mask, ecr_rec_mask, esr_rec_shift, srr_reset_mask,
}
use zynq_can_sja1000_top.Can.{CanState}
use zynq_can_sja1000_top.Kernel.{Kernel, Event, can_clk, bus_clk}
use zynq_can_sja1000_top.Driver.{World, emit, read_reg}
use zynq_can_sja1000_top.Driver.Run.{Ensures, Ensures-some, Yields}
use zynq_can_sja1000_top.Mode.Wait.{reg_writes}
use zynq_can_sja1000_top.Driver.Resources.{
  Resource, Power, held, power, At, take_both, is_on-take_both, give-take_both, here, At-take,
  At-refused, At-give, Keeps, Keeps-At,
}
use zynq_can_sja1000_top.Transmit.Queue.{queue_awake}
use zynq_can_sja1000_top.Netdev.{
  BerrCounter, xcan_close, xcan_chip_stop, xcan_open, read_counters, berr_bus,
  xcan_get_berr_counter,
}
use zynq_can_sja1000_top.Netdev.Open.{all_held, OpenedFrom, open-Ensures}

-- The device is down: the queue is stopped, the state too, `base` is held, the clocks have the
-- counts `p`, and the last two register writes disabled the interrupts and reset the core.
pub record IsDown (base : List Resource) (p : Power) (w w' : World) : Type 0 where
  pub stopped : queue_awake w'.history ≡ false
  pub released : At base p w'
  pub state : w'.priv ≡ record w.priv { can_state = CanState.stopped }
  pub stats : w'.stats ≡ w.stats
  pub enabled : ℕ
  pub writes :
      reg_writes w'.history
      ≡ (srr, srr_reset_mask)
        ∷ (ier, u32 (bit_and enabled (2 ^ 32 - 1 - intr_all)))
        ∷ reg_writes w.history

tec-lt : (x : ℕ) → bit_and x ecr_tec_mask < 256
tec-lt x = omega (arith, bit_and_low 8 x)

rec-lt : (x : ℕ) → bit_and x ecr_rec_mask >>> esr_rec_shift < 256
rec-lt x = omega (arith, bit_and_field 8 8 x)

module _ (k : Kernel) where
  -- Stopping the core takes its accesses of registers, while the clocks are on.
  chip_stop-Keeps : (w : World) → Keeps w (xcan_chip_stop k w)
  unfolding xcan_chip_stop
  chip_stop-Keeps w = ground arith

  pub close-IsDown :
      (base : List Resource) (p : Power) (w : World)
      → At (all_held ++ base) (take_both p) w
      → Yields (λ r w'. (r ≡ pos 0) × IsDown base p w w') (xcan_close k w)
  unfolding xcan_close xcan_chip_stop
  close-IsDown base p w a =
      let u = (emit Event.napi_disable (emit Event.netif_stop_queue w).1).1 in
      let stop = Keeps-At (chip_stop-Keeps u) (is_on-take_both p) a in
      (
        pos 0,
        _,
        refl,
        (
          refl,
          record {
            stopped = refl;
            released = (rw stop.0 refl, rw stop.1 (give-take_both p));
            state = refl;
            stats = refl;
            enabled = (read_reg k ier u).0;
            writes = refl;
          },
        ),
      )

  -- After an xcan_open that returned 0, xcan_close returns, with 0, and the device is down: the
  -- queue is stopped, the interrupts disabled and the core reset, everything that xcan_open
  -- acquired is released, and the clocks are enabled and prepared as often as before the opening,
  -- without an access of a register while one was off.
  pub xcan_close-xcan_open :
      (fuel : ℕ) (w v : World)
      → xcan_open k fuel w ≡ some (pos 0, v)
      → Yields
          (λ r w'. (r ≡ pos 0) × IsDown (held w.history) (power w.history) v w')
          (xcan_close k v)
  xcan_close-xcan_open fuel w v h = cases (Ensures-some (OpenedFrom k w) (open-Ensures k fuel w) h)
    where
      cases :
          OpenedFrom k w (pos 0) v
          → Yields
              (λ r w'. (r ≡ pos 0) × IsDown (held w.history) (power w.history) v w')
              (xcan_close k v)
      cases (inl (z, a, awake)) = close-IsDown (held w.history) (power w.history) v a
      cases (inr (z, a)) = absurd (true≢false (sym z))

  -- A result of 0 comes with two counters of a byte each, an error with the buffer as it was.
  abbrev pub Counted : BerrCounter → ℤ → BerrCounter → Type 0
  Counted bec r bec' =
      ((r ≡ pos 0) × (bec'.txerr < 256) × (bec'.rxerr < 256))
      ⊎ ((is_nonzero r ≡ true) × (bec' ≡ bec))

  abbrev pub Unchanged : World → World → Type 0
  Unchanged w w' =
      At (held w.history) (power w.history) w'
      × (reg_writes w'.history ≡ reg_writes w.history)
      × (w'.priv ≡ w.priv)
      × (w'.stats ≡ w.stats)

  abbrev pub BerrEnds : BerrCounter → World → ℤ × BerrCounter → World → Type 0
  BerrEnds bec w r w' = Counted bec r.0 r.1 × Unchanged w w'

  -- xcan_get_berr_counter always returns. On each of its branches the clocks that it took are
  -- released, no register is accessed while one is off, and nothing is written or changed; it
  -- gives two counters of one byte each, or an error and the caller's buffer as it was.
  pub xcan_get_berr_counter-BerrEnds :
      (bec : BerrCounter) (w : World)
      → (xcan_get_berr_counter k bec w ≢ none)
        × Ensures (BerrEnds bec w) (xcan_get_berr_counter k bec w)
  unfolding xcan_get_berr_counter berr_bus read_counters
  xcan_get_berr_counter-BerrEnds bec w =
      let can = k.clk_prepare_enable_result can_clk w.history in
      let u = (emit (Event.clk_prepare_enable can_clk can) w).1 in
      let bus = k.clk_prepare_enable_result bus_clk u.history in
      let v = (emit (Event.clk_prepare_enable bus_clk bus) u).1 in
      let counted = (read_reg k ecr (read_reg k ecr v).1).1 in
      let reads : Keeps v counted = ground arith in
      let off = (emit (Event.clk_disable_unprepare bus_clk) counted).1 in
      elim (Bool-cases (is_nonzero can)) [
        | inl e ↦
            rw e
              ((λ x. cc), (inr (e, refl), (At-refused can_clk can w e (here w), refl, refl, refl)))
        | inr e ↦
            let a = At-take can_clk can w e (here w) in
            elim (Bool-cases (is_nonzero bus)) [
              | inl z ↦
                  let b = At-give can_clk v (At-refused bus_clk bus u z a) in
                  rw (e, z) ((λ x. cc), (inr (z, refl), (b, refl, refl, refl)))
              | inr z ↦
                  let b =
                    Keeps-At reads (is_on-take_both (power w.history))
                      (At-take bus_clk bus u z a) in
                  let c = At-give can_clk off (At-give bus_clk counted b) in
                  rw (e, z) ((λ x. cc), (inl (refl, tec-lt _, rec-lt _), (c, refl, refl, refl)))
            ]
      ]
