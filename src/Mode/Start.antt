-- ===== src/Mode/Start.antt =====
-- xcan_chip_start: what it programs, in which order, and how it ends.
use zynq_can_sja1000_top.Common.{ℕ, ◌≡◌, ◌⊎◌, inl, inr, refl, sym, ap, ◌∙◌, arith, List, ◌∷◌, u32}
use zynq_can_sja1000_top.Common.{some, true, false, has, ℤ, pos, if◌then◌else◌}
use zynq_can_sja1000_top.Registers.{
  Reg, srr, msr, brpr, btr, ier, intr_all, srr_reset_mask, srr_cen_mask,
}
use zynq_can_sja1000_top.Registers.{msr_lback_mask, sr_config_mask, sr_lback_mask, sr_normal_mask}
use zynq_can_sja1000_top.Can.{CanState, minus_etimedout, minus_eperm}
use zynq_can_sja1000_top.Kernel.{Kernel}
use zynq_can_sja1000_top.Driver.{World, Priv, write_reg}
use zynq_can_sja1000_top.Driver.Run.{Ensures, Ensures-map, Ensures-elim}
use zynq_can_sja1000_top.Bittiming.{btr0, btr1}
use zynq_can_sja1000_top.Mode.{
  loopback, write_mode, finish_start, after_reset, after_bittiming, program_core, wait_mode,
  wait_config, deadline, set_reset_mode, xcan_set_bittiming, enable_core, xcan_chip_start,
}
use zynq_can_sja1000_top.Mode.Program.{Programmed, xcan_set_bittiming-Programmed}
use zynq_can_sja1000_top.Mode.Wait.{
  reg_writes, sr_read, Waited, wait_mode-Waited, wait_config-Waited,
}

-- The status bit of the mode that was asked for.
abbrev pub mode_bit : Priv → ℕ
mode_bit p = if loopback p then sr_lback_mask else sr_normal_mask

-- The writes of a successful start, the newest first: reset, bit timing, interrupts, mode, enable.
abbrev pub enable_writes : Priv → List (Reg × ℕ) → List (Reg × ℕ)
enable_writes p l =
    (srr, srr_cen_mask)
    ∷ (msr, u32 (if loopback p then msr_lback_mask else 0))
    ∷ (ier, intr_all)
    ∷ l

abbrev pub start_writes : Priv → List (Reg × ℕ) → List (Reg × ℕ)
start_writes p l =
    enable_writes p
      ((btr, u32 (btr1 p.bittiming)) ∷ (brpr, u32 (btr0 p.bittiming)) ∷ (srr, srr_reset_mask) ∷ l)

-- How enabling the core or starting it ends. On success the writes are `writes`, the status that
-- was read last shows the mode, and the state is error-active; on failure the state is as it was.
-- Nothing else of the driver's state changes.
pub record Started (writes : List (Reg × ℕ)) (w : World) (r : ℤ) (w' : World) : Type 0 where
  pub priv : w'.priv ≡ record w.priv { can_state = w'.priv.can_state }
  pub stats : w'.stats ≡ w.stats
  pub result :
      ((r ≡ pos 0)
        × (w'.priv.can_state ≡ CanState.error_active)
        × (reg_writes w'.history ≡ writes)
        × (status : ℕ) × (sr_read w'.history ≡ some status)
        × (has status (mode_bit w.priv) ≡ true))
      ⊎ (((r ≡ minus_etimedout) ⊎ (r ≡ minus_eperm)) × (w'.priv.can_state ≡ w.priv.can_state))

same_but_state : {p q : Priv} → p ≡ q → p ≡ record q { can_state = p.can_state }
same_but_state e = ground arith

Started-from :
    {writes writes' : List (Reg × ℕ)} (v w : World) (r : ℤ) (x : World)
    → v.priv ≡ w.priv
    → v.stats ≡ w.stats
    → writes ≡ writes'
    → Started writes v r x
    → Started writes' w r x
Started-from {writes} {writes'} v w r x p s e st = record {
  priv = st.priv ∙ ap (λ (q : Priv). record q { can_state = x.priv.can_state }) p;
  stats = st.stats ∙ s;
  result = go st.result;
}
  where
    go :
        ((r ≡ pos 0)
            × (x.priv.can_state ≡ CanState.error_active)
            × (reg_writes x.history ≡ writes)
            × (status : ℕ) × (sr_read x.history ≡ some status)
            × (has status (mode_bit v.priv) ≡ true))
          ⊎ (((r ≡ minus_etimedout) ⊎ (r ≡ minus_eperm)) × (x.priv.can_state ≡ v.priv.can_state))
        → ((r ≡ pos 0)
            × (x.priv.can_state ≡ CanState.error_active)
            × (reg_writes x.history ≡ writes')
            × (status : ℕ) × (sr_read x.history ≡ some status)
            × (has status (mode_bit w.priv) ≡ true))
          ⊎ (((r ≡ minus_etimedout) ⊎ (r ≡ minus_eperm)) × (x.priv.can_state ≡ w.priv.can_state))
    go (inl (a, b, c, status, d, m)) =
        inl (a, b, c ∙ e, status, d, ap (λ (q : Priv). has status (mode_bit q)) (sym p) ∙ m)
    go (inr (a, b)) = inr (a, b ∙ ap (λ (q : Priv). q.can_state) p)

module _ (k : Kernel) where
  finish_start-Started :
      (writes : List (Reg × ℕ)) (timeout : ℕ) (w u : World) (err : ℤ) (w' : World)
      → u.priv ≡ w.priv
      → u.stats ≡ w.stats
      → reg_writes u.history ≡ writes
      → Waited k (mode_bit w.priv) timeout u err w'
      → Ensures (Started writes w) (finish_start k err w')
  unfolding finish_start
  finish_start-Started writes timeout w u err w' p s h v = cases v.result
    where
      cases :
          ((err ≡ pos 0) × (has v.status (mode_bit w.priv) ≡ true))
            ⊎ ((err ≡ minus_etimedout)
                × (has v.status (mode_bit w.priv) ≡ false)
                × (k.time_after (k.jiffies w'.history) timeout ≡ true))
          → Ensures (Started writes w) (finish_start k err w')
      cases (inl (e, up)) =
          rw (e, finish_start)
            (record {
              priv = ap (λ (q : Priv). record q { can_state = CanState.error_active }) (v.priv ∙ p);
              stats = v.stats ∙ s;
              result = inl (refl, refl, v.writes ∙ h, v.status, v.read_last, up);
            })
      cases (inr (e, down, late)) =
          rw (e, finish_start)
            (record {
              priv = same_but_state (v.priv ∙ p);
              stats = v.stats ∙ s;
              result = inr (inl refl, ap (λ (q : Priv). q.can_state) (v.priv ∙ p));
            })

  enable_core-Started :
      (fuel : ℕ) (w : World)
      → Ensures (Started (enable_writes w.priv (reg_writes w.history)) w) (enable_core k fuel w)
  unfolding enable_core
  enable_core-Started fuel w =
      let u = (write_mode (loopback w.priv) w).1 in
      Ensures-elim (Waited k (mode_bit w.priv) (deadline k u) u)
        (Started (enable_writes w.priv (reg_writes w.history)) w)
        (wait_mode k fuel (mode_bit w.priv) (deadline k u) u) (finish_start k)
        (wait_mode-Waited k fuel (mode_bit w.priv) (deadline k u) u)
        (λ err w'. finish_start-Started _ _ w u err w' refl refl refl)

  after_bittiming-Started :
      (fuel : ℕ) (w u : World) (err : ℤ) (v : World)
      → u.priv ≡ w.priv
      → u.stats ≡ w.stats
      → reg_writes u.history ≡ (srr, srr_reset_mask) ∷ reg_writes w.history
      → Programmed u err v
      → Ensures
          (Started (start_writes w.priv (reg_writes w.history)) w)
          (after_bittiming k fuel err v)
  unfolding after_bittiming
  after_bittiming-Started fuel w u err v p s h (inr (e, vp, vs, vh)) =
      rw (e, after_bittiming)
        (record {
          priv = same_but_state (vp ∙ p);
          stats = vs ∙ s;
          result = inr (inr refl, ap (λ (q : Priv). q.can_state) (vp ∙ p));
        })
  after_bittiming-Started fuel w u err v p s h (inl (e, vp, vs, vh)) =
      rw (e, after_bittiming)
        (Ensures-map {P = Started (enable_writes v.priv (reg_writes v.history)) v}
          {Q = Started (start_writes w.priv (reg_writes w.history)) w} (enable_core k fuel v)
          (λ r x st. Started-from v w r x (vp ∙ p) (vs ∙ s) writes st) (enable_core-Started fuel v))
    where
      writes :
          enable_writes v.priv (reg_writes v.history) ≡ start_writes w.priv (reg_writes w.history)
      writes = rw (vh, h, vp, p) refl

  after_reset-Started :
      (fuel timeout : ℕ) (w u : World) (err : ℤ) (w' : World)
      → u.priv ≡ w.priv
      → u.stats ≡ w.stats
      → reg_writes u.history ≡ (srr, srr_reset_mask) ∷ reg_writes w.history
      → Waited k sr_config_mask timeout u err w'
      → Ensures (Started (start_writes w.priv (reg_writes w.history)) w) (after_reset k fuel err w')
  unfolding after_reset program_core
  after_reset-Started fuel timeout w u err w' p s h v = cases v.result
    where
      cases :
          ((err ≡ pos 0) × (has v.status sr_config_mask ≡ true))
            ⊎ ((err ≡ minus_etimedout)
                × (has v.status sr_config_mask ≡ false)
                × (k.time_after (k.jiffies w'.history) timeout ≡ true))
          → Ensures
              (Started (start_writes w.priv (reg_writes w.history)) w)
              (after_reset k fuel err w')
      cases (inr (e, down, late)) =
          rw (e, after_reset)
            (record {
              priv = same_but_state (v.priv ∙ p);
              stats = v.stats ∙ s;
              result = inr (inl refl, ap (λ (q : Priv). q.can_state) (v.priv ∙ p));
            })
      cases (inl (e, up)) =
          rw (e, after_reset)
            (Ensures-elim (Programmed w') (Started (start_writes w.priv (reg_writes w.history)) w)
              (xcan_set_bittiming k w') (after_bittiming k fuel)
              (xcan_set_bittiming-Programmed k w')
              (λ err' v'.
                after_bittiming-Started fuel w w' err' v' (v.priv ∙ p) (v.stats ∙ s)
                  (v.writes ∙ h)))

  pub chip_start-Ensures :
      (fuel : ℕ) (w : World)
      → Ensures (Started (start_writes w.priv (reg_writes w.history)) w) (xcan_chip_start k fuel w)
  unfolding xcan_chip_start set_reset_mode
  chip_start-Ensures fuel w =
      let u = (write_reg srr srr_reset_mask w).1 in
      Ensures-elim (Waited k sr_config_mask (deadline k u) u)
        (Started (start_writes w.priv (reg_writes w.history)) w)
        (wait_config k fuel (deadline k u) u) (after_reset k fuel)
        (wait_config-Waited k fuel (deadline k u) u)
        (λ err w'. after_reset-Started fuel (deadline k u) w u err w' refl refl refl)
