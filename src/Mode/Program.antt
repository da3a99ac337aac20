-- ===== src/Mode/Program.antt =====
-- How set_reset_mode and xcan_set_bittiming, the first two steps of a start, end.
use zynq_can_sja1000_top.Common.{ℕ, ◌≡◌, ◌⊎◌, inl, inr, refl, ◌∷◌, u32}
use zynq_can_sja1000_top.Common.{Bool-cases, has, ℤ, pos}
use zynq_can_sja1000_top.Registers.{srr, brpr, btr, sr, srr_reset_mask}
use zynq_can_sja1000_top.Registers.{sr_config_mask}
use zynq_can_sja1000_top.Can.{minus_eperm}
use zynq_can_sja1000_top.Kernel.{Kernel}
use zynq_can_sja1000_top.Driver.{World, write_reg}
use zynq_can_sja1000_top.Driver.Run.{Ensures, Ensures-map}
use zynq_can_sja1000_top.Bittiming.{btr0, btr1}
use zynq_can_sja1000_top.Mode.{wait_config, deadline, set_reset_mode, xcan_set_bittiming}
use zynq_can_sja1000_top.Mode.Wait.{reg_writes, wait_config-Waited}

-- Where xcan_set_bittiming leaves `w`, with the result `err`.
abbrev pub Programmed : World → ℤ → World → Type 0
Programmed w err v =
    ((err ≡ pos 0)
      × (v.priv ≡ w.priv)
      × (v.stats ≡ w.stats)
      × (reg_writes v.history
          ≡ (btr, u32 (btr1 w.priv.bittiming))
            ∷ (brpr, u32 (btr0 w.priv.bittiming))
            ∷ reg_writes w.history))
    ⊎ ((err ≡ minus_eperm)
        × (v.priv ≡ w.priv)
        × (v.stats ≡ w.stats)
        × (reg_writes v.history ≡ reg_writes w.history))

module _ (k : Kernel) where
  pub set_reset_mode-priv :
      (fuel : ℕ) (w : World) → Ensures (λ r w'. w'.priv ≡ w.priv) (set_reset_mode k fuel w)
  unfolding set_reset_mode
  set_reset_mode-priv fuel w =
      let u = (write_reg srr srr_reset_mask w).1 in
      Ensures-map (wait_config k fuel (deadline k u) u) (λ r w' v. v.priv)
        (wait_config-Waited k fuel (deadline k u) u)

  -- How xcan_set_bittiming ends: the registers are written in the configuration mode only.
  pub xcan_set_bittiming-Programmed : (w : World) → Ensures (Programmed w) (xcan_set_bittiming k w)
  unfolding xcan_set_bittiming
  xcan_set_bittiming-Programmed w =
      elim (Bool-cases (has (u32 (k.read32 w.history w.priv.byte_order sr)) sr_config_mask)) [
        | inl config ↦ rw config (inl (refl, refl, refl, refl))
        | inr other ↦ rw other (inr (refl, refl, refl, refl))
      ]
