-- ===== src/Mode/Stable.antt =====
-- What the waiting loops and the start of the core keep: a relation between states that holds
-- along their register accesses and pauses holds along all of them.
use zynq_can_sja1000_top.Common.{
  ℕ, zero, suc, inl, inr, Bool-cases, has, if◌then◌else◌, ℤ, is_negative, Option, none, some,
}
use zynq_can_sja1000_top.Registers.{
  Reg, sr, sr_config_mask, srr, srr_reset_mask, sr_lback_mask, sr_normal_mask, ier, msr, brpr, btr,
  intr_all, msr_lback_mask, srr_cen_mask,
}
use zynq_can_sja1000_top.Can.{CanState, CanMode}
use zynq_can_sja1000_top.Kernel.{Kernel, Event}
use zynq_can_sja1000_top.Driver.{World, read_reg, write_reg, set_state, emit}
use zynq_can_sja1000_top.Driver.Run.{Run, Ensures, Ensures-map, Ensures-elim}
use zynq_can_sja1000_top.Bittiming.{btr0, btr1}
use zynq_can_sja1000_top.Mode.{
  loopback, set_reset_mode, xcan_set_bittiming, wait_config, wait_mode, deadline, write_mode,
  finish_start, enable_core, after_bittiming, program_core, after_reset, xcan_chip_start,
  wake_after, xcan_do_set_mode,
}

-- The steps that a start is made of, for a relation from the state before to that afterwards.
pub record IsStable (k : Kernel) (R : World → World → Type 0) : Type 0 where
  pub same : (w : World) → R w w
  pub trans : {u v w : World} → R u v → R v w → R u w
  pub read : (r : Reg) (w : World) → R w (read_reg k r w).1
  pub write : (r : Reg) (x : ℕ) (w : World) → R w (write_reg r x w).1
  pub sleep : (w : World) → R w (emit Event.usleep_range w).1
  pub state : (s : CanState) (w : World) → R w (set_state s w).1

module _ (k : Kernel) (R : World → World → Type 0) (stable : IsStable k R) where
  open stable use {same, trans, read, write, sleep, state}

  abbrev pub Along : {A : Type 0} → World → A → World → Type 0
  Along w r w' = R w w'

  -- What is left to run, behind a part along which the relation holds.
  pub Along-from :
      {A : Type 0} (w u : World) (o : Option (A × World))
      → R w u
      → Ensures (Along u) o
      → Ensures (Along w) o
  Along-from w u o s e = Ensures-map o (λ r v t. trans s t) e

  pub Along-elim :
      {A B : Type 0} (w : World) (o : Option (A × World)) (f : A → Run B)
      → Ensures (Along w) o
      → ((a : A) (u : World) → Ensures (Along u) (f a u))
      → Ensures (Along w) (elim o [ none ↦ none | some (a, u) ↦ f a u ])
  Along-elim w o f e g =
      Ensures-elim (Along w) (Along w) o f e (λ a u s. Along-from w u (f a u) s (g a u))

  pub wait_config-Stable :
      (fuel timeout : ℕ) (w : World) → Ensures (Along w) (wait_config k fuel timeout w)
  unfolding wait_config
  wait_config-Stable zero timeout w = tt
  wait_config-Stable (suc fuel) timeout w =
      let u = (read_reg k sr w).1 in
      let v = (emit Event.usleep_range u).1 in
      elim (Bool-cases (has (read_reg k sr w).0 sr_config_mask)) [
        | inl e ↦ rw e (read sr w)
        | inr e ↦ elim (Bool-cases (k.time_after (k.jiffies u.history) timeout)) [
          | inl l ↦ rw (e, l) (read sr w)
          | inr l ↦
              let rest = wait_config k fuel timeout v in
              rw (e, l)
                (Along-from w v rest (trans (read sr w) (sleep u))
                  (wait_config-Stable fuel timeout v))
        ]
      ]

  wait_mode-Stable :
      (fuel mask timeout : ℕ) (w : World) → Ensures (Along w) (wait_mode k fuel mask timeout w)
  unfolding wait_mode
  wait_mode-Stable zero mask timeout w = tt
  wait_mode-Stable (suc fuel) mask timeout w =
      let u = (read_reg k sr w).1 in
      elim (Bool-cases (has (read_reg k sr w).0 mask)) [
        | inl e ↦ rw e (read sr w)
        | inr e ↦ elim (Bool-cases (k.time_after (k.jiffies u.history) timeout)) [
          | inl l ↦ rw (e, l) (read sr w)
          | inr l ↦
              let rest = wait_mode k fuel mask timeout u in
              rw (e, l) (Along-from w u rest (read sr w) (wait_mode-Stable fuel mask timeout u))
        ]
      ]

  pub set_reset_mode-Stable : (fuel : ℕ) (w : World) → Ensures (Along w) (set_reset_mode k fuel w)
  unfolding set_reset_mode
  set_reset_mode-Stable fuel w =
      let u = (write_reg srr srr_reset_mask w).1 in
      Along-from w u (wait_config k fuel (deadline k u) u) (write srr srr_reset_mask w)
        (wait_config-Stable fuel (deadline k u) u)

  finish_start-Stable : (err : ℤ) (w : World) → Ensures (Along w) (finish_start k err w)
  unfolding finish_start
  finish_start-Stable err w = elim (Bool-cases (is_negative err)) [
    | inl e ↦ rw e (same w)
    | inr e ↦ rw e (state CanState.error_active w)
  ]

  enable_core-Stable : (fuel : ℕ) (w : World) → Ensures (Along w) (enable_core k fuel w)
  unfolding enable_core write_mode
  enable_core-Stable fuel w =
      let loop = loopback w.priv in
      let mode = if loop then msr_lback_mask else 0 in
      let w1 = (write_reg ier intr_all w).1 in
      let w2 = (write_reg msr mode w1).1 in
      let u = (write_reg srr srr_cen_mask w2).1 in
      let mask = if loop then sr_lback_mask else sr_normal_mask in
      let wait = wait_mode k fuel mask (deadline k u) u in
      let written : R w u =
        trans (write ier intr_all w) (trans (write msr mode w1) (write srr srr_cen_mask w2)) in
      Along-elim w wait (finish_start k)
        (Along-from w u wait written (wait_mode-Stable fuel mask (deadline k u) u))
        finish_start-Stable

  after_bittiming-Stable :
      (fuel : ℕ) (err : ℤ) (w : World) → Ensures (Along w) (after_bittiming k fuel err w)
  unfolding after_bittiming
  after_bittiming-Stable fuel err w = elim (Bool-cases (is_negative err)) [
    | inl e ↦ rw e (same w)
    | inr e ↦ rw e (enable_core-Stable fuel w)
  ]

  bittiming-Stable : (w : World) → Ensures (Along w) (xcan_set_bittiming k w)
  unfolding xcan_set_bittiming
  bittiming-Stable w =
      let u = (read_reg k sr w).1 in
      let b = w.priv.bittiming in
      let v = (write_reg brpr (btr0 b) u).1 in
      elim (Bool-cases (has (read_reg k sr w).0 sr_config_mask)) [
        | inl e ↦ rw e (trans (read sr w) (trans (write brpr (btr0 b) u) (write btr (btr1 b) v)))
        | inr e ↦ rw e (read sr w)
      ]

  after_reset-Stable :
      (fuel : ℕ) (err : ℤ) (w : World) → Ensures (Along w) (after_reset k fuel err w)
  unfolding after_reset program_core
  after_reset-Stable fuel err w = elim (Bool-cases (is_negative err)) [
    | inl e ↦ rw e (same w)
    | inr e ↦ rw e (
        Along-elim w (xcan_set_bittiming k w) (after_bittiming k fuel) (bittiming-Stable w)
          (after_bittiming-Stable fuel))
  ]

  pub chip_start-Stable : (fuel : ℕ) (w : World) → Ensures (Along w) (xcan_chip_start k fuel w)
  unfolding xcan_chip_start
  chip_start-Stable fuel w =
      Along-elim w (set_reset_mode k fuel w) (after_reset k fuel) (set_reset_mode-Stable fuel w)
        (after_reset-Stable fuel)

  wake_after-Stable :
      ((w : World) → R w (emit Event.netif_wake_queue w).1)
      → (r : ℤ) (w : World) → Ensures (Along w) (wake_after k r w)
  unfolding wake_after
  wake_after-Stable wake r w = elim (Bool-cases (is_negative r)) [
    | inl e ↦ rw e (same w)
    | inr e ↦ rw e (wake w)
  ]

  -- xcan_do_set_mode, for a relation that waking the queue keeps too.
  pub do_set_mode-Stable :
      ((w : World) → R w (emit Event.netif_wake_queue w).1)
      → (fuel : ℕ) (mode : CanMode) (w : World) → Ensures (Along w) (xcan_do_set_mode k fuel mode w)
  unfolding xcan_do_set_mode
  do_set_mode-Stable wake fuel CanMode.mode_start w =
      Along-elim w (xcan_chip_start k fuel w) (wake_after k) (chip_start-Stable fuel w)
        (wake_after-Stable wake)
  do_set_mode-Stable wake fuel _ w = same w
