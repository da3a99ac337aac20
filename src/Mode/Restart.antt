-- ===== src/Mode/Restart.antt =====
-- The end of the waits of xcan_chip_start, and the transmit ring over xcan_do_set_mode.
use mathlib.Core.Bool.{true≢false}
use zynq_can_sja1000_top.Common.{
  ℕ, ◌+◌, ◌≡◌, ◌≢◌, ◌⊎◌, inl, inr, refl, sym, ap, ◌∙◌, arith, u32, is_negative, ℤ, pos,
}
use zynq_can_sja1000_top.Common.{none, some, true, Bool-cases, has}
use zynq_can_sja1000_top.Registers.{srr, sr, srr_reset_mask, sr_config_mask}
use zynq_can_sja1000_top.Can.{CanMode}
use zynq_can_sja1000_top.Kernel.{Kernel, History}
use zynq_can_sja1000_top.Driver.{World, Priv, write_reg}
use zynq_can_sja1000_top.Mode.{
  loopback, write_mode, finish_start, after_reset, after_bittiming, program_core,
  xcan_set_bittiming, enable_core, set_reset_mode, wait_mode, deadline, xcan_chip_start, wake_after,
  xcan_do_set_mode,
}
use zynq_can_sja1000_top.Driver.Run.{
  returns-elim, Ensures, Ensures-elim, Ensures-some, Yields, Ensures-Yields,
}
use zynq_can_sja1000_top.Mode.Wait.{
  reg_writes, length, Expires, wait_mode-returns, wait_config-returns,
}
use zynq_can_sja1000_top.Mode.Start.{Started, start_writes, chip_start-Ensures, mode_bit}
use zynq_can_sja1000_top.Transmit.Queue.{queue_awake}
use zynq_can_sja1000_top.Transmit.Completion.{in_flight}

module _ (k : Kernel) where
  -- The clock runs: a second from any moment is over when `n` more events have happened.
  abbrev pub IsTicking : ℕ → Type 0
  IsTicking n = (h : History) → Expires k (u32 (k.jiffies h + k.hz)) (length h + n)

  finish_start-returns : (err : ℤ) (w : World) → finish_start k err w ≢ none
  unfolding finish_start
  finish_start-returns err w = elim (Bool-cases (is_negative err)) [
    | inl e ↦ rw e (λ x. cc)
    | inr e ↦ rw e (λ x. cc)
  ]

  enable_core-returns : (n : ℕ) (w : World) → IsTicking n → enable_core k (n + 1) w ≢ none
  unfolding enable_core deadline
  enable_core-returns n w clock =
      let u = (write_mode (loopback w.priv) w).1 in
      returns-elim (wait_mode k (n + 1) (mode_bit w.priv) (deadline k u) u) (finish_start k)
        (wait_mode-returns k (n + 1) (mode_bit w.priv) (deadline k u) (length u.history + n) u
          (clock u.history) (omega arith) (omega arith))
        finish_start-returns

  after_bittiming-returns :
      (n : ℕ) (err : ℤ) (w : World) → IsTicking n → after_bittiming k (n + 1) err w ≢ none
  unfolding after_bittiming
  after_bittiming-returns n err w clock = elim (Bool-cases (is_negative err)) [
    | inl e ↦ rw e (λ x. cc)
    | inr e ↦ rw e (enable_core-returns n w clock)
  ]

  xcan_set_bittiming-returns : (w : World) → xcan_set_bittiming k w ≢ none
  unfolding xcan_set_bittiming
  xcan_set_bittiming-returns w =
      elim (Bool-cases (has (u32 (k.read32 w.history w.priv.byte_order sr)) sr_config_mask)) [
        | inl e ↦ rw e (λ x. cc)
        | inr e ↦ rw e (λ x. cc)
      ]

  after_reset-returns :
      (n : ℕ) (err : ℤ) (w : World) → IsTicking n → after_reset k (n + 1) err w ≢ none
  unfolding after_reset program_core
  after_reset-returns n err w clock = elim (Bool-cases (is_negative err)) [
    | inl e ↦ rw e (λ x. cc)
    | inr e ↦ rw e (
        returns-elim (xcan_set_bittiming k w) (after_bittiming k (n + 1))
          (xcan_set_bittiming-returns w) (λ err' v. after_bittiming-returns n err' v clock))
  ]

  pub set_reset_mode-returns : (n : ℕ) (w : World) → IsTicking n → set_reset_mode k (n + 1) w ≢ none
  unfolding set_reset_mode deadline
  set_reset_mode-returns n w clock =
      let u = (write_reg srr srr_reset_mask w).1 in
      wait_config-returns k (n + 1) (deadline k u) (length u.history + n) u (clock u.history)
        (omega arith) (omega arith)

  pub xcan_chip_start-returns :
      (n : ℕ) (w : World) → IsTicking n → xcan_chip_start k (n + 1) w ≢ none
  unfolding xcan_chip_start
  xcan_chip_start-returns n w clock =
      returns-elim (set_reset_mode k (n + 1) w) (after_reset k (n + 1))
        (set_reset_mode-returns n w clock) (λ err v. after_reset-returns n err v clock)

  -- Both waits of xcan_chip_start are bounded by the clock: where a second is over within `n`
  -- events, `n + 1` rounds of each loop are enough, and it returns. Either the result is 0, its
  -- register writes are reset, bit timing, interrupts, mode and enable in this order, the status
  -- read last shows the mode, and the state is error-active; or the result is -ETIMEDOUT or -EPERM
  -- and the state is as it was. Nothing else of the driver's state and no counter changes in
  -- either case.
  pub xcan_chip_start-Started :
      (n : ℕ) (w : World)
      → IsTicking n
      → Yields
          (Started (start_writes w.priv (reg_writes w.history)) w)
          (xcan_chip_start k (n + 1) w)
  xcan_chip_start-Started n w clock =
      Ensures-Yields (xcan_chip_start k (n + 1) w) (xcan_chip_start-returns n w clock)
        (chip_start-Ensures k (n + 1) w)

  -- With success the queue is awake, and the ring is as it was.
  abbrev Woken : World → ℤ → World → Type 0
  Woken w r v =
      (is_negative r ≡ true)
      ⊎ ((queue_awake v.history ≡ true)
          × (in_flight v ≡ in_flight w)
          × (v.priv.tx_max ≡ w.priv.tx_max))

  wake_after-Woken :
      (w : World) (r : ℤ) (v : World)
      → v.priv ≡ record w.priv { can_state = v.priv.can_state }
      → Ensures (Woken w) (wake_after k r v)
  unfolding wake_after
  wake_after-Woken w r v p =
      let head = ap (λ (q : Priv). q.tx_head) p in
      let tail = ap (λ (q : Priv). q.tx_tail) p in
      elim (Bool-cases (is_negative r)) [
        | inl e ↦ rw e (inl e)
        | inr e ↦ rw e (inr (refl, omega arith, ap (λ (q : Priv). q.tx_max) p))
      ]

  do_set_mode-Woken :
      (fuel : ℕ) (w : World) → Ensures (Woken w) (xcan_do_set_mode k fuel CanMode.mode_start w)
  unfolding xcan_do_set_mode
  do_set_mode-Woken fuel w =
      Ensures-elim (Started (start_writes w.priv (reg_writes w.history)) w) (Woken w)
        (xcan_chip_start k fuel w) (wake_after k) (chip_start-Ensures k fuel w)
        (λ r v st. wake_after-Woken w r v st.priv)

  awake_of_success :
      (w v : World) {r : ℤ}
      → Woken w r v
      → r ≡ pos 0
      → (queue_awake v.history ≡ true)
        × (in_flight v ≡ in_flight w)
        × (v.priv.tx_max ≡ w.priv.tx_max)
  awake_of_success w v (inr a) e = a
  awake_of_success w v (inl n) e = absurd (true≢false (sym n ∙ ap is_negative e))

  -- With `tx_max` frames in flight, an xcan_do_set_mode to CAN_MODE_START that returns 0 leaves
  -- the queue awake and the ring full.
  pub restart_leaves_ring :
      (fuel : ℕ) (w : World) {r : ℤ} {w' : World}
      → in_flight w ≡ w.priv.tx_max
      → xcan_do_set_mode k fuel CanMode.mode_start w ≡ some (r, w')
      → r ≡ pos 0
      → (queue_awake w'.history ≡ true) × (in_flight w' ≡ w'.priv.tx_max)
  restart_leaves_ring fuel w {r} {w'} full h e =
      let woken = Ensures-some (Woken w) (do_set_mode-Woken fuel w) h in
      let ring = awake_of_success w w' woken e in (ring.0, ring.1 ∙ full ∙ sym ring.2)
