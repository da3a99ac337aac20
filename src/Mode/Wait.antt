-- ===== src/Mode/Wait.antt =====
-- The two waiting loops of set_reset_mode and xcan_chip_start.
use mathlib.Core.Bool.{true≢false}
use native.Mathlib.Decide.{dec_lt}
use zynq_can_sja1000_top.Common.{
  ℕ, zero, suc, ◌+◌, ◌≤◌, ◌<◌, ◌≡◌, ◌≢◌, ◌⊎◌, inl, inr, refl, sym, ◌∙◌, arith, List, [], ◌∷◌,
}
use zynq_can_sja1000_top.Common.{Option, none, some, true, false, Bool-cases, has, ℤ, pos}
use zynq_can_sja1000_top.Registers.{Reg, sr, sr_config_mask}
use zynq_can_sja1000_top.Can.{minus_etimedout}
use zynq_can_sja1000_top.Kernel.{Kernel, Event, History}
use zynq_can_sja1000_top.Driver.{World, read_reg, emit}
use zynq_can_sja1000_top.Driver.Run.{Ensures, Ensures-map}
use zynq_can_sja1000_top.Mode.{wait_config, wait_mode}

-- The register writes so far, the newest first.
abbrev pub reg_writes : History → List (Reg × ℕ)
reg_writes [] = []
reg_writes (Event.iowrite o r x ∷ h) = (r, x) ∷ reg_writes h
reg_writes (_ ∷ h) = reg_writes h

-- The value of the newest event, if that is a read of the status register.
abbrev pub sr_read : History → Option ℕ
sr_read (Event.ioread o Reg.sr x ∷ h) = some x
sr_read _ = none

abbrev pub length : History → ℕ
length [] = 0
length (_ ∷ h) = suc (length h)

-- Waiting for a bit of `mask` in the status register, by reads alone, ends with 0 and a status
-- that has it, or with -ETIMEDOUT, past the time limit, and one that does not.
pub record Waited (k : Kernel) (mask timeout : ℕ) (w : World) (r : ℤ) (w' : World) : Type 0 where
  pub priv : w'.priv ≡ w.priv
  pub stats : w'.stats ≡ w.stats
  pub writes : reg_writes w'.history ≡ reg_writes w.history
  pub status : ℕ
  pub read_last : sr_read w'.history ≡ some status
  pub result :
      ((r ≡ pos 0) × (has status mask ≡ true))
      ⊎ ((r ≡ minus_etimedout)
          × (has status mask ≡ false)
          × (k.time_after (k.jiffies w'.history) timeout ≡ true))

module _ (k : Kernel) where
  -- The time limit has passed once the history has `n` events; it may be longer by one.
  abbrev pub Expires : ℕ → ℕ → Type 0
  Expires timeout n =
      (h : History) → n ≤ length h → length h ≤ n + 1 → k.time_after (k.jiffies h) timeout ≡ true

  -- A round that returns: the status was just read.
  Waited-done :
      (mask timeout : ℕ) (w : World) (r : ℤ)
      → let s = read_reg k sr w in
        ((r ≡ pos 0) × (has s.0 mask ≡ true))
          ⊎ ((r ≡ minus_etimedout)
              × (has s.0 mask ≡ false)
              × (k.time_after (k.jiffies s.1.history) timeout ≡ true))
        → Waited k mask timeout w r s.1
  Waited-done mask timeout w r e = record {
    priv = refl;
    stats = refl;
    writes = refl;
    status = (read_reg k sr w).0;
    read_last = refl;
    result = e;
  }

  Waited-step :
      (mask timeout : ℕ) (u w : World) (r : ℤ) (w' : World)
      → u.priv ≡ w.priv
      → u.stats ≡ w.stats
      → reg_writes u.history ≡ reg_writes w.history
      → Waited k mask timeout u r w'
      → Waited k mask timeout w r w'
  Waited-step mask timeout u w r w' p s h v = record {
    priv = v.priv ∙ p;
    stats = v.stats ∙ s;
    writes = v.writes ∙ h;
    status = v.status;
    read_last = v.read_last;
    result = v.result;
  }

  pub wait_mode-Waited :
      (fuel mask timeout : ℕ) (w : World)
      → Ensures (Waited k mask timeout w) (wait_mode k fuel mask timeout w)
  unfolding wait_mode
  wait_mode-Waited zero mask timeout w = tt
  wait_mode-Waited (suc fuel) mask timeout w =
      let s = read_reg k sr w in
      elim (Bool-cases (has s.0 mask)) [
        | inl up ↦ rw up (Waited-done mask timeout w (pos 0) (inl (refl, up)))
        | inr down ↦ elim (Bool-cases (k.time_after (k.jiffies s.1.history) timeout)) [
          | inl late ↦
              rw (down, late) (Waited-done mask timeout w minus_etimedout (inr (refl, down, late)))
          | inr early ↦
              rw (down, early)
                (Ensures-map _ (λ r w'. Waited-step mask timeout s.1 w r w' refl refl refl)
                  (wait_mode-Waited fuel mask timeout s.1))
        ]
      ]

  pub wait_config-Waited :
      (fuel timeout : ℕ) (w : World)
      → Ensures (Waited k sr_config_mask timeout w) (wait_config k fuel timeout w)
  unfolding wait_config
  wait_config-Waited zero timeout w = tt
  wait_config-Waited (suc fuel) timeout w =
      let s = read_reg k sr w in
      let u = (emit Event.usleep_range s.1).1 in
      elim (Bool-cases (has s.0 sr_config_mask)) [
        | inl up ↦ rw up (Waited-done sr_config_mask timeout w (pos 0) (inl (refl, up)))
        | inr down ↦ elim (Bool-cases (k.time_after (k.jiffies s.1.history) timeout)) [
          | inl late ↦
              rw (down, late)
                (Waited-done sr_config_mask timeout w minus_etimedout (inr (refl, down, late)))
          | inr early ↦
              rw (down, early)
                (Ensures-map _ (λ r w'. Waited-step sr_config_mask timeout u w r w' refl refl refl)
                  (wait_config-Waited fuel timeout u))
        ]
      ]

  in_time :
      (timeout n : ℕ) (h : History)
      → Expires timeout n
      → length h ≤ n + 1
      → k.time_after (k.jiffies h) timeout ≡ false
      → length h < n
  in_time timeout n h clock window early = elim (dec_lt (length h) n) [
    | yes p ↦ p
    | no q ↦ absurd (true≢false (sym (clock h (omega arith) window) ∙ early))
  ]

  pub wait_mode-returns :
      (fuel mask timeout n : ℕ) (w : World)
      → Expires timeout n
      → length w.history ≤ n
      → n < length w.history + fuel
      → wait_mode k fuel mask timeout w ≢ none
  unfolding wait_mode
  wait_mode-returns zero mask timeout n w clock near enough = absurd (omega arith)
  wait_mode-returns (suc fuel) mask timeout n w clock near enough =
      let s = read_reg k sr w in
      elim (Bool-cases (has s.0 mask)) [
        | inl up ↦ rw up (λ e. cc)
        | inr down ↦ elim (Bool-cases (k.time_after (k.jiffies s.1.history) timeout)) [
          | inl late ↦ rw (down, late) (λ e. cc)
          | inr early ↦
              let more = in_time timeout n s.1.history clock (omega arith) early in
              rw (down, early)
                (wait_mode-returns fuel mask timeout n s.1 clock (omega arith) (omega arith))
        ]
      ]

  pub wait_config-returns :
      (fuel timeout n : ℕ) (w : World)
      → Expires timeout n
      → length w.history ≤ n
      → n < length w.history + fuel
      → wait_config k fuel timeout w ≢ none
  unfolding wait_config
  wait_config-returns zero timeout n w clock near enough = absurd (omega arith)
  wait_config-returns (suc fuel) timeout n w clock near enough =
      let s = read_reg k sr w in
      let u = (emit Event.usleep_range s.1).1 in
      elim (Bool-cases (has s.0 sr_config_mask)) [
        | inl up ↦ rw up (λ e. cc)
        | inr down ↦ elim (Bool-cases (k.time_after (k.jiffies s.1.history) timeout)) [
          | inl late ↦ rw (down, late) (λ e. cc)
          | inr early ↦
              let more = in_time timeout n s.1.history clock (omega arith) early in
              rw (down, early)
                (wait_config-returns fuel timeout n u clock (omega arith) (omega arith))
        ]
      ]
