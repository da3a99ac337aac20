-- ===== src/Timestamp/Drift.antt =====
-- The time stamps of xcan_timestamp2ktime with the factor that xcan_probe sets: it is rounded down
-- to whole nanoseconds.
use zynq_can_sja1000_top.Common.{ℕ, ◌+◌, ◌-◌, ◌*◌, ◌/◌, ◌%◌, ◌^◌, ◌<◌, ◌≤◌, ◌≡◌, arith, ap, refl}
use native.Mathlib.Nat.{div-add-mod, mod-lt}
use zynq_can_sja1000_top.Kernel.{Kernel, IsDocumented}
use zynq_can_sja1000_top.Driver.{World}
use zynq_can_sja1000_top.Probe.{Platform}
use zynq_can_sja1000_top.Probe.Ends.{IsConfigured}
use zynq_can_sja1000_top.Timestamp.{xcan_timestamp2ktime}
use zynq_can_sja1000_top.Timestamp.Near.{IsReferenced, ticks, time_of, xcan_timestamp2ktime-late}

-- The ticks of a counter at `freq` in `elapsed` nanoseconds.
abbrev pub true_ticks : (freq elapsed : ℕ) → ℕ
true_ticks freq elapsed = elapsed * freq / 1000000000

-- `est` whole factors fit into `elapsed`, and `t` is the true number of ticks.
behind :
    (mul freq elapsed est rest t r rem : ℕ)
    → mul * est + rest ≡ elapsed
    → rest < mul
    → 1000000000 * t + r ≡ elapsed * freq
    → mul * freq + rem ≡ 1000000000
    → (2 ^ 15 + 1) * mul * 1000000000 ≤ elapsed * rem
    → ¬ (est ≤ t + 2 ^ 15)
behind mul freq elapsed est rest t r rem sum less true_sum rate long close =
    let by_mul = ap (λ (n : ℕ). n * mul) true_sum in
    let by_elapsed = ap (λ (n : ℕ). n * elapsed) rate in
    let gap : est + (t + 2 ^ 15 - est) ≡ t + 2 ^ 15 = omega arith in
    let gap_mul = ap (λ (n : ℕ). n * mul) gap in omega (arith, by_mul, by_elapsed, gap_mul)

module _ (k : Kernel) (d : IsDocumented k) (w : World) (ok : IsReferenced k w) (pf : Platform)
    (conf : IsConfigured pf w.priv) where
  abbrev elapsed : ℕ
  elapsed = k.ktime_get w.history - w.priv.ref_ktime

  abbrev lost : ℕ
  lost = 1000000000 - w.priv.cantime2ns_mul * w.priv.clock_freq

  estimate-ahead :
      (2 ^ 15 + 1) * w.priv.cantime2ns_mul * 1000000000 ≤ elapsed * lost
      → true_ticks w.priv.clock_freq elapsed + 2 ^ 15 < ticks k w
  estimate-ahead long =
      let mul = w.priv.cantime2ns_mul in
      let freq = w.priv.clock_freq in
      let factor = ok.factor in
      let low = conf.mul_low in
      let less : elapsed % mul < mul = mod-lt elapsed (omega arith) in
      let rate : mul * freq + lost ≡ 1000000000 = omega arith in
      let apart =
        behind mul freq elapsed (ticks k w) (elapsed % mul) (true_ticks freq elapsed)
          (elapsed * freq % 1000000000) lost (div-add-mod elapsed mul) less
          (div-add-mod (elapsed * freq) 1000000000) rate long in
      omega arith

  -- With helpers as documented, the reference point set, a device configured as xcan_probe does,
  -- and a core that counts at the rate of the CAN clock from the reference point on: once the time
  -- elapsed, times what the factor loses of 10 ^ 9 by being rounded down, is 2 ^ 15 + 1 factors of
  -- 10 ^ 9 or more, a frame of the present tick is taken for one of another tick, with the same 16
  -- low bits but at least a whole round of the counter after it, and gets that tick's time.
  pub xcan_timestamp2ktime-drifts :
      (2 ^ 15 + 1) * w.priv.cantime2ns_mul * 1000000000 ≤ elapsed * lost
      → let tick = w.priv.ref_ts + true_ticks w.priv.clock_freq elapsed in
        (other : ℕ) × ((xcan_timestamp2ktime k (tick % 2 ^ 16) w).0.ktime ≡ time_of w.priv other)
        × (other % 2 ^ 16 ≡ tick % 2 ^ 16)
        × (tick + 2 ^ 16 ≤ other)
  xcan_timestamp2ktime-drifts long =
      let ahead = estimate-ahead long in
      let tick = w.priv.ref_ts + true_ticks w.priv.clock_freq elapsed in
      xcan_timestamp2ktime-late k d w ok (tick % 2 ^ 16) (mod-lt tick (omega arith)) (omega arith)
        tick refl (omega arith)
