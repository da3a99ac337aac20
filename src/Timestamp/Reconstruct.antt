-- ===== src/Timestamp/Reconstruct.antt =====
-- The full time of a frame from its 16-bit counter value, by xcan_timestamp2ktime.
use zynq_can_sja1000_top.Common.{
  ℕ, ◌+◌, ◌-◌, ◌*◌, ◌/◌, ◌%◌, ◌^◌, ◌<◌, ◌≤◌, ◌≡◌, ◌≢◌, u16, u64, bit_and, arith, ap, refl, ◌∙◌,
  ◌==◌, true, false,
}
use native.Mathlib.Nat.{div-le_self, zero-div, zero-mul}
use zynq_can_sja1000_top.Common.Bits.{bit_and_low}
use zynq_can_sja1000_top.Kernel.{Kernel, IsDocumented}
use zynq_can_sja1000_top.Driver.{World}
use zynq_can_sja1000_top.Timestamp.{adj_pattern, sign_extend, frame_time, xcan_timestamp2ktime}

-- The correction takes an estimate to the tick count with the counter's low 16 bits, if that is
-- less than half a round of the counter away.
adjusted :
    (estimate tick ts : ℕ)
    → ts ≡ tick % 2 ^ 16
    → estimate < 2 ^ 63 + 2 ^ 16
    → tick < estimate + 2 ^ 15
    → estimate ≤ tick + 2 ^ 15
    → u64 (estimate + sign_extend (2 ^ 64) (adj_pattern ts (u16 (bit_and estimate 0xffff)))) ≡ tick
unfolding adj_pattern sign_extend
adjusted estimate tick ts e fits above below = ground (arith, bit_and_low 16 estimate)

-- The time of a frame that came at tick `tick` of the core's counter, read `now`, where
-- `ref_ktime` is the time of tick `ref_ts`. The time elapsed, in ticks, may be wrong by up to
-- half a round of the 16-bit counter: the result is exact nevertheless.
pub frame_time-exact :
    (k : Kernel) (mul ref_ktime ref_ts now ts tick : ℕ)
    → IsDocumented k
    → mul ≢ 0
    → ref_ktime ≤ now
    → now < 2 ^ 63
    → ref_ts < 2 ^ 16
    → ref_ts ≤ tick
    → ts ≡ tick % 2 ^ 16
    → tick < (now - ref_ktime) / mul + ref_ts + 2 ^ 15
    → (now - ref_ktime) / mul + ref_ts ≤ tick + 2 ^ 15
    → (frame_time k mul 0 ref_ktime ref_ts now ts).ktime
      ≡ (ref_ktime + (tick - ref_ts) * mul) % 2 ^ 64
unfolding frame_time
frame_time-exact k mul ref_ktime ref_ts now ts tick d pos order small fits late e above below =
    let ticks = (now - ref_ktime) / mul in
    let elapsed : k.ktime_sub now ref_ktime ≡ now - ref_ktime =
      d.ktime_sub_lem now ref_ktime (omega arith) (omega arith) ∙ omega arith in
    let quot : k.div_u64 (k.ktime_sub now ref_ktime) mul ≡ ticks =
      rw elapsed (d.div_u64_lem (now - ref_ktime) mul pos) in
    let less : ticks ≤ now - ref_ktime = div-le_self (now - ref_ktime) mul in
    let estimate : u64 (k.div_u64 (k.ktime_sub now ref_ktime) mul + ref_ts) ≡ ticks + ref_ts =
      rw quot (omega arith) in
    let since : u64 (tick + 2 ^ 64 - ref_ts) ≡ tick - ref_ts = omega arith in
    rw
      (
        estimate,
        adjusted (ticks + ref_ts) tick ts e (omega arith) above below,
        since,
        d.ktime_add_ns_lem ref_ktime,
      )
      (omega arith)

frame_time-start :
    (k : Kernel) (mul shr now ts : ℕ)
    → IsDocumented k
    → mul ≢ 0
    → ts < 2 ^ 16
    → now < 2 ^ 63
    → frame_time k mul shr now ts now ts ≡ record { ktime = now; tmdiffns = 0 }
unfolding frame_time
frame_time-start k mul shr now ts d pos fits small =
    let elapsed : k.ktime_sub now now ≡ 0 =
      d.ktime_sub_lem now now (omega arith) (omega arith) ∙ omega arith in
    let quot : k.div_u64 (k.ktime_sub now now) mul ≡ 0 =
      rw elapsed (d.div_u64_lem 0 mul pos ∙ zero-div mul) in
    let estimate : u64 (k.div_u64 (k.ktime_sub now now) mul + ts) ≡ ts = rw quot (omega arith) in
    let close : u16 (ts + 2 ^ 16 - u16 (bit_and ts 0xffff)) ≡ 0 =
      omega (arith, bit_and_low 16 ts) in
    let back : u64 (u64 (ts + 0) + 2 ^ 64 - ts) ≡ 0 = omega arith in
    let still : u64 (u64 (u64 (ts + 0) + 2 ^ 64 - ts) * mul) / 2 ^ shr ≡ 0 =
      rw (back, zero-mul mul) (zero-div (2 ^ shr)) in
    rw (estimate, close, still)
      (ap (λ t. record { ktime = t; tmdiffns = 0 }) (d.ktime_add_ns_lem now 0 ∙ omega arith))

to_eq_zero : (n : ℕ) → n ≡ 0 → (n == 0) ≡ true
to_eq_zero n h = ground arith

to_ne_zero : (n : ℕ) → n ≢ 0 → (n == 0) ≡ false
to_ne_zero n h = ground arith

module _ (k : Kernel) (d : IsDocumented k) (w : World) where
  -- With no reference point set, a factor other than 0, a 16-bit counter value and a time now
  -- below 2 ^ 63, and helpers as documented, a frame gets the time now, which becomes the
  -- reference point together with the counter value; nothing else changes.
  pub xcan_timestamp2ktime-first :
      (ts : ℕ)
      → w.priv.ref_ktime ≡ 0
      → w.priv.cantime2ns_mul ≢ 0
      → ts < 2 ^ 16
      → k.ktime_get w.history < 2 ^ 63
      → xcan_timestamp2ktime k ts w ≡ (
        record { ktime = k.ktime_get w.history; tmdiffns = 0 },
        record w { priv = record w.priv { ref_ktime = k.ktime_get w.history; ref_ts = ts } },
      )
  unfolding xcan_timestamp2ktime
  xcan_timestamp2ktime-first ts unset pos fits small = rw (
    to_eq_zero w.priv.ref_ktime unset,
    frame_time-start k w.priv.cantime2ns_mul w.priv.cantime2ns_shr (k.ktime_get w.history) ts d pos
        fits small,
  )

  -- With the reference point set, a shift of 0 and a factor other than 0, a time now that is not
  -- before the reference point and below 2 ^ 63, and helpers as documented: a frame whose counter
  -- value is that of `tick` modulo 2 ^ 16, at or after the reference tick and less than half a
  -- round of the counter away from the tick estimated from the clock, at most half a round behind
  -- it, gets the exact time of its tick by the factor, modulo 2 ^ 64. The driver's state does not
  -- change.
  pub xcan_timestamp2ktime-exact :
      (ts tick : ℕ)
      → w.priv.ref_ktime ≢ 0
      → w.priv.cantime2ns_mul ≢ 0
      → w.priv.cantime2ns_shr ≡ 0
      → w.priv.ref_ktime ≤ k.ktime_get w.history
      → k.ktime_get w.history < 2 ^ 63
      → w.priv.ref_ts < 2 ^ 16
      → w.priv.ref_ts ≤ tick
      → ts ≡ tick % 2 ^ 16
      → let ticks = (k.ktime_get w.history - w.priv.ref_ktime) / w.priv.cantime2ns_mul in
        tick < ticks + w.priv.ref_ts + 2 ^ 15
        → ticks + w.priv.ref_ts ≤ tick + 2 ^ 15
        → ((xcan_timestamp2ktime k ts w).0.ktime
            ≡ (w.priv.ref_ktime + (tick - w.priv.ref_ts) * w.priv.cantime2ns_mul) % 2 ^ 64)
          × ((xcan_timestamp2ktime k ts w).1 ≡ w)
  unfolding xcan_timestamp2ktime
  xcan_timestamp2ktime-exact ts tick set pos shr order small fits late e above below =
      rw (to_ne_zero w.priv.ref_ktime set, shr)
        (
          frame_time-exact k w.priv.cantime2ns_mul w.priv.ref_ktime w.priv.ref_ts
              (k.ktime_get w.history) ts tick d pos order small fits late e above below,
          refl,
        )
