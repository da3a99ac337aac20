-- ===== src/Timestamp/Near.antt =====
-- How far the time of a frame by xcan_timestamp2ktime can be from the time at which it is read.
use zynq_can_sja1000_top.Common.{
  ℕ, ◌+◌, ◌-◌, ◌*◌, ◌/◌, ◌%◌, ◌^◌, ◌<◌, ◌≤◌, ◌≡◌, ◌≢◌, arith, ap, ltb, if◌then◌else◌,
}
use native.Mathlib.Nat.{div-add-mod, mod-lt}
use zynq_can_sja1000_top.Kernel.{Kernel, IsDocumented}
use zynq_can_sja1000_top.Driver.{World, Priv}
use zynq_can_sja1000_top.Timestamp.{xcan_timestamp2ktime}
use zynq_can_sja1000_top.Timestamp.Reconstruct.{xcan_timestamp2ktime-exact}

-- The tick with the low bits `ts` that is nearest to `estimate`.
nearest : (estimate ts : ℕ) → ℕ
nearest estimate ts =
    let adj = (ts + 2 ^ 16 - estimate % 2 ^ 16) % 2 ^ 16 in
    if ltb adj (2 ^ 15) then estimate + adj else estimate + adj - 2 ^ 16

nearest_lem :
    (estimate ts : ℕ)
    → ts < 2 ^ 16
    → 2 ^ 15 ≤ estimate
    → let tick = nearest estimate ts in
      (ts ≡ tick % 2 ^ 16) × (tick < estimate + 2 ^ 15) × (estimate ≤ tick + 2 ^ 15)
unfolding nearest
nearest_lem estimate ts fits far = ground arith

-- A reference point is set, the factor is one, and the clock has gone on since.
pub record IsReferenced (k : Kernel) (w : World) : Type 0 where
  pub set : w.priv.ref_ktime ≢ 0
  pub factor : w.priv.cantime2ns_mul ≢ 0
  pub word : w.priv.cantime2ns_mul < 2 ^ 32
  pub shr : w.priv.cantime2ns_shr ≡ 0
  pub order : w.priv.ref_ktime ≤ k.ktime_get w.history
  pub small : k.ktime_get w.history < 2 ^ 63
  pub ref_ts : w.priv.ref_ts < 2 ^ 16

-- The ticks from the reference point to the time now, as the driver estimates them.
abbrev pub ticks : Kernel → World → ℕ
ticks k w = (k.ktime_get w.history - w.priv.ref_ktime) / w.priv.cantime2ns_mul

-- The time of a tick of the core's counter by the factor.
abbrev pub time_of : Priv → ℕ → ℕ
time_of p tick = p.ref_ktime + (tick - p.ref_ts) * p.cantime2ns_mul

-- A tick `x` less than half a round from `q` whole factors has a time as near to `elapsed`.
scaled-near :
    (elapsed mul x q rest : ℕ)
    → mul * q + rest ≡ elapsed
    → rest < mul
    → x < q + 2 ^ 15
    → q ≤ x + 2 ^ 15
    → (x * mul < elapsed + 2 ^ 15 * mul) × (elapsed < x * mul + (2 ^ 15 + 1) * mul)
scaled-near elapsed mul x q rest sum less above below =
    let up : x + 1 + (q + 2 ^ 15 - (x + 1)) ≡ q + 2 ^ 15 = omega arith in
    let down : q + (x + 2 ^ 15 - q) ≡ x + 2 ^ 15 = omega arith in
    let up_ns = ap (λ (n : ℕ). n * mul) up in
    let down_ns = ap (λ (n : ℕ). n * mul) down in (omega (arith, up_ns), omega (arith, down_ns))

module _ (k : Kernel) (d : IsDocumented k) (w : World) (ok : IsReferenced k w) (ts : ℕ) where
  -- The tick of which the frame gets the time.
  frame_tick : ℕ
  frame_tick = nearest (ticks k w + w.priv.ref_ts) ts

  module _ (fits : ts < 2 ^ 16) (far : 2 ^ 15 ≤ ticks k w) where
    frame_tick-IsNear :
        (ts ≡ frame_tick % 2 ^ 16)
        × (frame_tick < ticks k w + w.priv.ref_ts + 2 ^ 15)
        × (ticks k w + w.priv.ref_ts ≤ frame_tick + 2 ^ 15)
        × (w.priv.ref_ts ≤ frame_tick)
    unfolding frame_tick
    frame_tick-IsNear =
        let n = nearest_lem (ticks k w + w.priv.ref_ts) ts fits (omega arith) in
        (n.0, n.1, n.2, omega arith)

    frame_tick-scaled :
        ((frame_tick - w.priv.ref_ts) * w.priv.cantime2ns_mul
          < k.ktime_get w.history - w.priv.ref_ktime + 2 ^ 15 * w.priv.cantime2ns_mul)
        × (k.ktime_get w.history - w.priv.ref_ktime
            < (frame_tick - w.priv.ref_ts) * w.priv.cantime2ns_mul
              + (2 ^ 15 + 1) * w.priv.cantime2ns_mul)
    frame_tick-scaled =
        let n = frame_tick-IsNear in
        let elapsed = k.ktime_get w.history - w.priv.ref_ktime in
        let factor = ok.factor in
        scaled-near elapsed w.priv.cantime2ns_mul (frame_tick - w.priv.ref_ts) (ticks k w)
          (elapsed % w.priv.cantime2ns_mul) (div-add-mod elapsed w.priv.cantime2ns_mul)
          (mod-lt elapsed (omega arith)) (omega arith) (omega arith)

    frame_tick-time : (xcan_timestamp2ktime k ts w).0.ktime ≡ time_of w.priv frame_tick
    frame_tick-time =
        let n = frame_tick-IsNear in
        let s = frame_tick-scaled in
        let word = ok.word in
        let order = ok.order in
        let small = ok.small in
        let exact =
          xcan_timestamp2ktime-exact k d w ts frame_tick ok.set ok.factor ok.shr ok.order ok.small
            ok.ref_ts n.3 n.0 n.1 n.2 in
        omega (arith, exact.0)

    -- With the reference point set, a factor other than 0 and below 2 ^ 32, a shift of 0, helpers
    -- as documented, a time now that is below 2 ^ 63 and at least half a round of the 16-bit
    -- counter behind the reference point: whatever the counter value of a frame is, the frame gets
    -- the time of a tick with these low bits, and that time is less than half a round of the
    -- counter ahead of the time now, and less than half a round and a tick behind it.
    pub xcan_timestamp2ktime-near :
        (tick : ℕ) × (ts ≡ tick % 2 ^ 16)
        × ((xcan_timestamp2ktime k ts w).0.ktime ≡ time_of w.priv tick)
        × ((xcan_timestamp2ktime k ts w).0.ktime
            < k.ktime_get w.history + 2 ^ 15 * w.priv.cantime2ns_mul)
        × (k.ktime_get w.history
            < (xcan_timestamp2ktime k ts w).0.ktime + (2 ^ 15 + 1) * w.priv.cantime2ns_mul)
    xcan_timestamp2ktime-near =
        let s = frame_tick-scaled in
        let order = ok.order in
        (
          frame_tick,
          frame_tick-IsNear.0,
          frame_tick-time,
          omega (arith, frame_tick-time),
          omega (arith, frame_tick-time),
        )

    -- Under the same conditions: where the core's counter has fallen behind the estimate from the
    -- clock by more than half a round, as it does in time since the factor is rounded down, a
    -- frame of the true tick `tick` gets the time of a tick that is at least a whole round of the
    -- counter after it.
    pub xcan_timestamp2ktime-late :
        (tick : ℕ)
        → ts ≡ tick % 2 ^ 16
        → tick + 2 ^ 15 < ticks k w + w.priv.ref_ts
        → (other : ℕ) × ((xcan_timestamp2ktime k ts w).0.ktime ≡ time_of w.priv other)
          × (other % 2 ^ 16 ≡ tick % 2 ^ 16)
          × (tick + 2 ^ 16 ≤ other)
    xcan_timestamp2ktime-late tick low behind =
        let n = frame_tick-IsNear in (frame_tick, frame_tick-time, omega (arith, n.0), omega arith)
