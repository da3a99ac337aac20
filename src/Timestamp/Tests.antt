-- ===== src/Timestamp/Tests.antt =====
-- A frame 45 ticks after the reference point, and frames a fifth of a second after it.
use zynq_can_sja1000_top.Common.{ℕ, ◌<◌, ◌≤◌, ◌≡◌, ◌+◌, ◌-◌, ◌*◌, ◌%◌, ◌^◌, refl, arith}
use zynq_can_sja1000_top.Kernel.{Kernel, IsDocumented}
use zynq_can_sja1000_top.Driver.{World}
use zynq_can_sja1000_top.Demo.{demo, demo-IsDocumented, running}
use zynq_can_sja1000_top.Timestamp.{xcan_timestamp2ktime}
use zynq_can_sja1000_top.Timestamp.Near.{IsReferenced, time_of, xcan_timestamp2ktime-near}
use zynq_can_sja1000_top.Timestamp.Drift.{xcan_timestamp2ktime-drifts}
use zynq_can_sja1000_top.Probe.Tests.{found}
use zynq_can_sja1000_top.Probe.Ends.{IsConfigured}
use zynq_can_sja1000_top.Timestamp.Reconstruct.{xcan_timestamp2ktime-exact}

xcan_timestamp2ktime-exact_example :
    ((xcan_timestamp2ktime demo 145 running).0.ktime ≡ (1000000 + (145 - 100) * 20) % 2 ^ 64)
    × ((xcan_timestamp2ktime demo 145 running).1 ≡ running)
xcan_timestamp2ktime-exact_example =
    xcan_timestamp2ktime-exact demo demo-IsDocumented running 145 145 (omega arith) (omega arith)
      refl (omega arith) (omega arith) (omega arith) (omega arith) refl (omega arith) (omega arith)

-- A fifth of a second after the reference point.
abbrev later : Kernel
later = record demo { ktime_get = λ h. 201000000 }

later-IsDocumented : IsDocumented later
later-IsDocumented = record {
  dlc_max = demo-IsDocumented.dlc_max;
  dlc_small = demo-IsDocumented.dlc_small;
  be32_of_bytes = demo-IsDocumented.be32_of_bytes;
  be32_of_word = demo-IsDocumented.be32_of_word;
  be32_bytes = demo-IsDocumented.be32_bytes;
  be32-lt = demo-IsDocumented.be32-lt;
  little_endian = demo-IsDocumented.little_endian;
  ktime_sub_lem = demo-IsDocumented.ktime_sub_lem;
  ktime_add_ns_lem = demo-IsDocumented.ktime_add_ns_lem;
  div_u64_lem = demo-IsDocumented.div_u64_lem;
}

-- The device that Probe.Tests finds, with a clock of 24 MHz and so a factor of 41.
abbrev slow : World
slow = record running {
  priv = record running.priv { clock_freq = 24000000; cantime2ns_mul = 41; tx_max = 64 };
}

slow-IsReferenced : IsReferenced later slow
slow-IsReferenced = record {
  set = omega arith;
  factor = omega arith;
  word = omega arith;
  shr = refl;
  order = omega arith;
  small = omega arith;
  ref_ts = omega arith;
}

slow-IsConfigured : IsConfigured found slow.priv
slow-IsConfigured = record {
  depth = refl;
  freq = refl;
  shr = refl;
  mul_low = omega arith;
  mul_high = omega arith;
}

xcan_timestamp2ktime-near_example :
    (tick : ℕ) × (◌≡◌ {A = ℕ} 300 (tick % 2 ^ 16))
    × ((xcan_timestamp2ktime later 300 slow).0.ktime ≡ time_of slow.priv tick)
    × ((xcan_timestamp2ktime later 300 slow).0.ktime < 201000000 + 2 ^ 15 * 41)
    × (201000000 < (xcan_timestamp2ktime later 300 slow).0.ktime + (2 ^ 15 + 1) * 41)
xcan_timestamp2ktime-near_example =
    xcan_timestamp2ktime-near later later-IsDocumented slow slow-IsReferenced 300 (omega arith)
      (omega arith)

xcan_timestamp2ktime-drifts_example :
    (other : ℕ) × ((xcan_timestamp2ktime later (4800100 % 2 ^ 16) slow).0.ktime
      ≡ time_of slow.priv other)
    × (other % 2 ^ 16 ≡ 4800100 % 2 ^ 16)
    × (4800100 + 2 ^ 16 ≤ other)
xcan_timestamp2ktime-drifts_example =
    xcan_timestamp2ktime-drifts later later-IsDocumented slow slow-IsReferenced found
      slow-IsConfigured (omega arith)
