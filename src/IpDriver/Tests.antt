-- ===== src/IpDriver/Tests.antt =====
-- A core with three registers of 32 bits and one of six bits at 0x43c00000, and accesses of other
-- addresses before.
use zynq_can_sja1000_top.Common.{ℕ, ◌+◌, ◌%◌, ◌^◌, ◌<◌, ◌≡◌, ◌⊎◌, ◌==◌, if◌then◌else◌, arith, []}
use zynq_can_sja1000_top.IpDriver.{Bus, xst_success, xst_failure}
use zynq_can_sja1000_top.IpDriver.Cores.{Core, self_test}
use zynq_can_sja1000_top.IpDriver.SelfTest.{written, AreRegisters, self_test-wide}

abbrev base : ℕ
base = 0x43c00000

abbrev narrow : ℕ → ℕ
narrow i = if i == 3 then 6 else 32

abbrev narrow_bus : Bus
narrow_bus = record {
  value = λ h a. if a == base + 12 then written h a % 2 ^ 6 else written h a % 2 ^ 32;
}

narrow-AreRegisters : AreRegisters narrow_bus base narrow
narrow-AreRegisters = record { keeps = λ h i small. ground arith }

self_test-wide_example :
    let result = (self_test Core.can_crossbar narrow_bus base []).0 in
    let enough = (16 < 2 ^ 32) × (32 < 2 ^ 32) × (48 < 2 ^ 32) × (64 < 2 ^ 6) in
    ((result ≡ xst_success) × enough) ⊎ ((result ≡ xst_failure) × ¬ enough)
self_test-wide_example =
    self_test-wide Core.can_crossbar narrow_bus base narrow narrow-AreRegisters []
