-- ===== src/Hwstamp.antt =====
-- The request for hardware time stamps of the test program
-- petalinux/components/apps/canhwtstamp/timestamping.c, from its flags to its message: the part of
-- main around the ioctl SIOCSHWTSTAMP.
pub mod Options
pub mod Request
pub mod Packet
pub mod Wait
pub mod Setup
pub mod Tests
use zynq_can_sja1000_top.Common.{
  ℕ, ◌+◌, has, ◌&&◌, ◌||◌, ◌==◌, if◌then◌else◌, none, some, ℤ, pos, negsuc, is_negative,
}
use zynq_can_sja1000_top.Ioctl.{HwtstampConfig, Reply}

abbrev pub sof_timestamping_tx_hardware : ℕ
sof_timestamping_tx_hardware = 1

abbrev pub sof_timestamping_rx_hardware : ℕ
sof_timestamping_rx_hardware = 4

abbrev pub hwtstamp_tx_on : ℕ
hwtstamp_tx_on = 1

abbrev pub filter_ptp_v1_l4_sync : ℕ
filter_ptp_v1_l4_sync = 4

abbrev pub einval : ℕ
einval = 22

abbrev pub enotsup : ℕ
enotsup = 95

-- How the part ends: the program exits, or says that switching off is not possible and goes on
-- with what it asked for, or goes on with what it got.
pub data Outcome : Type 0 where
  bail : Outcome
  not_possible : HwtstampConfig → Outcome
  proceed : (requested got : HwtstampConfig) → Outcome

-- `hwconfig_requested`
pub request : ℕ → HwtstampConfig
request flags = record {
  flags = 0;
  tx_type = if has flags sof_timestamping_tx_hardware then hwtstamp_tx_on else 0;
  rx_filter = if has flags sof_timestamping_rx_hardware then filter_ptp_v1_l4_sync else 0;
}

-- What is in `hwconfig` after the call: the driver's copy, if there was one.
abbrev pub copied : Reply → HwtstampConfig → HwtstampConfig
copied r cfg = elim r.1 [ none ↦ cfg | some got ↦ got ]

-- `errno` after a call that failed.
abbrev pub errno : ℤ → ℕ
errno (pos n) = 0
errno (negsuc n) = n + 1

-- `call` is the ioctl SIOCSHWTSTAMP.
pub configure : ℕ → (call : HwtstampConfig → Reply) → Outcome
unfolding request
configure flags call =
    let req = request flags in
    let r = call req in
    if is_negative r.0
    then (if (errno r.0 == einval || errno r.0 == enotsup) && req.tx_type == 0 && req.rx_filter == 0
        then not_possible req
        else bail)
    else proceed req (copied r req)
