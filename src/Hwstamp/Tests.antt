-- ===== src/Hwstamp/Tests.antt =====
-- The flags SOF_TIMESTAMPING_RX_HARDWARE and SOF_TIMESTAMPING_RAW_HARDWARE.
use zynq_can_sja1000_top.Common.{◌⊎◌}
use zynq_can_sja1000_top.Hwstamp.Request.{Refused, Granted, configure-driver_call}

configure-driver_call_example : Refused 68 ⊎ Granted 68
configure-driver_call_example = configure-driver_call 68
