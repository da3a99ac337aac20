-- ===== src/Ioctl/Tests.antt =====
-- Time stamps asked for by PTP_V2_EVENT.
use zynq_can_sja1000_top.Common.{refl, some, false}
use zynq_can_sja1000_top.Ioctl.{HwtstampConfig, UserSpace, siocshwtstamp, xcan_ioctl}
use zynq_can_sja1000_top.Ioctl.Config.{SetEnds, xcan_ioctl-SetEnds}

abbrev event_filter : HwtstampConfig
event_filter = record { flags = 0; tx_type = 0; rx_filter = 12 }

abbrev asking : HwtstampConfig → UserSpace
asking cfg = record { config = some cfg; write_fails = λ _. false }

xcan_ioctl-SetEnds_example :
    SetEnds (asking event_filter) event_filter (xcan_ioctl (asking event_filter) siocshwtstamp)
xcan_ioctl-SetEnds_example = xcan_ioctl-SetEnds (asking event_filter) event_filter refl
