-- ===== src/Ioctl.antt =====
-- The configuration of time stamps in petalinux/components/modules/xilinx_can/xilinx_can.c:
-- xcan_hwtstamp_set, xcan_hwtstamp_get and xcan_ioctl. They keep no state.
pub mod Config
pub mod Tests
use zynq_can_sja1000_top.Common.{
  ℕ, Bool, not, ◌||◌, ◌==◌, if◌then◌else◌, Option, none, some, ℤ, pos,
}
use zynq_can_sja1000_top.Can.{minus_efault, minus_einval, minus_erange, minus_eopnotsupp}

-- `struct hwtstamp_config`
pub record HwtstampConfig : Type 0 where
  pub flags : ℕ
  pub tx_type : ℕ
  pub rx_filter : ℕ

-- The caller's memory behind `ifr_data`: what copy_from_user finds there, `none` if it fails, and
-- whether copy_to_user fails.
pub record UserSpace : Type 0 where
  pub config : Option HwtstampConfig
  pub write_fails : HwtstampConfig → Bool

-- The result, and what was copied to the caller.
abbrev pub Reply : Type 0
Reply = ℤ × Option HwtstampConfig

abbrev pub hwtstamp_tx_off : ℕ
hwtstamp_tx_off = 0

-- `enum hwtstamp_rx_filters`
abbrev pub filter_none : ℕ
filter_none = 0

abbrev pub filter_all : ℕ
filter_all = 1

abbrev pub siocshwtstamp : ℕ
siocshwtstamp = 0x89b0

abbrev pub siocghwtstamp : ℕ
siocghwtstamp = 0x89b1

-- The labels of the switch that fall through to `HWTSTAMP_FILTER_ALL`, in their order: ALL, then
-- EVENT, SYNC and DELAY_REQ of PTP_V1_L4, PTP_V2_L4, PTP_V2_L2 and PTP_V2.
pub is_ptp_filter : ℕ → Bool
is_ptp_filter f =
    f == filter_all
    || f == 3
    || f == 4
    || f == 5
    || f == 6
    || f == 7
    || f == 8
    || f == 9
    || f == 10
    || f == 11
    || f == 12
    || f == 13
    || f == 14

-- The switch on `cfg.rx_filter`: the filter afterwards, or `none` for the default branch.
pub choose_filter : ℕ → Option ℕ
unfolding is_ptp_filter
choose_filter f =
    if f == filter_none then some filter_none else if is_ptp_filter f then some filter_all else none

-- `return copy_to_user(…) ? -EFAULT : 0`
pub reply : UserSpace → HwtstampConfig → Reply
reply u cfg = if u.write_fails cfg then (minus_efault, none) else (pos 0, some cfg)

-- xcan_hwtstamp_set behind copy_from_user.
pub check_config : UserSpace → HwtstampConfig → Reply
unfolding reply choose_filter
check_config u cfg =
    if not (cfg.flags == 0)
    then (minus_einval, none)
    else if not (cfg.tx_type == hwtstamp_tx_off)
    then (minus_erange, none)
    else elim (choose_filter cfg.rx_filter) [
      | none ↦ (minus_erange, none)
      | some f ↦ reply u (record cfg { rx_filter = f })
    ]

pub xcan_hwtstamp_set : UserSpace → Reply
unfolding check_config
xcan_hwtstamp_set u = elim u.config [ none ↦ (minus_efault, none) | some cfg ↦ check_config u cfg ]

pub xcan_hwtstamp_get : UserSpace → Reply
unfolding reply
xcan_hwtstamp_get u =
    reply u (record { flags = 0; tx_type = hwtstamp_tx_off; rx_filter = filter_all })

pub xcan_ioctl : UserSpace → ℕ → Reply
unfolding xcan_hwtstamp_set xcan_hwtstamp_get
xcan_ioctl u cmd =
    if cmd == siocshwtstamp
    then xcan_hwtstamp_set u
    else if cmd == siocghwtstamp
    then xcan_hwtstamp_get u
    else (minus_eopnotsupp, none)
