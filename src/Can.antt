-- ===== src/Can.antt =====
-- The documented numbers of Linux's public headers linux/can.h, linux/can/error.h,
-- linux/can/netlink.h and errno.h that xilinx_can.c names, and the frame that it fills in.
use zynq_can_sja1000_top.Common.{ℕ, ℤ, negsuc}

-- `struct can_frame`: `data[0]` to `data[7]` are `d0` to `d7`.
pub record CanFrame : Type 0 where
  pub can_id : ℕ
  pub can_dlc : ℕ
  pub d0 : ℕ
  pub d1 : ℕ
  pub d2 : ℕ
  pub d3 : ℕ
  pub d4 : ℕ
  pub d5 : ℕ
  pub d6 : ℕ
  pub d7 : ℕ

-- `enum can_state`
pub data CanState : Type 0 where
  error_active error_warning error_passive bus_off stopped sleeping : CanState

-- `enum can_mode`
pub data CanMode : Type 0 where
  mode_stop mode_start mode_sleep : CanMode

abbrev pub can_eff_flag : ℕ
can_eff_flag = 0x80000000

abbrev pub can_rtr_flag : ℕ
can_rtr_flag = 0x40000000

abbrev pub can_sff_mask : ℕ
can_sff_mask = 0x000007ff

abbrev pub can_eff_mask : ℕ
can_eff_mask = 0x1fffffff

abbrev pub can_sff_id_bits : ℕ
can_sff_id_bits = 11

abbrev pub can_eff_id_bits : ℕ
can_eff_id_bits = 29

abbrev pub can_ctrlmode_loopback : ℕ
can_ctrlmode_loopback = 0x01

abbrev pub can_err_lostarb : ℕ
can_err_lostarb = 0x00000002

abbrev pub can_err_crtl : ℕ
can_err_crtl = 0x00000004

abbrev pub can_err_prot : ℕ
can_err_prot = 0x00000008

abbrev pub can_err_ack : ℕ
can_err_ack = 0x00000020

abbrev pub can_err_busoff : ℕ
can_err_busoff = 0x00000040

abbrev pub can_err_buserror : ℕ
can_err_buserror = 0x00000080

abbrev pub can_err_lostarb_unspec : ℕ
can_err_lostarb_unspec = 0x00

abbrev pub can_err_crtl_rx_overflow : ℕ
can_err_crtl_rx_overflow = 0x01

abbrev pub can_err_crtl_rx_warning : ℕ
can_err_crtl_rx_warning = 0x04

abbrev pub can_err_crtl_tx_warning : ℕ
can_err_crtl_tx_warning = 0x08

abbrev pub can_err_crtl_rx_passive : ℕ
can_err_crtl_rx_passive = 0x10

abbrev pub can_err_crtl_tx_passive : ℕ
can_err_crtl_tx_passive = 0x20

abbrev pub can_err_prot_bit : ℕ
can_err_prot_bit = 0x01

abbrev pub can_err_prot_form : ℕ
can_err_prot_form = 0x02

abbrev pub can_err_prot_stuff : ℕ
can_err_prot_stuff = 0x04

abbrev pub can_err_prot_loc_crc_seq : ℕ
can_err_prot_loc_crc_seq = 0x08

abbrev pub can_err_prot_loc_ack : ℕ
can_err_prot_loc_ack = 0x19

-- `-EPERM`, and so on: `negsuc n` is -(n + 1).
abbrev pub minus_eperm : ℤ
minus_eperm = negsuc 0

abbrev pub minus_enomem : ℤ
minus_enomem = negsuc 11

abbrev pub minus_efault : ℤ
minus_efault = negsuc 13

abbrev pub minus_einval : ℤ
minus_einval = negsuc 21

abbrev pub minus_erange : ℤ
minus_erange = negsuc 33

abbrev pub minus_eopnotsupp : ℤ
minus_eopnotsupp = negsuc 94

abbrev pub minus_etimedout : ℤ
minus_etimedout = negsuc 109

-- `NETDEV_TX_OK` and `NETDEV_TX_BUSY`
pub data NetdevTx : Type 0 where
  tx_ok tx_busy : NetdevTx
