-- ===== src/Registers.antt =====
-- The register map of the Xilinx CAN core: `enum xcan_reg` and the bit masks and shifts of
-- petalinux/components/modules/xilinx_can/xilinx_can.c.
use zynq_can_sja1000_top.Common.{ℕ, bit_or}

pub data Reg : Type 0 where
  srr msr brpr btr ecr esr sr isr ier icr : Reg
  txfifo_id txfifo_dlc txfifo_dw1 txfifo_dw2 : Reg
  rxfifo_id rxfifo_dlc rxfifo_dw1 rxfifo_dw2 : Reg

-- The value of each enumerator, the byte offset from the base.
abbrev pub offset : Reg → ℕ
offset srr = 0x00
offset msr = 0x04
offset brpr = 0x08
offset btr = 0x0c
offset ecr = 0x10
offset esr = 0x14
offset sr = 0x18
offset isr = 0x1c
offset ier = 0x20
offset icr = 0x24
offset txfifo_id = 0x30
offset txfifo_dlc = 0x34
offset txfifo_dw1 = 0x38
offset txfifo_dw2 = 0x3c
offset rxfifo_id = 0x50
offset rxfifo_dlc = 0x54
offset rxfifo_dw1 = 0x58
offset rxfifo_dw2 = 0x5c

abbrev pub srr_cen_mask : ℕ
srr_cen_mask = 0x00000002

abbrev pub srr_reset_mask : ℕ
srr_reset_mask = 0x00000001

abbrev pub msr_lback_mask : ℕ
msr_lback_mask = 0x00000002

abbrev pub msr_sleep_mask : ℕ
msr_sleep_mask = 0x00000001

abbrev pub ecr_rec_mask : ℕ
ecr_rec_mask = 0x0000ff00

abbrev pub ecr_tec_mask : ℕ
ecr_tec_mask = 0x000000ff

abbrev pub esr_acker_mask : ℕ
esr_acker_mask = 0x00000010

abbrev pub esr_berr_mask : ℕ
esr_berr_mask = 0x00000008

abbrev pub esr_ster_mask : ℕ
esr_ster_mask = 0x00000004

abbrev pub esr_fmer_mask : ℕ
esr_fmer_mask = 0x00000002

abbrev pub esr_crcer_mask : ℕ
esr_crcer_mask = 0x00000001

abbrev pub sr_txfll_mask : ℕ
sr_txfll_mask = 0x00000400

abbrev pub sr_estat_mask : ℕ
sr_estat_mask = 0x00000180

abbrev pub sr_errwrn_mask : ℕ
sr_errwrn_mask = 0x00000040

abbrev pub sr_normal_mask : ℕ
sr_normal_mask = 0x00000008

abbrev pub sr_lback_mask : ℕ
sr_lback_mask = 0x00000002

abbrev pub sr_config_mask : ℕ
sr_config_mask = 0x00000001

abbrev pub ixr_wkup_mask : ℕ
ixr_wkup_mask = 0x00000800

abbrev pub ixr_slp_mask : ℕ
ixr_slp_mask = 0x00000400

abbrev pub ixr_bsoff_mask : ℕ
ixr_bsoff_mask = 0x00000200

abbrev pub ixr_error_mask : ℕ
ixr_error_mask = 0x00000100

abbrev pub ixr_rxnemp_mask : ℕ
ixr_rxnemp_mask = 0x00000080

abbrev pub ixr_rxoflw_mask : ℕ
ixr_rxoflw_mask = 0x00000040

abbrev pub ixr_rxok_mask : ℕ
ixr_rxok_mask = 0x00000010

abbrev pub ixr_txok_mask : ℕ
ixr_txok_mask = 0x00000002

abbrev pub ixr_arblst_mask : ℕ
ixr_arblst_mask = 0x00000001

abbrev pub idr_id1_mask : ℕ
idr_id1_mask = 0xffe00000

abbrev pub idr_srr_mask : ℕ
idr_srr_mask = 0x00100000

abbrev pub idr_ide_mask : ℕ
idr_ide_mask = 0x00080000

abbrev pub idr_id2_mask : ℕ
idr_id2_mask = 0x0007fffe

abbrev pub idr_rtr_mask : ℕ
idr_rtr_mask = 0x00000001

-- `XCAN_INTR_ALL`
abbrev pub intr_all : ℕ
intr_all =
    bit_or
      (bit_or (bit_or (bit_or ixr_txok_mask ixr_bsoff_mask) (bit_or ixr_wkup_mask ixr_slp_mask))
        (bit_or ixr_rxnemp_mask ixr_error_mask))
      (bit_or ixr_arblst_mask ixr_rxok_mask)

abbrev pub btr_sjw_shift : ℕ
btr_sjw_shift = 7

abbrev pub btr_ts2_shift : ℕ
btr_ts2_shift = 4

abbrev pub idr_id1_shift : ℕ
idr_id1_shift = 21

abbrev pub idr_id2_shift : ℕ
idr_id2_shift = 1

abbrev pub dlcr_dlc_shift : ℕ
dlcr_dlc_shift = 28

abbrev pub esr_rec_shift : ℕ
esr_rec_shift = 8
