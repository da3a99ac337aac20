-- ===== src/FrameId.antt =====
-- The identifier words: `struct can_frame`'s can_id to the core's ID register, as xcan_start_xmit
-- of petalinux/components/modules/xilinx_can/xilinx_can.c builds it, and back as xcan_rx does.
pub mod Fields
pub mod RoundTrip
pub mod Tests
use zynq_can_sja1000_top.Common.{ℕ, ◌-◌, bit_and, bit_or, has, ◌<<◌, ◌>>>◌, if◌then◌else◌}
use zynq_can_sja1000_top.Can.{can_eff_flag, can_rtr_flag, can_sff_mask, can_eff_mask}
use zynq_can_sja1000_top.Can.{can_sff_id_bits, can_eff_id_bits}
use zynq_can_sja1000_top.Registers.{idr_id1_mask, idr_srr_mask, idr_ide_mask, idr_id2_mask}
use zynq_can_sja1000_top.Registers.{idr_rtr_mask, idr_id1_shift, idr_id2_shift}

-- The extended format of `id`, with the RTR flag's bit added last.
pub tx_extended : ℕ → ℕ
tx_extended can_id =
    let low = bit_and (bit_and can_id can_eff_mask << idr_id2_shift) idr_id2_mask in
    let high =
      bit_and (bit_and can_id can_eff_mask >>> (can_eff_id_bits - can_sff_id_bits) << idr_id1_shift)
        idr_id1_mask in
    let id = bit_or (bit_or low high) (bit_or idr_ide_mask idr_srr_mask) in
    if has can_id can_rtr_flag then bit_or id idr_rtr_mask else id

-- The standard format: the RTR flag goes to the SRR bit.
pub tx_standard : ℕ → ℕ
tx_standard can_id =
    let id = bit_and (bit_and can_id can_sff_mask << idr_id1_shift) idr_id1_mask in
    if has can_id can_rtr_flag then bit_or id idr_srr_mask else id

-- `id` as xcan_start_xmit writes it to the TX FIFO.
pub tx_id : ℕ → ℕ
unfolding tx_extended tx_standard
tx_id can_id = if has can_id can_eff_flag then tx_extended can_id else tx_standard can_id

pub rx_extended : ℕ → ℕ
rx_extended id_xcan =
    let id =
      bit_or
        (bit_or (bit_and id_xcan idr_id1_mask >>> 3)
          (bit_and id_xcan idr_id2_mask >>> idr_id2_shift))
        can_eff_flag in
    if has id_xcan idr_rtr_mask then bit_or id can_rtr_flag else id

pub rx_standard : ℕ → ℕ
rx_standard id_xcan =
    let id = bit_and id_xcan idr_id1_mask >>> idr_id1_shift in
    if has id_xcan idr_srr_mask then bit_or id can_rtr_flag else id

-- `cf->can_id` as xcan_rx sets it.
pub rx_id : ℕ → ℕ
unfolding rx_extended rx_standard
rx_id id_xcan = if has id_xcan idr_ide_mask then rx_extended id_xcan else rx_standard id_xcan
