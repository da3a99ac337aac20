-- ===== src/FrameId/RoundTrip.antt =====
-- The identifier words of xcan_start_xmit and xcan_rx, there and back, on the words that the CAN
-- interface and the core can hold.
use zynq_can_sja1000_top.Common.{ℕ, ◌/◌, ◌%◌, ◌^◌, ◌<◌, ◌≡◌, arith, ◌⊎◌}
use zynq_can_sja1000_top.FrameId.{tx_id, rx_id}
use zynq_can_sja1000_top.FrameId.Fields.{tx_id_fields, rx_id_fields}

-- A can_id of a data or remote frame: a 32-bit word with the error flag, bit 29, clear, and 29
-- bits of identifier if the extended flag, bit 31, is set, else 11.
pub record IsCanId (c : ℕ) : Type 0 where
  pub fits : c < 2 ^ 32
  pub no_error : c / 2 ^ 29 % 2 ≡ 0
  pub short : (c / 2 ^ 31 ≡ 1) ⊎ (c % 2 ^ 29 < 2 ^ 11)

-- A word of the core's ID register: with bit 19 (IDE) set, bit 20 (SRR) is set too; with it
-- clear, the bits of the extended identifier and bit 0 are clear.
pub record IsIdWord (r : ℕ) : Type 0 where
  pub fits : r < 2 ^ 32
  pub substitute : (r / 2 ^ 19 % 2 ≡ 0) ⊎ (r / 2 ^ 20 % 2 ≡ 1)
  pub plain : (r / 2 ^ 19 % 2 ≡ 1) ⊎ (r % 2 ^ 19 ≡ 0)

-- What xcan_start_xmit writes is a word of the ID register.
pub tx_id-IsIdWord : (c : ℕ) → IsIdWord (tx_id c)
tx_id-IsIdWord c = ground (arith, tx_id_fields c)

-- What xcan_rx delivers is a can_id.
pub rx_id-IsCanId : (r : ℕ) → IsCanId (rx_id r)
rx_id-IsCanId r = ground (arith, rx_id_fields r)

-- For a can_id with the error flag clear and as many bits of identifier as its format has,
-- decoding the identifier word that is sent gives it back: standard or extended identifier, data
-- or remote frame.
pub rx_id-tx_id : (c : ℕ) → IsCanId c → rx_id (tx_id c) ≡ c
rx_id-tx_id c h = ground (arith, tx_id_fields c, rx_id_fields (tx_id c))

-- For a word of the core's ID register, encoding the can_id that is decoded from it gives the
-- word back.
pub tx_id-rx_id : (r : ℕ) → IsIdWord r → tx_id (rx_id r) ≡ r
tx_id-rx_id r h = ground (arith, rx_id_fields r, tx_id_fields (rx_id r))
