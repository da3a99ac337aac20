-- ===== src/Interrupt/Receive.antt =====
-- The receive part of xcan_interrupt and its return value.
use zynq_can_sja1000_top.Common.{
  ℕ, ◌+◌, ◌*◌, ◌/◌, ◌%◌, ◌^◌, ◌<◌, u32, ◌≡◌, ◌⊎◌, ◌≢◌, refl, arith, bit_and, has, ◌==◌, ◌∷◌, true,
  false, Bool-cases, inl, inr,
}
use zynq_can_sja1000_top.Common.Bits.{bit_and_low, bit_and_split, bit_and-zero}
use zynq_can_sja1000_top.Registers.{isr, ier}
use zynq_can_sja1000_top.Kernel.{Kernel, Event}
use zynq_can_sja1000_top.Driver.{World, read_reg}
use zynq_can_sja1000_top.Interrupt.{
  IrqReturn, rx_bits, schedule_rx, handle_rx, handle, xcan_interrupt,
}

low_byte : (r : ℕ) → r < 256 → bit_and r 0x6f + r / 16 % 2 * 16 + r / 128 % 2 * 128 ≡ r
low_byte r h = ground (
  arith,
  bit_and_split 7 (r / 128) (r % 128) 0 0x6f,
  bit_and-zero (r / 128),
  bit_and_split 5 (r % 128 / 32) (r % 32) 3 15,
  bit_and_low 2 (r % 128 / 32),
  bit_and_low 4 (r % 32),
)

-- The mask takes bits 4 (RXOK) and 7 (RXNEMP) away and no other.
masked : (v : ℕ) → v < 2 ^ 32 → bit_and v 0xffffff6f + v / 16 % 2 * 16 + v / 128 % 2 * 128 ≡ v
masked v h = ground (
  arith,
  bit_and_split 8 (v / 256) (v % 256) 0xffffff 0x6f,
  bit_and_low 24 (v / 256),
  low_byte (v % 256),
)

-- How a poll is asked for: after a read of the enable register, `last` is written to it, and NAPI
-- is told.
pub record Schedules (w' : World) : Type 0 where
  pub before : World
  pub enabled : ℕ
  pub last : ℕ
  pub small : enabled < 2 ^ 32
  pub events :
      let o = before.priv.byte_order in
      w'.history
      ≡ Event.napi_schedule ∷ Event.iowrite o ier last ∷ Event.ioread o ier enabled ∷ before.history
  pub only_rx : last + enabled / 16 % 2 * 16 + enabled / 128 % 2 * 128 ≡ enabled

module _ (k : Kernel) where
  handle_rx-Schedules :
      (isr_value : ℕ) (w : World)
      → has isr_value rx_bits ≡ true
      → Schedules (handle_rx k isr_value w).1
  unfolding handle_rx schedule_rx
  handle_rx-Schedules isr_value w e =
      let x = (read_reg k ier w).0 in
      rw e (record {
        before = w;
        enabled = x;
        last = u32 (bit_and x 0xffffff6f);
        small = omega arith;
        events = refl;
        only_rx = omega (arith, masked x (omega arith));
      })

  -- xcan_interrupt returns IRQ_NONE exactly when the interrupt status is 0, and has done nothing
  -- but read it. Otherwise it returns IRQ_HANDLED; with RXOK or RXNEMP in the status its last
  -- three events are a read of the enable register, a write that takes RXOK and RXNEMP away from
  -- it and no other bit, and the scheduling of the poll.
  pub xcan_interrupt-Schedules :
      (w : World)
      → let status = read_reg k isr w in
        let result = xcan_interrupt k w in
        ((status.0 ≡ 0) × (result ≡ (IrqReturn.irq_none, status.1)))
        ⊎ ((status.0 ≢ 0)
            × (result.0 ≡ IrqReturn.irq_handled)
            × ((has status.0 rx_bits ≡ false) ⊎ Schedules result.1))
  unfolding xcan_interrupt handle
  xcan_interrupt-Schedules w =
      let status = read_reg k isr w in
      elim (Bool-cases (status.0 == 0)) [
        | inl e ↦ rw e (inl (ground arith, refl))
        | inr e ↦ rw e (
            inr (
              ground arith,
              refl,
              elim (Bool-cases (has status.0 rx_bits)) [
                | inl r ↦ inr (handle_rx-Schedules status.0 _ r)
                | inr r ↦ inl r
              ],
            ))
      ]
