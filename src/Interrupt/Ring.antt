-- ===== src/Interrupt/Ring.antt =====
-- What xcan_interrupt does to the transmit ring.
use zynq_can_sja1000_top.Common.{ℕ, inl, inr, arith, Bool-cases, has, ◌==◌, ◌≡◌, true, false}
use zynq_can_sja1000_top.Kernel.{Kernel}
use zynq_can_sja1000_top.Driver.{World, read_reg, write_reg}
use zynq_can_sja1000_top.Registers.{isr, icr, ixr_txok_mask}
use zynq_can_sja1000_top.Transmit.{xcan_tx_interrupt}
use zynq_can_sja1000_top.Interrupt.Stable.{IsHandlerStable, xcan_interrupt-Stable}
use zynq_can_sja1000_top.Transmit.Queue.{IsControlled, xcan_tx_interrupt-IsControlled}
use zynq_can_sja1000_top.ErrorFrame.Ring.{
  Undisturbed, Undisturbed-refl, Undisturbed-trans, Undisturbed-err_interrupt,
}
use zynq_can_sja1000_top.Interrupt.{
  error_bits, xcan_state_interrupt, schedule_rx, handle_sleep, handle_tx, handle_error, handle_rx,
  handle, xcan_interrupt,
}

pub Undisturbed-IsControlled : {w w' : World} → Undisturbed w w' → IsControlled w → IsControlled w'
Undisturbed-IsControlled {w} {w'} s c =
    let head = s.head in
    let tail = s.tail in
    let max = s.max in let packets = s.packets in let awake = s.awake in ground arith

pub handle_sleep-Undisturbed :
    (isr_value : ℕ) (w : World) → Undisturbed w (handle_sleep isr_value w).1
unfolding handle_sleep xcan_state_interrupt
handle_sleep-Undisturbed isr_value w = ground arith

-- A relation that holds where the ring is left alone, and along xcan_tx_interrupt.
pub record IsRingStable (k : Kernel) (R : World → World → Type 0) : Type 0 where
  pub alone : {w u : World} → Undisturbed w u → R w u
  pub trans : {u v w : World} → R u v → R v w → R u w
  pub tx :
      (isr_value : ℕ) (w : World)
      → has isr_value ixr_txok_mask ≡ true
      → R w (xcan_tx_interrupt k isr_value w).1

module _ (k : Kernel) where
  pub handle_rx-Undisturbed :
      (isr_value : ℕ) (w : World) → Undisturbed w (handle_rx k isr_value w).1
  unfolding handle_rx schedule_rx
  handle_rx-Undisturbed isr_value w = ground arith

  pub handle_error-Undisturbed :
      (isr_value : ℕ) (w : World) → Undisturbed w (handle_error k isr_value w).1
  unfolding handle_error
  handle_error-Undisturbed isr_value w =
      let err = Undisturbed-err_interrupt k isr_value (write_reg icr error_bits w).1 in ground arith

  ring-IsHandlerStable : (R : World → World → Type 0) → IsRingStable k R → IsHandlerStable k R
  ring-IsHandlerStable R ring = record {
    same = λ w. ring.alone (Undisturbed-refl w);
    trans = ring.trans;
    status = λ w. ring.alone (ground arith);
    sleep = λ x w. ring.alone (handle_sleep-Undisturbed x w);
    tx = ring.tx;
    error = λ x w. ring.alone (handle_error-Undisturbed x w);
    rx = λ x w. ring.alone (handle_rx-Undisturbed x w);
  }

  pub xcan_interrupt-Along :
      (R : World → World → Type 0) → IsRingStable k R → (w : World) → R w (xcan_interrupt k w).1
  xcan_interrupt-Along R ring = xcan_interrupt-Stable k R (ring-IsHandlerStable R ring)

  -- Whatever the interrupt status is, xcan_interrupt keeps the ring bounded and the queue awake
  -- only while there is room.
  pub xcan_interrupt-IsControlled :
      (w : World) → IsControlled w → IsControlled (xcan_interrupt k w).1
  xcan_interrupt-IsControlled =
      xcan_interrupt-Along (λ w u. IsControlled w → IsControlled u)
        (record {
          alone = Undisturbed-IsControlled;
          trans = λ s t c. t (s c);
          tx = xcan_tx_interrupt-IsControlled k;
        })

  handle-Undisturbed :
      (isr_value : ℕ) (w : World)
      → has isr_value ixr_txok_mask ≡ false
      → Undisturbed w (handle k isr_value w).1
  unfolding handle handle_tx
  handle-Undisturbed isr_value w off =
      let u = (handle_sleep isr_value w).1 in
      let v = (handle_error k isr_value u).1 in
      rw off (
        Undisturbed-trans (handle_sleep-Undisturbed isr_value w) (
          Undisturbed-trans (handle_error-Undisturbed isr_value u)
            (handle_rx-Undisturbed isr_value v)))

  -- Without TXOK in the status the ring is left alone.
  pub xcan_interrupt-Undisturbed :
      (w : World)
      → has (read_reg k isr w).0 ixr_txok_mask ≡ false
      → Undisturbed w (xcan_interrupt k w).1
  unfolding xcan_interrupt
  xcan_interrupt-Undisturbed w off =
      let (status, u) = read_reg k isr w in
      let seen : Undisturbed w u = ground arith in
      elim (Bool-cases (status == 0)) [
        | inl e ↦ rw e seen
        | inr e ↦ rw e (Undisturbed-trans seen (handle-Undisturbed status u off))
      ]
