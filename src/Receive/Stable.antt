-- ===== src/Receive/Stable.antt =====
-- What xcan_rx_poll keeps: a relation between states that holds along xcan_rx, and along the
-- accesses and calls around it, holds along all of it.
use zynq_can_sja1000_top.Common.{ℕ, zero, suc, ◌+◌, Bool-cases, inl, inr, some, has, ltb, ◌&&◌}
use zynq_can_sja1000_top.Registers.{isr, icr, ixr_rxok_mask, ixr_rxnemp_mask}
use zynq_can_sja1000_top.Kernel.{Kernel}
use zynq_can_sja1000_top.Driver.{World, read_reg, write_reg}
use zynq_can_sja1000_top.Driver.Run.{Ensures, Ensures-map, Ensures-elim}
use zynq_can_sja1000_top.Receive.{xcan_rx, poll_round, poll_loop, poll_end, xcan_rx_poll}

pub record IsPollStable (k : Kernel) (R : World → World → Type 0) : Type 0 where
  pub same : (w : World) → R w w
  pub trans : {u v w : World} → R u v → R v w → R u w
  pub status : (w : World) → R w (read_reg k isr w).1
  pub clear : (x : ℕ) (w : World) → R w (write_reg icr x w).1
  pub rx : (w : World) → R w (xcan_rx k w).1
  pub finish : (quota work : ℕ) (w : World) → R w (poll_end k quota work w).1

module _ (k : Kernel) (R : World → World → Type 0) (stable : IsPollStable k R) where
  open stable use {same, trans, status, clear, rx, finish}

  poll_round-Stable : (w : World) → R w (poll_round k w).1
  unfolding poll_round
  poll_round-Stable w =
      let u = (write_reg icr ixr_rxok_mask w).1 in
      let v = (xcan_rx k u).1 in
      let x = (write_reg icr ixr_rxnemp_mask v).1 in
      trans (clear ixr_rxok_mask w) (trans (rx u) (trans (clear ixr_rxnemp_mask v) (status x)))

  poll_loop-Stable :
      (fuel quota work isr_value : ℕ) (w : World)
      → Ensures (λ n w'. R w w') (poll_loop k fuel quota work isr_value w)
  unfolding poll_loop
  poll_loop-Stable zero quota work isr_value w = tt
  poll_loop-Stable (suc fuel) quota work isr_value w =
      let ((n, next), u) = poll_round k w in
      elim (Bool-cases (has isr_value ixr_rxnemp_mask && ltb work quota)) [
        | inl e ↦ rw e (
            Ensures-map (poll_loop k fuel quota (work + n) next u)
              (λ m v s. trans (poll_round-Stable w) s)
              (poll_loop-Stable fuel quota (work + n) next u))
        | inr e ↦ rw e (same w)
      ]

  pub xcan_rx_poll-Stable :
      (fuel quota : ℕ) (w : World) → Ensures (λ n w'. R w w') (xcan_rx_poll k fuel quota w)
  unfolding xcan_rx_poll
  xcan_rx_poll-Stable fuel quota w =
      let (x, u) = read_reg k isr w in
      Ensures-elim (λ n v. R u v) (λ n v. R w v) (poll_loop k fuel quota 0 x u)
        (λ n v. some (poll_end k quota n v)) (poll_loop-Stable fuel quota 0 x u)
        (λ n v p. trans (status w) (trans p (finish quota n v)))
