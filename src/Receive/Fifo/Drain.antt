-- ===== src/Receive/Fifo/Drain.antt =====
-- What a poll of xcan_rx_poll moves out of the receive FIFO.
use zynq_can_sja1000_top.Common.{ℕ, zero, suc, ◌+◌, ◌≤◌, ◌≡◌, refl, ap, sym, arith, ◌++◌}
use zynq_can_sja1000_top.Common.{
  Option, none, some, false, Bool-cases, inl, inr, ◌⊎◌, has, ltb, ◌&&◌,
}
use mathlib.Core.List.{append-nil}
use mathlib.Core.Path.{subst}
use mathlib.Core.Option.{some-injective}
use zynq_can_sja1000_top.Registers.{isr, ixr_rxnemp_mask}
use zynq_can_sja1000_top.Can.{CanFrame}
use zynq_can_sja1000_top.Kernel.{Kernel, History}
use zynq_can_sja1000_top.Driver.{World, read_reg}
use zynq_can_sja1000_top.Frame.{FifoWords}
use zynq_can_sja1000_top.Receive.{poll_round, poll_loop, poll_end, xcan_rx_poll}
use zynq_can_sja1000_top.Receive.Poll.{xcan_rx_poll-Contract}
use zynq_can_sja1000_top.Receive.Fifo.{
  popped, handed_up, before_status, unannounced, IsFifo, frames,
}
use zynq_can_sja1000_top.Receive.Fifo.Moves.{
  Moves, Shows, Shows-read, poll_round-Moves, Moves-trans,
}

module _ (k : Kernel) (empty : CanFrame) (words : ℕ → FifoWords) (arrived : History → ℕ)
    (fifo : IsFifo k words arrived) where
  -- Where the loop ends, from `work` frames in `w`.
  record Drains (quota work : ℕ) (w : World) (n : ℕ) (w' : World) : Type 0 where
    more : ℕ
    total : n ≡ work + more
    moves : Moves k empty words arrived fifo w more w'
    stopped : (quota ≤ n) ⊎ (arrived (before_status w'.history) ≤ popped w'.history)
    quiet : unannounced w'.history ≡ 0

  Drains-now :
      (quota work isr_value : ℕ) (w : World)
      → Shows k empty words arrived fifo isr_value w
      → (has isr_value ixr_rxnemp_mask && ltb work quota) ≡ false
      → Drains quota work w work w
  Drains-now quota work isr_value w s stop = record {
    more = 0;
    total = omega arith;
    moves = record { taken = omega arith; given = sym (append-nil _) };
    stopped = ground (arith, s.seen);
    quiet = s.quiet;
  }

  Drains-next :
      (quota work m : ℕ) (w u : World) {n : ℕ} {w' : World}
      → Moves k empty words arrived fifo w m u
      → Drains quota (work + m) u n w'
      → Drains quota work w n w'
  Drains-next quota work m w u a d = record {
    more = m + d.more;
    total = omega (arith, d.total);
    moves = Moves-trans k empty words arrived fifo a d.moves;
    stopped = d.stopped;
    quiet = d.quiet;
  }

  poll_loop-Drains :
      (fuel quota work isr_value : ℕ) (w : World) {n : ℕ} {w' : World}
      → ((h : History) → (k.alloc_can_skb h ≡ none) ⊎ (k.alloc_can_skb h ≡ some empty))
      → Shows k empty words arrived fifo isr_value w
      → poll_loop k fuel quota work isr_value w ≡ some (n, w')
      → Drains quota work w n w'
  unfolding poll_loop
  poll_loop-Drains zero quota work isr_value w alloc s h = cc
  poll_loop-Drains (suc fuel) quota work isr_value w alloc s h =
      let r = poll_round k w in
      elim (Bool-cases (has isr_value ixr_rxnemp_mask && ltb work quota)) [
        | inl go ↦
            let (m, s') =
              poll_round-Moves k empty words arrived fifo w alloc
                (ground (arith, s.seen, s.older)) in
            Drains-next quota work r.0.0 w r.1 m
              (poll_loop-Drains fuel quota (work + r.0.0) r.0.1 r.1 alloc s' (rw go at h))
        | inr stop ↦
            subst (λ r. Drains quota work w r.0 r.1) (some-injective _ _ (rw stop at h))
              (Drains-now quota work isr_value w s stop)
      ]

  -- What a poll moves: `n` frames, at most `quota`, from the FIFO to the network stack; with
  -- fewer than `quota` the FIFO was empty when the interrupt status was last read.
  pub record Delivers (quota : ℕ) (w : World) (n : ℕ) (w' : World) : Type 0 where
    pub taken : popped w'.history ≡ popped w.history + n
    pub given :
        handed_up w'.history ≡ handed_up w.history ++ frames k empty words (popped w.history) n
    pub few : n ≤ quota
    pub finish : (n ≡ quota) ⊎ (arrived (before_status w'.history) ≤ popped w'.history)
    pub quiet : unannounced w'.history ≡ 0

  poll_end-Delivers :
      (quota : ℕ) (w u : World) {n : ℕ}
      → n ≤ quota
      → Drains quota 0 (read_reg k isr w).1 n u
      → let r = poll_end k quota n u in Delivers quota w r.0 r.1
  unfolding poll_end
  poll_end-Delivers quota w u {n} few d =
      let t : n ≡ d.more = omega (arith, d.total) in
      record {
        taken = ground (arith, d.moves.taken);
        given = ground (arith, d.moves.given);
        few = few;
        finish = ground (arith, d.stopped);
        quiet = ground (arith, d.quiet);
      }

  -- The core's registers show a FIFO that frames may arrive in at any time, with RXNEMP as a latch
  -- that a FIFO with frames sets and only the clear register resets; a new frame buffer is refused
  -- or is `empty`; and nothing was taken out of the FIFO since RXNEMP was last cleared. When xcan_rx_poll returns `n`, it has taken the next `n` frames out
  -- of the FIFO and handed exactly these to the network stack, in their order, each as rx_frame
  -- decodes it, whatever number of allocations failed on the way. `n` is at most `quota`, and when
  -- it is less the FIFO was empty at the last read of the interrupt status. Afterwards again nothing was
  -- taken out since RXNEMP was last cleared, which is what the next poll needs.
  pub xcan_rx_poll-Delivers :
      (fuel quota : ℕ) (w : World) {n : ℕ} {w' : World}
      → ((h : History) → (k.alloc_can_skb h ≡ none) ⊎ (k.alloc_can_skb h ≡ some empty))
      → unannounced w.history ≡ 0
      → xcan_rx_poll k fuel quota w ≡ some (n, w')
      → Delivers quota w n w'
  unfolding xcan_rx_poll poll_end
  xcan_rx_poll-Delivers fuel quota w {n} {w'} alloc quiet whole =
      from_loop (poll_loop k fuel quota 0 first.0 first.1) refl whole
    where
      first : ℕ × World
      first = read_reg k isr w

      shows : Shows k empty words arrived fifo first.0 first.1
      shows = Shows-read k empty words arrived fifo w quiet

      from_loop :
          (o : Option (ℕ × World))
          → poll_loop k fuel quota 0 first.0 first.1 ≡ o
          → (elim o [ none ↦ none | some (work, u) ↦ some (poll_end k quota work u) ])
            ≡ some (n, w')
          → Delivers quota w n w'
      from_loop none e h = cc
      from_loop (some (work, u)) e h =
          let q = some-injective _ _ h in
          let contract = xcan_rx_poll-Contract k fuel quota w whole in
          let few : work ≤ quota = omega (arith, contract.few, ap (λ (r : ℕ × World). r.0) q) in
          let c =
            poll_end-Delivers quota w u few
              (poll_loop-Drains fuel quota 0 first.0 first.1 alloc shows e) in
          subst (λ (r : ℕ × World). Delivers quota w r.0 r.1) q c
