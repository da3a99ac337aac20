-- ===== src/Receive/Poll.antt =====
-- The contract of xcan_rx_poll with NAPI.
use zynq_can_sja1000_top.Common.{ℕ, zero, suc, ◌+◌, ◌≤◌, ◌<◌, u32, ◌≡◌, refl, ap, arith, [], ◌∷◌}
use zynq_can_sja1000_top.Common.{
  Option, none, some, true, false, Option-cases, Bool-cases, Bool, ◌==◌, inl, inr, ◌⊎◌, has, ltb,
  ◌&&◌, bit_or,
}
use mathlib.Core.Path.{subst}
use mathlib.Core.Option.{some-injective}
use zynq_can_sja1000_top.Registers.{Reg, isr, icr, ixr_rxnemp_mask, ixr_rxok_mask}
use zynq_can_sja1000_top.Kernel.{Kernel, Event, History}
use zynq_can_sja1000_top.Driver.{World, read_reg, write_reg}
use zynq_can_sja1000_top.Receive.{xcan_rx, poll_round, poll_loop, poll_end, xcan_rx_poll}
use zynq_can_sja1000_top.Receive.Frames.{
  delivered, delivered-xcan_rx, xcan_rx-Takes, xcan_rx-dropped,
}

-- How often the poll was reported as complete.
abbrev pub completions : History → ℕ
completions [] = 0
completions (Event.napi_complete ∷ h) = suc (completions h)
completions (_ ∷ h) = completions h

-- The value read last from the interrupt status.
abbrev pub last_status : History → Option ℕ
last_status [] = none
last_status (Event.ioread o Reg.isr x ∷ h) = some x
last_status (_ ∷ h) = last_status h

-- The newest event sets both bits in the interrupt enable register, on top of the value that it
-- was just read to hold.
abbrev pub enables : History → Bool
enables (Event.iowrite o Reg.ier x ∷ Event.ioread p Reg.ier y ∷ h) =
    x == u32 (bit_or y (bit_or ixr_rxok_mask ixr_rxnemp_mask))
enables _ = false

module _ (k : Kernel) where
  completions-xcan_rx : (w : World) → completions (xcan_rx k w).1.history ≡ completions w.history
  completions-xcan_rx w = elim (Option-cases (k.alloc_can_skb w.history)) [
    | inl e ↦ rw (xcan_rx-dropped k w e) refl
    | inr (empty, e) ↦ ap completions (xcan_rx-Takes k w empty e).1.events
  ]

  xcan_rx-le : (w : World) → (xcan_rx k w).0 ≤ 1
  xcan_rx-le w = elim (Option-cases (k.alloc_can_skb w.history)) [
    | inl e ↦ rw (xcan_rx-dropped k w e) (omega arith)
    | inr (empty, e) ↦ omega (arith, (xcan_rx-Takes k w empty e).0)
  ]

  -- What one round does.
  record OneRound (w : World) : Type 0 where
    few : (poll_round k w).0.0 ≤ 1
    count : delivered (poll_round k w).1.history ≡ delivered w.history + (poll_round k w).0.0
    open_poll : completions (poll_round k w).1.history ≡ completions w.history
    status : last_status (poll_round k w).1.history ≡ some (poll_round k w).0.1

  poll_round-OneRound : (w : World) → OneRound w
  unfolding poll_round
  poll_round-OneRound w =
      let w' = (write_reg icr ixr_rxok_mask w).1 in
      record {
        few = xcan_rx-le w';
        count = delivered-xcan_rx k w';
        open_poll = completions-xcan_rx w';
        status = refl;
      }

  -- Where the loop ends, from `work` frames and the status `isr_value` in `w`.
  record Ends (quota work isr_value : ℕ) (w : World) (n : ℕ) (w' : World) : Type 0 where
    last : ℕ
    few : n ≤ quota
    count : delivered w'.history + work ≡ delivered w.history + n
    open_poll : completions w'.history ≡ completions w.history
    status : last_status w'.history ≡ some last
    stopped : (n ≡ quota) ⊎ (has last ixr_rxnemp_mask ≡ false)

  Ends-now :
      (quota work isr_value : ℕ) (w : World)
      → work ≤ quota
      → last_status w.history ≡ some isr_value
      → (has isr_value ixr_rxnemp_mask && ltb work quota) ≡ false
      → Ends quota work isr_value w work w
  Ends-now quota work isr_value w few seen stop = record {
    last = isr_value;
    few = few;
    count = refl;
    open_poll = refl;
    status = seen;
    stopped = ground arith;
  }

  Ends-next :
      (quota work isr_value : ℕ) (w : World) {n : ℕ} {w' : World}
      → let r = poll_round k w in
        Ends quota (work + r.0.0) r.0.1 r.1 n w' → Ends quota work isr_value w n w'
  Ends-next quota work isr_value w e =
      let r = poll_round-OneRound w in
      record {
        last = e.last;
        few = e.few;
        count = omega arith;
        open_poll = omega arith;
        status = e.status;
        stopped = e.stopped;
      }

  poll_loop-Ends :
      (fuel quota work isr_value : ℕ) (w : World) {n : ℕ} {w' : World}
      → work ≤ quota
      → last_status w.history ≡ some isr_value
      → poll_loop k fuel quota work isr_value w ≡ some (n, w')
      → Ends quota work isr_value w n w'
  unfolding poll_loop
  poll_loop-Ends zero quota work isr_value w few seen h = cc
  poll_loop-Ends (suc fuel) quota work isr_value w few seen h =
      elim (Bool-cases (has isr_value ixr_rxnemp_mask && ltb work quota)) [
        | inl go ↦ Ends-next quota work isr_value w (
            poll_loop-Ends fuel quota _ _ _ (ground (arith, (poll_round-OneRound w).few))
              (poll_round-OneRound w).status (rw go at h))
        | inr stop ↦
            subst (λ r. Ends quota work isr_value w r.0 r.1) (some-injective _ _ (rw stop at h))
              (Ends-now quota work isr_value w few seen stop)
      ]

  -- What NAPI relies on. `n` frames were delivered, at most `quota`. With fewer than `quota` the
  -- last status was without RXNEMP, the poll is reported as complete once, and the last access
  -- sets RXOK and RXNEMP in the interrupt enable register; with `quota` it is not reported.
  pub record Contract (quota : ℕ) (w : World) (n : ℕ) (w' : World) : Type 0 where
    pub few : n ≤ quota
    pub count : delivered w'.history ≡ delivered w.history + n
    pub last : ℕ
    pub status : last_status w'.history ≡ some last
    pub finish :
        ((n ≡ quota) × (completions w'.history ≡ completions w.history))
        ⊎ ((n < quota)
            × (has last ixr_rxnemp_mask ≡ false)
            × (completions w'.history ≡ suc (completions w.history))
            × (enables w'.history ≡ true))

  poll_end-Contract :
      (quota isr_value : ℕ) (w u : World) {n : ℕ}
      → Ends quota 0 isr_value (read_reg k isr w).1 n u
      → let r = poll_end k quota n u in (r.0 ≡ n) × Contract quota w n r.1
  unfolding poll_end
  poll_end-Contract quota isr_value w u {n} e = (
    refl,
    record {
      few = e.few;
      count = ground arith;
      last = e.last;
      status = ground arith;
      finish = ground arith;
    },
  )

  -- When xcan_rx_poll returns `n`, it has delivered `n` frames, at most `quota`. Either `n` is
  -- `quota` and the poll is not reported as complete, or `n` is less, the interrupt status read
  -- last was without RXNEMP, the poll is reported as complete once, and the last access adds RXOK
  -- and RXNEMP to the interrupt enable register.
  pub xcan_rx_poll-Contract :
      (fuel quota : ℕ) (w : World) {n : ℕ} {w' : World}
      → xcan_rx_poll k fuel quota w ≡ some (n, w')
      → Contract quota w n w'
  unfolding xcan_rx_poll
  xcan_rx_poll-Contract fuel quota w {n} {w'} h =
      from_loop (poll_loop k fuel quota 0 first.0 first.1) refl h
    where
      first : ℕ × World
      first = read_reg k isr w

      from_loop :
          (o : Option (ℕ × World))
          → poll_loop k fuel quota 0 first.0 first.1 ≡ o
          → (elim o [ none ↦ none | some (work, u) ↦ some (poll_end k quota work u) ])
            ≡ some (n, w')
          → Contract quota w n w'
      from_loop none e h = cc
      from_loop (some (work, u)) e h =
          let c =
            poll_end-Contract quota first.0 w u
              (poll_loop-Ends fuel quota 0 first.0 first.1 (omega arith) refl e) in
          let r = some-injective _ _ h in
          subst (λ (r : ℕ × World). Contract quota w r.0 r.1) r (rw (c.0) (c.1))
