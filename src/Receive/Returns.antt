-- ===== src/Receive/Returns.antt =====
-- When the loop of xcan_rx_poll ends, and when it does not.
use zynq_can_sja1000_top.Common.{ℕ, zero, suc, ◌+◌, ◌≤◌, ◌<◌, u32, ◌≡◌, ◌≢◌, refl, ap, arith}
use zynq_can_sja1000_top.Common.{none, true, Option-cases, Bool-cases, inl, inr, has, ltb, ◌&&◌}
use zynq_can_sja1000_top.Registers.{isr, icr, ixr_rxnemp_mask, ixr_rxok_mask}
use zynq_can_sja1000_top.Kernel.{Kernel, History, ByteOrder}
use zynq_can_sja1000_top.Driver.{World, read_reg, write_reg}
use zynq_can_sja1000_top.Receive.{xcan_rx, poll_round, poll_loop, xcan_rx_poll}
use zynq_can_sja1000_top.Receive.Frames.{xcan_rx-Takes, xcan_rx-dropped}

module _ (k : Kernel) where
  xcan_rx-one : (w : World) → ((h : History) → k.alloc_can_skb h ≢ none) → (xcan_rx k w).0 ≡ 1
  xcan_rx-one w alloc = elim (Option-cases (k.alloc_can_skb w.history)) [
    | inl e ↦ absurd (alloc w.history e)
    | inr (empty, e) ↦ (xcan_rx-Takes k w empty e).0
  ]

  poll_round-one :
      (w : World) → ((h : History) → k.alloc_can_skb h ≢ none) → (poll_round k w).0.0 ≡ 1
  unfolding poll_round
  poll_round-one w alloc = xcan_rx-one (write_reg icr ixr_rxok_mask w).1 alloc

  -- With a buffer for every frame each round takes one, so `quota + 1` rounds of fuel suffice.
  poll_loop-total :
      (fuel quota work isr_value : ℕ) (w : World)
      → ((h : History) → k.alloc_can_skb h ≢ none)
      → work ≤ quota
      → quota < work + fuel
      → poll_loop k fuel quota work isr_value w ≢ none
  unfolding poll_loop
  poll_loop-total zero quota work isr_value w alloc few h = absurd (omega arith)
  poll_loop-total (suc fuel) quota work isr_value w alloc few h =
      let r = poll_round k w in
      elim (Bool-cases (has isr_value ixr_rxnemp_mask && ltb work quota)) [
        | inl go ↦ rw go (
            poll_loop-total fuel quota (work + r.0.0) r.0.1 r.1 alloc
              (ground (arith, poll_round-one w alloc)) (omega (arith, poll_round-one w alloc)))
        | inr stop ↦ rw stop (λ e. cc)
      ]

  -- If there is always a buffer for a frame, xcan_rx_poll returns: a budget of `quota` takes at
  -- most `quota + 1` tests of the loop.
  pub xcan_rx_poll-returns :
      (quota : ℕ) (w : World)
      → ((h : History) → k.alloc_can_skb h ≢ none)
      → xcan_rx_poll k (quota + 1) quota w ≢ none
  unfolding xcan_rx_poll
  xcan_rx_poll-returns quota w alloc =
      let first = read_reg k isr w in
      elim (Option-cases (poll_loop k (quota + 1) quota 0 first.0 first.1)) [
        | inl e ↦ absurd (
            poll_loop-total (quota + 1) quota 0 first.0 first.1 alloc (omega arith) (omega arith) e)
        | inr (r, e) ↦ rw (e, xcan_rx_poll) (λ x. cc)
      ]

  poll_round-idle :
      (w : World)
      → ((h : History) → k.alloc_can_skb h ≡ none)
      → ((h : History) (o : ByteOrder) → has (u32 (k.read32 h o isr)) ixr_rxnemp_mask ≡ true)
      → ((poll_round k w).0.0 ≡ 0) × (has (poll_round k w).0.1 ixr_rxnemp_mask ≡ true)
  unfolding poll_round
  poll_round-idle w alloc busy =
      let w' = (write_reg icr ixr_rxok_mask w).1 in
      (ap (λ (r : ℕ × World). r.0) (xcan_rx-dropped k w' (alloc w'.history)), busy _ _)

  poll_loop-spins :
      (fuel quota work isr_value : ℕ) (w : World)
      → work < quota
      → ((h : History) → k.alloc_can_skb h ≡ none)
      → ((h : History) (o : ByteOrder) → has (u32 (k.read32 h o isr)) ixr_rxnemp_mask ≡ true)
      → has isr_value ixr_rxnemp_mask ≡ true
      → poll_loop k fuel quota work isr_value w ≡ none
  unfolding poll_loop
  poll_loop-spins zero quota work isr_value w pos alloc busy h = refl
  poll_loop-spins (suc fuel) quota work isr_value w pos alloc busy h =
      let r = poll_round k w in
      let idle = poll_round-idle w alloc busy in
      let go : (has isr_value ixr_rxnemp_mask && ltb work quota) ≡ true = ground arith in
      rw go (poll_loop-spins fuel quota (work + r.0.0) r.0.1 r.1 (omega arith) alloc busy idle.1)

  -- If the allocation always fails and every read of the interrupt status has RXNEMP,
  -- xcan_rx_poll with a budget of at least 1 is still in its loop after any number of rounds: the
  -- budget does not bound it.
  pub xcan_rx_poll-spins :
      (fuel quota : ℕ) (w : World)
      → 0 < quota
      → ((h : History) → k.alloc_can_skb h ≡ none)
      → ((h : History) (o : ByteOrder) → has (u32 (k.read32 h o isr)) ixr_rxnemp_mask ≡ true)
      → xcan_rx_poll k fuel quota w ≡ none
  unfolding xcan_rx_poll
  xcan_rx_poll-spins fuel quota w pos alloc busy =
      let first = read_reg k isr w in
      rw
        (
          poll_loop-spins fuel quota 0 first.0 first.1 pos alloc busy
              (busy w.history w.priv.byte_order),
          xcan_rx_poll,
        )
        refl
