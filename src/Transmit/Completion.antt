-- ===== src/Transmit/Completion.antt =====
-- What the loop of xcan_tx_interrupt has done when it stops.
use zynq_can_sja1000_top.Common.{ℕ, zero, suc, ◌+◌, ◌^◌, ◌≤◌, ◌<◌, u32, sub32, ltb, has, ◌&&◌}
use zynq_can_sja1000_top.Common.{◌≡◌, ◌⊎◌, inl, inr, arith, false, List, [], ◌∷◌, Bool-cases, refl}
use zynq_can_sja1000_top.Common.{Option, none, some}
use zynq_can_sja1000_top.Registers.{ixr_txok_mask, Reg}
use zynq_can_sja1000_top.Kernel.{Kernel, Event, History, led_tx}
use zynq_can_sja1000_top.Driver.{World}
use zynq_can_sja1000_top.Transmit.{xcan_tx_interrupt, tx_loop, complete_frame}
use zynq_can_sja1000_top.Transmit.Ring.{slots}

abbrev pub in_flight : World → ℕ
in_flight w = sub32 w.priv.tx_head w.priv.tx_tail

-- The echo slots given back so far, the newest first.
abbrev pub released : History → List ℕ
released [] = []
released (Event.get_echo_skb s ∷ h) = s ∷ released h
released (_ ∷ h) = released h

-- The value of the newest event, if that is a read of the interrupt status.
abbrev pub isr_read : History → Option ℕ
isr_read (Event.ioread o Reg.isr x ∷ h) = some x
isr_read _ = none

-- The first list turned round, in front of the second.
abbrev pub unwind : List ℕ → List ℕ → List ℕ
unwind [] ys = ys
unwind (x ∷ xs) ys = unwind xs (x ∷ ys)

-- From `w` with interrupt status `isr_value` to `w'`: some of the frames in flight, the oldest
-- first, gave their echo slots back and were counted, and the loop stopped by its own test, on
-- `last` as the status that it read last.
pub record Completes (isr_value : ℕ) (w w' : World) : Type 0 where
  pub count : ℕ
  pub last : ℕ
  pub few : count ≤ in_flight w
  pub priv : w'.priv ≡ record w.priv { tx_tail = u32 (w.priv.tx_tail + count) }
  pub stats : w'.stats ≡ record w.stats { tx_packets = u32 (w.stats.tx_packets + count) }
  pub slots_back :
      released w'.history ≡ unwind (slots w.priv.tx_max w.priv.tx_tail count) (released w.history)
  pub status :
      ((count ≡ 0) × (last ≡ isr_value) × (w'.history ≡ w.history))
      ⊎ ((0 < count) × (isr_read w'.history ≡ some last))
  pub stopped : (in_flight w' ≡ 0) ⊎ (has last ixr_txok_mask ≡ false)

-- The counters are words of 32 bits.
pub record AreWords (w : World) : Type 0 where
  pub head : w.priv.tx_head < 2 ^ 32
  pub tail : w.priv.tx_tail < 2 ^ 32
  pub packets : w.stats.tx_packets < 2 ^ 32

module _ (k : Kernel) where
  pub complete_frame-AreWords : (w : World) → AreWords w → AreWords (complete_frame k w).1
  unfolding complete_frame
  complete_frame-AreWords w a = omega arith

  pub next_in_flight :
      (w : World)
      → AreWords w
      → 0 < in_flight w
      → {fuel : ℕ} → in_flight w ≤ suc fuel
      → in_flight (complete_frame k w).1 ≤ fuel
  unfolding complete_frame
  next_in_flight w a busy h = omega arith

  Completes-none :
      (isr_value : ℕ) (w : World)
      → AreWords w
      → (in_flight w ≡ 0) ⊎ (has isr_value ixr_txok_mask ≡ false)
      → Completes isr_value w w
  Completes-none isr_value w a s = record {
    count = 0;
    last = isr_value;
    few = omega arith;
    priv = ground arith;
    stats = ground arith;
    slots_back = refl;
    status = inl (refl, refl, refl);
    stopped = s;
  }

  Completes-next :
      (isr_value : ℕ) (w w' : World)
      → AreWords w
      → 0 < in_flight w
      → let next = complete_frame k w in Completes next.0 next.1 w' → Completes isr_value w w'
  unfolding complete_frame
  Completes-next isr_value w w' a busy c = record {
    count = suc c.count;
    last = c.last;
    few = omega arith;
    priv = ground arith;
    stats = ground arith;
    slots_back = c.slots_back;
    status = ground arith;
    stopped = c.stopped;
  }

  tx_loop-Completes :
      (fuel isr_value : ℕ) (w : World)
      → AreWords w
      → in_flight w ≤ fuel
      → Completes isr_value w (tx_loop k fuel isr_value w).1
  unfolding tx_loop
  tx_loop-Completes zero isr_value w a h = Completes-none isr_value w a (inl (omega arith))
  tx_loop-Completes (suc fuel) isr_value w a h =
      let next = complete_frame k w in
      elim (Bool-cases (ltb 0 (in_flight w) && has isr_value ixr_txok_mask)) [
        | inl go ↦ rw go (
            Completes-next isr_value w _ a (ground arith) (
              tx_loop-Completes fuel next.0 next.1 (complete_frame-AreWords w a)
                (next_in_flight w a (ground arith) h)))
        | inr stop ↦ rw stop (Completes-none isr_value w a (ground arith))
      ]

  -- With counters that are 32-bit words, xcan_tx_interrupt takes frames in flight off the ring,
  -- the oldest first: each gives its echo slot back and is counted in tx_packets, nothing else of
  -- the driver's state changes, and it goes on until no frame is in flight or the status that it
  -- read last is without TXOK. Then it wakes the queue. The frames in flight are fuel enough for
  -- that.
  pub xcan_tx_interrupt-Completes :
      (isr_value : ℕ) (w : World)
      → AreWords w
      → (w' : World) × Completes isr_value w w'
        × (xcan_tx_interrupt k isr_value w
            ≡ (tt, record w' { history = Event.netif_wake_queue ∷ Event.led led_tx ∷ w'.history }))
  unfolding xcan_tx_interrupt
  xcan_tx_interrupt-Completes isr_value w a = (
    (tx_loop k (in_flight w) isr_value w).1,
    tx_loop-Completes (in_flight w) isr_value w a (omega arith),
    refl,
  )
