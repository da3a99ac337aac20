-- ===== src/Transmit/Echo/Refine.antt =====
-- xcan_tx_interrupt as the operation that takes frames off a queue.
use zynq_can_sja1000_top.Common.{
  ℕ, zero, suc, ◌+◌, ◌-◌, ◌%◌, ◌^◌, ◌≤◌, ◌<◌, u32, ltb, has, ◌&&◌, ◌≡◌, ◌≢◌, ◌⊎◌, inl, inr, refl,
  ap, sym, ◌∙◌, arith, List, [], ◌∷◌, ◌++◌, false, Bool-cases,
}
use Prim.Native.Nat.{◌∣◌}
use mathlib.Core.List.{append_assoc, append-nil}
use zynq_can_sja1000_top.Registers.{ixr_txok_mask}
use zynq_can_sja1000_top.Can.{CanFrame}
use zynq_can_sja1000_top.Kernel.{Kernel}
use zynq_can_sja1000_top.Driver.{World}
use zynq_can_sja1000_top.Transmit.{xcan_tx_interrupt, complete_frame, tx_loop}
use zynq_can_sja1000_top.Transmit.Completion.{
  in_flight, AreWords, complete_frame-AreWords, next_in_flight,
}
use zynq_can_sja1000_top.Transmit.Queue.{IsControlled}
use zynq_can_sja1000_top.Transmit.Ring.{slots, slots-Distinct}
use zynq_can_sja1000_top.Transmit.Echo.{echo_calls, echoed, accepted}
use zynq_can_sja1000_top.Transmit.Echo.Held.{Holds, calls, Holds-nil, Holds-get, Front}

-- From `w` with the queue `q` to `w'`: the frames `done` were taken off the front of the queue
-- and echoed, in their order, and `rest` is left. With TXOK in `isr_value` and a frame in the
-- queue there is a frame in `done`.
pub record Echoes (isr_value : ℕ) (w : World) (q : List CanFrame) (w' : World) : Type 0 where
  pub done : List CanFrame
  pub rest : List CanFrame
  pub split : q ≡ done ++ rest
  pub holds : Holds w' rest
  pub in_order : echoed (echo_calls w'.history) ≡ echoed (echo_calls w.history) ++ done
  pub no_more : accepted (echo_calls w'.history) ≡ accepted (echo_calls w.history)
  pub progress : (q ≡ []) ⊎ (has isr_value ixr_txok_mask ≡ false) ⊎ (done ≢ [])

Echoes-none :
    (isr_value : ℕ) (w : World) (q : List CanFrame)
    → (q ≡ []) ⊎ (has isr_value ixr_txok_mask ≡ false)
    → Holds w q
    → Echoes isr_value w q w
Echoes-none isr_value w q stop h = record {
  done = [];
  rest = q;
  split = refl;
  holds = h;
  in_order = sym (append-nil _);
  no_more = refl;
  progress = elim stop [ inl e ↦ inl e | inr e ↦ inr (inl e) ];
}

Echoes-one :
    (isr_value next : ℕ) (w u w' : World) (cf : CanFrame) (q : List CanFrame)
    → echoed (calls u) ≡ echoed (calls w) ++ (cf ∷ [])
    → accepted (calls u) ≡ accepted (calls w)
    → Echoes next u q w'
    → Echoes isr_value w (cf ∷ q) w'
Echoes-one isr_value next w u w' cf q e same d = record {
  done = cf ∷ d.done;
  rest = d.rest;
  split = ap (λ cfs. cf ∷ cfs) d.split;
  holds = d.holds;
  in_order = d.in_order ∙ rw (e, append_assoc) refl;
  no_more = d.no_more ∙ same;
  progress = inr (inr (λ x. cc));
}

module _ (k : Kernel) where
  complete_frame-Front :
      (w : World) (q : List CanFrame) (n : ℕ)
      → w.priv.tx_max ∣ 2 ^ 32
      → AreWords w
      → in_flight w ≤ w.priv.tx_max
      → in_flight w ≡ suc n
      → Holds w q
      → Front w q (complete_frame k w).1
  unfolding complete_frame
  complete_frame-Front w q n divides a few busy h =
      let max = w.priv.tx_max in
      let t = w.priv.tx_tail in
      let u = (complete_frame k w).1 in
      let less : in_flight u ≡ n = omega arith in
      Holds-get w u (t % max) (slots max (u32 (t + 1)) n) q (ap (slots max t) busy)
        (ap (slots max (u32 (t + 1))) less)
        (slots-Distinct max divides t (suc n) a.tail (omega arith)).0 refl h

  next_fits :
      (w : World)
      → w.priv.tx_max ∣ 2 ^ 32
      → AreWords w
      → in_flight w ≤ w.priv.tx_max
      → 0 < in_flight w
      → let u = (complete_frame k w).1 in (u.priv.tx_max ∣ 2 ^ 32) × (in_flight u ≤ u.priv.tx_max)
  unfolding complete_frame
  next_fits w divides a few busy = (divides, omega arith)

  loop_step :
      (isr_value next : ℕ) (w u w' : World) (q : List CanFrame)
      → Front w q u
      → ((q' : List CanFrame) → Holds u q' → Echoes next u q' w')
      → Echoes isr_value w q w'
  loop_step isr_value next w u w' [] f ih = absurd f
  loop_step isr_value next w u w' (cf ∷ q) f ih =
      Echoes-one isr_value next w u w' cf q f.1 f.2 (ih q f.0)

  loop_stop :
      (isr_value : ℕ) (w : World) (q : List CanFrame)
      → (in_flight w ≡ 0) ⊎ (has isr_value ixr_txok_mask ≡ false)
      → Holds w q
      → Echoes isr_value w q w
  loop_stop isr_value w q (inl e) h = Echoes-none isr_value w q (inl (Holds-nil w q e h)) h
  loop_stop isr_value w q (inr e) h = Echoes-none isr_value w q (inr e) h

  tx_loop-Echoes :
      (fuel isr_value : ℕ) (w : World) (q : List CanFrame)
      → w.priv.tx_max ∣ 2 ^ 32
      → AreWords w
      → in_flight w ≤ w.priv.tx_max
      → in_flight w ≤ fuel
      → Holds w q
      → Echoes isr_value w q (tx_loop k fuel isr_value w).1
  unfolding tx_loop
  tx_loop-Echoes zero isr_value w q divides a few enough h =
      loop_stop isr_value w q (inl (omega arith)) h
  tx_loop-Echoes (suc fuel) isr_value w q divides a few enough h =
      let next = complete_frame k w in
      elim (Bool-cases (ltb 0 (in_flight w) && has isr_value ixr_txok_mask)) [
        | inl go ↦
            let (d, f) = next_fits w divides a few (ground arith) in
            let e = next_in_flight k w a (ground arith) enough in
            let n : in_flight w ≡ suc (in_flight w - 1) = ground arith in
            rw go (
              loop_step isr_value next.0 w next.1 _ q
                (complete_frame-Front w q (in_flight w - 1) divides a few n h)
                (λ q' h'.
                  tx_loop-Echoes fuel next.0 next.1 q' d (complete_frame-AreWords k w a) f e h'))
        | inr stop ↦ rw stop (loop_stop isr_value w q (ground arith) h)
      ]

  -- With a `tx_max` that divides 2 ^ 32 and the ring controlled and standing for the queue `q`:
  -- xcan_tx_interrupt takes some frames off the front of the queue and echoes these, in their
  -- order, and the ring stands for the rest. With TXOK in the status and a frame in the queue it
  -- echoes at least one, and it puts none into the ring.
  pub xcan_tx_interrupt-Echoes :
      (isr_value : ℕ) (w : World) (q : List CanFrame)
      → w.priv.tx_max ∣ 2 ^ 32
      → IsControlled w
      → Holds w q
      → Echoes isr_value w q (xcan_tx_interrupt k isr_value w).1
  unfolding xcan_tx_interrupt
  xcan_tx_interrupt-Echoes isr_value w q divides c h =
      let e =
        tx_loop-Echoes (in_flight w) isr_value w q divides c.words c.bounded (omega arith) h in
      record {
        done = e.done;
        rest = e.rest;
        split = e.split;
        holds = record { stored = e.holds.stored; others = e.holds.others };
        in_order = e.in_order;
        no_more = e.no_more;
        progress = e.progress;
      }
