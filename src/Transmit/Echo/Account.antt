-- ===== src/Transmit/Echo/Account.antt =====
-- Every frame that xcan_start_xmit puts into the ring: echoed by xcan_tx_interrupt, or still in
-- the ring.
use zynq_can_sja1000_top.Common.{
  refl, ℕ, ◌^◌, ◌<◌, ◌≡◌, inl, inr, ap, sym, ◌∙◌, List, [], ◌∷◌, ◌++◌, true, has,
}
use Prim.Native.Nat.{◌∣◌}
use mathlib.Core.Bool.{true≢false}
use mathlib.Core.List.{append_assoc}
use mathlib.Core.Path.{subst}
use zynq_can_sja1000_top.Registers.{ixr_txok_mask}
use zynq_can_sja1000_top.Can.{CanFrame}
use zynq_can_sja1000_top.Kernel.{Kernel}
use zynq_can_sja1000_top.Driver.{World, Priv}
use zynq_can_sja1000_top.Transmit.{xcan_start_xmit, xcan_tx_interrupt}
use zynq_can_sja1000_top.Transmit.Completion.{in_flight, xcan_tx_interrupt-Completes}
use zynq_can_sja1000_top.Transmit.Queue.{
  IsControlled, queue_awake, xcan_start_xmit-IsControlled, xcan_tx_interrupt-IsControlled,
}
use zynq_can_sja1000_top.Transmit.Echo.{echo_calls, echoed, accepted}
use zynq_can_sja1000_top.Transmit.Echo.Held.{Holds}
use zynq_can_sja1000_top.Transmit.Echo.Refine.{xcan_tx_interrupt-Echoes}
use zynq_can_sja1000_top.Transmit.Echo.Send.{xcan_start_xmit-Holds}

-- The frames put into the ring so far are, in their order, those echoed so far and behind them
-- those in the ring, for which it stands.
pub record IsAccounted (w : World) : Type 0 where
  pub divides : w.priv.tx_max ∣ 2 ^ 32
  pub controlled : IsControlled w
  pub waiting : List CanFrame
  pub holds : Holds w waiting
  pub complete : accepted (echo_calls w.history) ≡ echoed (echo_calls w.history) ++ waiting

has_room : {w : World} → queue_awake w.history ≡ true → IsControlled w → in_flight w < w.priv.tx_max
has_room awake c = elim c.room [ inl e ↦ absurd (true≢false (sym awake ∙ e)) | inr h ↦ h ]

module _ (k : Kernel) where
  pub xcan_start_xmit-IsAccounted :
      (cf : CanFrame) (w : World)
      → queue_awake w.history ≡ true
      → IsAccounted w
      → IsAccounted (xcan_start_xmit k cf w).1
  xcan_start_xmit-IsAccounted cf w awake a =
      let c = xcan_start_xmit-IsControlled k cf w awake a.controlled in
      let (same, max, ends) =
        xcan_start_xmit-Holds k cf w a.waiting a.divides a.controlled (has_room awake a.controlled)
          a.holds in
      let d = subst (λ m. m ∣ 2 ^ 32) (sym max) a.divides in
      elim ends [
        | inl (o, keeps, h) ↦ record {
          divides = d;
          controlled = c;
          waiting = a.waiting;
          holds = h;
          complete = keeps ∙ a.complete ∙ ap (λ xs. xs ++ a.waiting) (sym same);
        }
        | inr (valid, o, more, h) ↦ record {
          divides = d;
          controlled = c;
          waiting = a.waiting ++ (cf ∷ []);
          holds = h;
          complete = more ∙ rw (same, a.complete, append_assoc) refl;
        }
      ]

  max-xcan_tx_interrupt :
      (isr_value : ℕ) (w : World)
      → IsControlled w
      → (xcan_tx_interrupt k isr_value w).1.priv.tx_max ≡ w.priv.tx_max
  max-xcan_tx_interrupt isr_value w c =
      let (w', done, e) = xcan_tx_interrupt-Completes k isr_value w c.words in
      rw e (ap (λ (p : Priv). p.tx_max) done.priv)

  pub xcan_tx_interrupt-IsAccounted :
      (isr_value : ℕ) (w : World)
      → has isr_value ixr_txok_mask ≡ true
      → IsAccounted w
      → IsAccounted (xcan_tx_interrupt k isr_value w).1
  xcan_tx_interrupt-IsAccounted isr_value w t a =
      let e = xcan_tx_interrupt-Echoes k isr_value w a.waiting a.divides a.controlled a.holds in
      let max = max-xcan_tx_interrupt isr_value w a.controlled in
      record {
        divides = subst (λ m. m ∣ 2 ^ 32) (sym max) a.divides;
        controlled = xcan_tx_interrupt-IsControlled k isr_value w t a.controlled;
        waiting = e.rest;
        holds = e.holds;
        complete = e.no_more ∙ a.complete ∙ rw (e.in_order, append_assoc, sym e.split) refl;
      }
