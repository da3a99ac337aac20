-- ===== src/Lifecycle/Session.antt =====
-- The frames of a device, from its probing and its first opening on.
use zynq_can_sja1000_top.Common.{
  ℕ, ◌^◌, ◌<◌, ◌≡◌, ◌⊎◌, inl, inr, refl, sym, ap, ◌∙◌, arith, some, [], ℤ, pos, true, is_nonzero,
}
use Prim.Native.Nat.{◌∣◌}
use mathlib.Core.Bool.{true≢false}
use mathlib.Core.Path.{subst}
use zynq_can_sja1000_top.Can.{CanMode}
use zynq_can_sja1000_top.Kernel.{Kernel}
use zynq_can_sja1000_top.Driver.{World, Priv}
use zynq_can_sja1000_top.Driver.Run.{Ensures-some}
use zynq_can_sja1000_top.Mode.{xcan_do_set_mode}
use zynq_can_sja1000_top.Netdev.{
  BerrCounter, xcan_open, xcan_close, xcan_get_berr_counter, xcan_suspend, xcan_resume,
}
use zynq_can_sja1000_top.Netdev.Ring.{
  Ring, Quiet, do_set_mode-Ring, open-Ring, resume-Ring, close-Quiet, suspend-Quiet,
  get_berr_counter-Quiet,
}
use zynq_can_sja1000_top.Transmit.Ring.{slots}
use zynq_can_sja1000_top.Transmit.Completion.{in_flight}
use zynq_can_sja1000_top.Transmit.Echo.{echo_calls}
use zynq_can_sja1000_top.Transmit.Echo.Account.{IsAccounted}
use zynq_can_sja1000_top.Transmit.Echo.Same.{SameRing, SameRing-IsAccounted}
use zynq_can_sja1000_top.Probe.{Platform, xcan_probe}
use zynq_can_sja1000_top.Probe.Ends.{IsPlatform}
use zynq_can_sja1000_top.Probe.Ring.{IsFresh, xcan_probe-Fresh}
use zynq_can_sja1000_top.Runtime.{Step}
use zynq_can_sja1000_top.Runtime.Account.{Step-IsAccounted}

-- Before the probe no echo buffer is in use, alloc_candev hands out an instance with both counters
-- at 0, and the depth of the transmit FIFO is positive and divides 2 ^ 32.
pub record IsNew (pf : Platform) (w0 : World) : Type 0 where
  pub platform : IsPlatform pf
  pub zeroed : (p : Priv) → pf.candev ≡ some p → (p.tx_head ≡ 0) × (p.tx_tail ≡ 0)
  pub divides : pf.tx_fifo_depth.1 ∣ 2 ^ 32
  pub depth_pos : 0 < pf.tx_fifo_depth.1
  pub depth_fits : pf.tx_fifo_depth.1 < 2 ^ 32
  pub no_echoes : echo_calls w0.history ≡ []
  pub packets : w0.stats.tx_packets < 2 ^ 32

module _ (k : Kernel) where
  -- The states after a probe and an opening that succeed in `w0`, and calls of any kind. A device
  -- is closed, opened and restarted only with no frame in flight, since the kernel empties the
  -- echo slots then, and resumed only with room in the ring.
  pub data Session (pf : Platform) (w0 : World) : World → Type 0 where
    begin :
        (fuel : ℕ) {w u : World}
        → xcan_probe k pf w0 ≡ (pos 0, w)
        → xcan_open k fuel w ≡ some (pos 0, u)
        → Session pf w0 u
    run : {w u : World} → Session pf w0 w → Step k w u → Session pf w0 u
    count_errors :
        (bec : BerrCounter) {w u : World} {r : ℤ × BerrCounter}
        → Session pf w0 w
        → xcan_get_berr_counter k bec w ≡ some (r, u)
        → Session pf w0 u
    suspend :
        {w u : World} {r : ℤ} → Session pf w0 w → xcan_suspend k w ≡ some (r, u) → Session pf w0 u
    resume :
        {w u : World} {r : ℤ}
        → Session pf w0 w
        → in_flight w < w.priv.tx_max
        → xcan_resume k w ≡ some (r, u)
        → Session pf w0 u
    set_mode :
        (fuel : ℕ) (mode : CanMode) {w u : World} {r : ℤ}
        → Session pf w0 w
        → in_flight w ≡ 0
        → xcan_do_set_mode k fuel mode w ≡ some (r, u)
        → Session pf w0 u
    close :
        {w u : World} {r : ℤ}
        → Session pf w0 w
        → in_flight w ≡ 0
        → xcan_close k w ≡ some (r, u)
        → Session pf w0 u
    open_again :
        (fuel : ℕ) {w u : World} {r : ℤ}
        → Session pf w0 w
        → in_flight w ≡ 0
        → xcan_open k fuel w ≡ some (r, u)
        → Session pf w0 u

  Quiet-IsAccounted :
      {A : Type 0} (r : A) {w u : World} → Quiet k w r u → IsAccounted w → IsAccounted u
  Quiet-IsAccounted r (s, inl off) a = SameRing-IsAccounted s (inl off) a
  Quiet-IsAccounted r (s, inr e) a =
      SameRing-IsAccounted s (elim a.controlled.room [ inl off ↦ inl (e ∙ off) | inr h ↦ inr h ]) a

  -- With the ring empty the queue may be woken.
  empty-IsAccounted : {w u : World} → SameRing w u → in_flight w ≡ 0 → IsAccounted w → IsAccounted u
  empty-IsAccounted s e a =
      let some_depth = a.controlled.max_pos in
      SameRing-IsAccounted s (inr (omega (arith, e, some_depth))) a

  module _ (pf : Platform) (w0 : World) where
    fresh_empty : {w : World} → IsNew pf w0 → IsFresh pf w0 w → in_flight w ≡ 0
    fresh_empty new f =
        let (h0, t0) = new.zeroed f.fresh f.allocated in
        let head = f.head ∙ h0 in let tail = f.tail ∙ t0 in omega (arith, head, tail)

    fresh-IsAccounted : {w : World} → IsNew pf w0 → IsFresh pf w0 w → IsAccounted w
    fresh-IsAccounted {w} new f =
        let (h0, t0) = new.zeroed f.fresh f.allocated in
        let head = f.head ∙ h0 in
        let tail = f.tail ∙ t0 in
        let max = f.max in
        let packets = f.packets in
        let empty = fresh_empty new f in
        let free = ap (λ (n : ℕ). slots w.priv.tx_max w.priv.tx_tail n) empty in
        let calls = f.echoes ∙ new.no_echoes in
        record {
          divides = subst (λ m. m ∣ 2 ^ 32) (sym max) new.divides;
          controlled = record {
            words = ground (arith, new.packets);
            max_pos = omega (arith, max, new.depth_pos);
            max_fits = omega (arith, max, new.depth_fits);
            bounded = omega (arith, empty);
            room = inr (omega (arith, empty, max, new.depth_pos));
          };
          waiting = [];
          holds = record { stored = rw (calls, free) tt; others = λ s n. rw calls refl };
          complete = rw calls refl;
        }

    open_ring : (fuel : ℕ) {w u : World} {r : ℤ} → xcan_open k fuel w ≡ some (r, u) → SameRing w u
    open_ring fuel {w} e = Ensures-some (Ring k w) (open-Ring k fuel w) e

    begin-IsAccounted :
        (fuel : ℕ) {w u : World}
        → IsNew pf w0
        → xcan_probe k pf w0 ≡ (pos 0, w)
        → xcan_open k fuel w ≡ some (pos 0, u)
        → IsAccounted u
    begin-IsAccounted fuel {w} new p o =
        let probed =
          subst (λ (x : ℤ × World). (is_nonzero x.0 ≡ true) ⊎ IsFresh pf w0 x.1) p
            (xcan_probe-Fresh k pf w0 new.platform) in
        elim probed [
          | inl z ↦ absurd (true≢false (sym z))
          | inr f ↦
              let a = fresh-IsAccounted new f in
              empty-IsAccounted (open_ring fuel o) (fresh_empty new f) a
        ]

    -- Where the errors of the platform are errors and the CAN clock has a rate, alloc_candev hands
    -- out an instance with both counters at 0, the depth of the transmit FIFO is positive, less
    -- than 2 ^ 32 and divides it, no echo buffer has been used before, and tx_packets is a 32-bit
    -- number: after xcan_probe and xcan_open have returned 0, and then any sequence of
    -- transmissions while the queue is awake, interrupts, polls that return, reads of the error
    -- counters, suspends, resumes with room in the ring, and changes of the mode, closings and
    -- openings with no frame in flight, the frames put into the ring so far are those echoed so
    -- far followed by those that the ring holds, each in its own echo slot. At most `tx_max`
    -- frames are in flight, and fewer in case the queue is awake.
    pub Session-IsAccounted : {w : World} → Session pf w0 w → IsNew pf w0 → IsAccounted w
    Session-IsAccounted (begin fuel p o) new = begin-IsAccounted fuel new p o
    Session-IsAccounted (run s step) new = Step-IsAccounted k step (Session-IsAccounted s new)
    Session-IsAccounted (count_errors bec {w} {u} {r} s e) new =
        Quiet-IsAccounted r (Ensures-some (Quiet k w) (get_berr_counter-Quiet k bec w) e)
          (Session-IsAccounted s new)
    Session-IsAccounted (suspend {w} {u} {r} s e) new =
        Quiet-IsAccounted r (Ensures-some (Quiet k w) (suspend-Quiet k w) e)
          (Session-IsAccounted s new)
    Session-IsAccounted (resume {w} s room e) new =
        SameRing-IsAccounted (Ensures-some (Ring k w) (resume-Ring k w) e) (inr room)
          (Session-IsAccounted s new)
    Session-IsAccounted (set_mode fuel mode {w} s none_left e) new =
        empty-IsAccounted (Ensures-some (Ring k w) (do_set_mode-Ring k fuel mode w) e) none_left
          (Session-IsAccounted s new)
    Session-IsAccounted (close {w} {u} {r} s none_left e) new =
        Quiet-IsAccounted r (Ensures-some (Quiet k w) (close-Quiet k w) e)
          (Session-IsAccounted s new)
    Session-IsAccounted (open_again fuel s none_left e) new =
        empty-IsAccounted (open_ring fuel e) none_left (Session-IsAccounted s new)
