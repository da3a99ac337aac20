-- ===== src/Transmit/Echo/Held.antt =====
-- The transmit ring of xcan_start_xmit and xcan_tx_interrupt with its echo buffers, as the queue
-- of the frames in flight.
use zynq_can_sja1000_top.Common.{
  ℕ, ◌==◌, ◌≡◌, ◌≢◌, inl, inr, refl, ap, arith, none, List, [], ◌∷◌, ◌++◌, false, Bool-cases,
}
use zynq_can_sja1000_top.Can.{CanFrame}
use zynq_can_sja1000_top.Driver.{World}
use zynq_can_sja1000_top.Transmit.Completion.{in_flight}
use zynq_can_sja1000_top.Transmit.Ring.{slots, NotIn}
use zynq_can_sja1000_top.Transmit.Slots.{used_slots, next_slot}
use zynq_can_sja1000_top.Transmit.Echo.{
  EchoCall, put, get, echo_calls, slot_frame, echoed, accepted, AreIn, AreIn-put, AreIn-get,
  AreIn-append,
}

abbrev pub calls : World → List EchoCall
calls w = echo_calls w.history

-- The ring stands for the queue `q`: the slots in use hold its frames in their order, and every
-- other slot is empty.
pub record Holds (w : World) (q : List CanFrame) : Type 0 where
  pub stored : AreIn (echo_calls w.history) (used_slots w) q
  pub others : (s : ℕ) → NotIn s (used_slots w) → slot_frame (echo_calls w.history) s ≡ none

NotIn-append : (s t : ℕ) (ss : List ℕ) → NotIn s (ss ++ (t ∷ [])) → NotIn s ss × (t ≢ s)
NotIn-append s t [] n = (tt, n.0)
NotIn-append s t (x ∷ ss) n = let r = NotIn-append s t ss n.1 in ((n.0, r.0), r.1)

-- A call that leaves the slots alone.
pub Holds-same :
    (w w' : World) (q : List CanFrame)
    → calls w' ≡ calls w
    → used_slots w' ≡ used_slots w
    → Holds w q
    → Holds w' q
Holds-same w w' q c u h = record {
  stored = rw (c, u) h.stored;
  others = λ s n. rw c (h.others s (rw u at n));
}

pub Holds-put :
    (cf : CanFrame) (w w' : World) (q : List CanFrame)
    → NotIn (next_slot w) (used_slots w)
    → used_slots w' ≡ used_slots w ++ (next_slot w ∷ [])
    → calls w' ≡ put cf (next_slot w) ∷ calls w
    → Holds w q
    → Holds w' (q ++ (cf ∷ []))
Holds-put cf w w' q free grows c h = record {
  stored =
      let e = h.others (next_slot w) free in
      rw (c, grows)
        (AreIn-append (put cf (next_slot w) ∷ calls w) (used_slots w) q (next_slot w) cf
          (AreIn-put cf (next_slot w) (calls w) (used_slots w) q free h.stored)
          (ground (arith, e)));
  others = λ s n.
      let (a, b) = NotIn-append s (next_slot w) (used_slots w) (rw grows at n) in
      let e = h.others s a in rw c (ground (arith, e));
}

AreIn-nil : (ops : List EchoCall) (q : List CanFrame) → AreIn ops [] q → q ≡ []
AreIn-nil ops [] a = refl
AreIn-nil ops (cf ∷ q) a = absurd a

-- With no frame in flight the queue is empty.
pub Holds-nil : (w : World) (q : List CanFrame) → in_flight w ≡ 0 → Holds w q → q ≡ []
Holds-nil w q e h =
    AreIn-nil (calls w) q (rw (ap (slots w.priv.tx_max w.priv.tx_tail) e) at h.stored)

differ : (s t : ℕ) → (s == t) ≡ false → s ≢ t
differ s t p = ground arith

-- When the slot at the front is emptied, the frame in it is echoed and the others stay.
abbrev pub Front : World → List CanFrame → World → Type 0
Front w [] u = ⊥
Front w (cf ∷ q) u =
    Holds u q
    × (echoed (calls u) ≡ echoed (calls w) ++ (cf ∷ []))
    × (accepted (calls u) ≡ accepted (calls w))

pub Holds-get :
    (w u : World) (s : ℕ) (ss : List ℕ) (q : List CanFrame)
    → used_slots w ≡ s ∷ ss
    → used_slots u ≡ ss
    → NotIn s ss
    → calls u ≡ get s ∷ calls w
    → Holds w q
    → Front w q u
Holds-get w u s ss [] e f n c h = rw e at h.stored
Holds-get w u s ss (cf ∷ q) e f n c h =
    let a : AreIn (calls w) (s ∷ ss) (cf ∷ q) = rw e at h.stored in
    (
      record {
        stored = rw (c, f) (AreIn-get s (calls w) ss q n a.1);
        others = λ t m. elim (Bool-cases (s == t)) [
          | inl p ↦ rw c (rw p refl)
          | inr p ↦ rw c (rw p (h.others t (rw e (differ s t p, rw f at m))))
        ];
      },
      rw (c, a.0) refl,
      ap accepted c,
    )
